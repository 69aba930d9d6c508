-- ===== src/WorkersPool/Tests.antt =====
-- A pool of two workers, and one that is created.
use kernel_paxos_persistence.WorkersPool.Released.{pool_is_released}
use kernel_paxos_persistence.WorkersPool.Failure.{create_pool_failure}
use kernel_paxos_persistence.World.Count.{IsPermuted}
use kernel_paxos_persistence.KernelDevice.Exit.{persistence_device_destroy}
use kernel_paxos_persistence.Prelude.{
  List, Returns, [], some, true, ◌∷◌, arith, ◌≡◌, refl, if◌then◌else◌, ◌==◌, false, none,
}
use kernel_paxos_persistence.WorkersPool.RoundRobin.{IsPool, add_works, dealt, add_works_lem}
use kernel_paxos_persistence.WorkersPool.{WorkersPool, create_pool, array, block, uninit_array}
use kernel_paxos_persistence.World.{World, Work}

abbrev nothing : World
nothing = record { calls = 0; live = []; running = []; queued_work = [] }

abbrev two_workers : WorkersPool
two_workers = record {
  address = 0;
  worker = array 1 (block 10 ∷ block 20 ∷ []);
  worker_thread = uninit_array;
  current_worker = 1;
  num_workers = 2;
}

two_workers-IsPool : IsPool two_workers (10 ∷ 20 ∷ [])
two_workers-IsPool = record {
  address_of = 1;
  array_is = refl;
  count_is = refl;
  turn_in = omega arith;
}

abbrev three_works : List Work
three_works =
    record { address = 5; param = 0; iid = 1 }
    ∷ record { address = 6; param = 1; iid = 2 }
    ∷ record { address = 7; param = 2; iid = 3 }
    ∷ []

add_works_lem_example :
    add_works nothing (some two_workers) three_works
    ≡ some (
      some (record two_workers { current_worker = 0 }),
      record nothing { queued_work = dealt (10 ∷ 20 ∷ []) 1 three_works [] },
    )
add_works_lem_example =
    add_works_lem three_works nothing two_workers (10 ∷ 20 ∷ []) two_workers-IsPool

pool_is_released_example : Returns (create_pool (λ n. true) nothing 10) λ (pool, w').
    Returns
      (persistence_device_destroy w' pool)
      λ w''. IsPermuted w''.live [] × IsPermuted w''.running []
pool_is_released_example = pool_is_released (λ n. true) nothing 10 (λ n. refl)

-- The calls: 0 for the struct, 1 to 4 for the workers, 5 for the array of threads, 6 to 8 for threads.
create_pool_failure_example : create_pool (λ n. if n == 7 then false else true) nothing 3 ≡ none
create_pool_failure_example =
    create_pool_failure (λ n. if n == 7 then false else true) nothing 3 6 refl refl (omega arith)
      refl
