-- ===== src/WorkersPool/Create.antt =====
-- create_pool, when all calls succeed.
use kernel_paxos_persistence.World.Count.{Grows}
use kernel_paxos_persistence.WorkersPool.RoundRobin.{IsPool}
use kernel_paxos_persistence.WorkersPool.{
  alloc_workers, start_threads, init_workers, init_workers_threads, create_pool, WorkersPool,
  Pointer, array, block, workers_of, new_pool,
}
use kernel_paxos_persistence.Prelude.{
  ℕ, ◌≡◌, true, List, some, ◌<◌, map, Returns, ◌+◌, ◌∷◌, length, [], suc, ap, sym, arith, zero,
  refl,
}
use kernel_paxos_persistence.World.{Outcomes, vmalloc, World, kthread_run}

module _ (succeeds : Outcomes) (all : (n : ℕ) → succeeds n ≡ true) where
  vmalloc_lem :
      (w : World)
      → vmalloc succeeds w
        ≡ (some w.calls, record w { calls = w.calls + 1; live = w.calls ∷ w.live })
  unfolding vmalloc
  vmalloc_lem w = simp (all w.calls)

  alloc_workers_lem :
      (k : ℕ) (w : World)
      → (workers : List ℕ) × (w' : World) × (alloc_workers succeeds w k
          ≡ (map block workers, true, w'))
        × (length workers ≡ k)
        × Grows workers [] w w'
  unfolding alloc_workers vmalloc
  alloc_workers_lem zero w =
      ([], w, refl, refl, record { live = λ y. omega arith; running = λ y. omega arith })
  alloc_workers_lem (suc k) w =
      let w₁ : World = record w { calls = w.calls + 1; live = w.calls ∷ w.live } in
      let (workers, w', e, n, more) = alloc_workers_lem k w₁ in
      (
        w.calls ∷ workers,
        w',
        ground (arith, all w.calls, e),
        ap suc n,
        record {
          live = λ y. omega (arith, more.live y);
          running = λ y. omega (arith, more.running y);
        },
      )

  start_threads_lem :
      (ps : List Pointer) (w : World)
      → (threads : List ℕ) × (w' : World) × (start_threads succeeds w ps
          ≡ (map block threads, true, w'))
        × Grows [] threads w w'
  unfolding start_threads kthread_run
  start_threads_lem [] w =
      ([], w, refl, record { live = λ y. omega arith; running = λ y. omega arith })
  start_threads_lem (p ∷ ps) w =
      let w₁ : World = record w { calls = w.calls + 1; running = w.calls ∷ w.running } in
      let (threads, w', e, more) = start_threads_lem ps w₁ in
      (
        w.calls ∷ threads,
        w',
        ground (arith, all w.calls, e),
        record {
          live = λ y. omega (arith, more.live y);
          running = λ y. omega (arith, more.running y);
        },
      )

  init_workers_lem :
      (w : World) (pool : WorkersPool)
      → (a : ℕ) × (workers : List ℕ) × (w' : World) × (init_workers succeeds w pool
          ≡ (0, record pool { worker = array a (map block workers) }, w'))
        × (length workers ≡ pool.num_workers)
        × Grows (a ∷ workers) [] w w'
  unfolding init_workers
  init_workers_lem w pool =
      let w₁ : World = record w { calls = w.calls + 1; live = w.calls ∷ w.live } in
      let (workers, w', e, n, more) = alloc_workers_lem pool.num_workers w₁ in
      (
        w.calls,
        workers,
        w',
        ground (arith, vmalloc_lem w, e),
        n,
        record {
          live = λ y. omega (arith, more.live y);
          running = λ y. omega (arith, more.running y);
        },
      )

  init_threads_lem :
      (w : World) (pool : WorkersPool)
      → (t : ℕ) × (threads : List ℕ) × (w' : World) × (init_workers_threads succeeds w pool
          ≡ some (0, record pool { worker_thread = array t (map block threads) }, w'))
        × Grows (t ∷ []) threads w w'
  unfolding init_workers_threads
  init_threads_lem w pool =
      let w₁ : World = record w { calls = w.calls + 1; live = w.calls ∷ w.live } in
      let (threads, w', e, more) = start_threads_lem (workers_of succeeds pool) w₁ in
      (
        w.calls,
        threads,
        w',
        ground (arith, vmalloc_lem w, e),
        record {
          live = λ y. omega (arith, more.live y);
          running = λ y. omega (arith, more.running y);
        },
      )

  -- The pool, and what the account has for it.
  pub create_steps :
      (w : World) (n : ℕ)
      → (a : ℕ) × (workers : List ℕ) × (t : ℕ) × (threads : List ℕ) × (w' : World) × (create_pool
            succeeds w n
          ≡ some (
            some (record (new_pool succeeds w.calls n) {
              worker = array a (map block workers);
              worker_thread = array t (map block threads);
            }),
            w',
          ))
        × (length workers ≡ n)
        × Grows (w.calls ∷ t ∷ a ∷ workers) threads w w'
  unfolding create_pool
  create_steps w n =
      let w₁ : World = record w { calls = w.calls + 1; live = w.calls ∷ w.live } in
      let (a, workers, w₂, e, len, more) = init_workers_lem w₁ (new_pool succeeds w.calls n) in
      let pool : WorkersPool = record (new_pool succeeds w.calls n) {
        worker = array a (map block workers);
      } in
      let (t, threads, w₃, e', more') = init_threads_lem w₂ pool in
      (
        a,
        workers,
        t,
        threads,
        w₃,
        ground (arith, vmalloc_lem w, e, e'),
        len,
        record {
          live = λ y. omega (arith, more.live y, more'.live y);
          running = λ y. omega (arith, more.running y, more'.running y);
        },
      )

  -- When all allocations and threads succeed and at least one worker is asked for, create_pool
  -- returns a pool with that many workers, all there, whose turn is with the first.
  pub create_pool_lem :
      (w : World) (n : ℕ)
      → 0 < n
      → Returns (create_pool succeeds w n) λ (result, w').
        (pool : WorkersPool) × (result ≡ some pool)
        × ((workers : List ℕ) × (length workers ≡ n) × IsPool pool workers)
        × (pool.current_worker ≡ 0)
  create_pool_lem w n some_workers =
      let (a, workers, t, threads, w', created, len, _) = create_steps w n in
      rw created (
        record (new_pool succeeds w.calls n) {
          worker = array a (map block workers);
          worker_thread = array t (map block threads);
        },
        refl,
        (
          workers,
          len,
          record { address_of = a; array_is = refl; count_is = sym len; turn_in = omega arith },
        ),
        refl,
      )
