-- ===== src/WorkersPool/Exits.antt =====
-- What init_workers, init_workers_threads and create_pool do after each of their allocations.

use kernel_paxos_persistence.Prelude.{
  ℕ, List, ◌+◌, ◌≡◌, true, false, some, suc, arith, none, Bool-cases, inr, inl, ap, ◌∙◌, refl,
  ◌>>=◌, ◌≤◌, Option, if◌then◌else◌, ◌==◌,
}
use kernel_paxos_persistence.World.Count.{count}
use kernel_paxos_persistence.WorkersPool.Twice.{freed_twice, bind_assoc}
use kernel_paxos_persistence.World.{Outcomes, World, vmalloc, is_live}
use kernel_paxos_persistence.WorkersPool.{
  free_pool, free_workers_threads, alloc_workers, start_threads, WorkersPool, Pointer, uninit_array,
  array, stop_threads, create_pool, init_workers, init_workers_threads, pool_error_exit, null_array,
  workers_of, new_pool,
}
use kernel_paxos_persistence.WorkersPool.Stopped.{with_block}

-- The pool is freed by way of its threads: an array that has not been written, or one with an ERR_PTR
-- in it.
unwritten_lem :
    (w : World) (pool : WorkersPool)
    → pool.worker_thread ≡ uninit_array
    → free_pool w (some pool) ≡ none
unfolding free_pool free_workers_threads
unwritten_lem w pool e = elim (Bool-cases (is_live w pool.address)) [
  | inl live ↦ rw (live, e)
  | inr dead ↦ rw dead
]

stopped_lem :
    (w : World) (pool : WorkersPool) (t : ℕ) (threads : List Pointer)
    → pool.worker_thread ≡ array t threads
    → stop_threads w threads ≡ none
    → free_pool w (some pool) ≡ none
unfolding free_pool free_workers_threads
stopped_lem w pool t threads e stops = elim (Bool-cases (is_live w pool.address)) [
  | inl live ↦ rw (live, e, stops)
  | inr dead ↦ rw dead
]

module _ (succeeds : Outcomes) where
  vmalloc_made :
      (w : World) → succeeds w.calls ≡ true → vmalloc succeeds w ≡ (some w.calls, with_block w)
  unfolding vmalloc
  vmalloc_made w made = ground (arith, made)

  -- init_workers by the results of its allocations: the threads are not written.
  pub init_null :
      (w : World) (pool : WorkersPool)
      → succeeds w.calls ≡ false
      → init_workers succeeds w pool
        ≡ (1, record pool { worker = null_array }, record w { calls = w.calls + 1 })
  unfolding init_workers vmalloc
  init_null w pool failed = ground (arith, failed)

  pub init_stopped :
      (w : World) (pool : WorkersPool)
      → succeeds w.calls ≡ true
      → (alloc_workers succeeds (with_block w) pool.num_workers).1 ≡ false
      → init_workers succeeds w pool ≡ (
        2,
        record pool {
          worker = array w.calls (alloc_workers succeeds (with_block w) pool.num_workers).0;
        },
        (alloc_workers succeeds (with_block w) pool.num_workers).2,
      )
  unfolding init_workers
  init_stopped w pool made stopped = ground (arith, vmalloc_made w made, stopped)

  pub init_done :
      (w : World) (pool : WorkersPool)
      → succeeds w.calls ≡ true
      → (alloc_workers succeeds (with_block w) pool.num_workers).1 ≡ true
      → init_workers succeeds w pool ≡ (
        0,
        record pool {
          worker = array w.calls (alloc_workers succeeds (with_block w) pool.num_workers).0;
        },
        (alloc_workers succeeds (with_block w) pool.num_workers).2,
      )
  unfolding init_workers
  init_done w pool made done = ground (arith, vmalloc_made w made, done)

  pub threads_stop :
      (w : World) (pool : WorkersPool)
      → succeeds w.calls ≡ true
      → (start_threads succeeds (with_block w) (workers_of succeeds pool)).1 ≡ false
      → ((w₀ : World)
          → stop_threads w₀ (start_threads succeeds (with_block w) (workers_of succeeds pool)).0
            ≡ none)
      → init_workers_threads succeeds w pool ≡ none
  unfolding init_workers_threads
  threads_stop w pool made stopped stops =
      let threads = (start_threads succeeds (with_block w) (workers_of succeeds pool)).0 in
      let w' = (start_threads succeeds (with_block w) (workers_of succeeds pool)).2 in
      let freed =
        stopped_lem w' (record pool { worker_thread = array w.calls threads }) w.calls threads refl
          (stops w') in
      ground (arith, vmalloc_made w made, stopped, freed)

  -- create_pool, when init_workers or init_workers_threads is not done.
  pub create_stops :
      (w : World) (n error : ℕ) (pool : WorkersPool) (w' : World)
      → succeeds w.calls ≡ true
      → init_workers succeeds (with_block w) (new_pool succeeds w.calls n) ≡ (suc error, pool, w')
      → pool.worker_thread ≡ uninit_array
      → create_pool succeeds w n ≡ none
  unfolding create_pool pool_error_exit
  create_stops w n error pool w' made e unwritten =
      ground (arith, vmalloc_made w made, e, unwritten_lem w' pool unwritten)

  pub create_threads :
      (w : World) (n : ℕ) (pool : WorkersPool) (w' : World)
      → succeeds w.calls ≡ true
      → init_workers succeeds (with_block w) (new_pool succeeds w.calls n) ≡ (0, pool, w')
      → init_workers_threads succeeds w' pool ≡ none
      → create_pool succeeds w n ≡ none
  unfolding create_pool
  create_threads w n pool w' made e none_made = ground (arith, vmalloc_made w made, e, none_made)

  threads_null :
      (w : World) (pool : WorkersPool)
      → succeeds w.calls ≡ false
      → init_workers_threads succeeds w pool ≡ (
          free_pool
            (record w { calls = w.calls + 1 })
            (some (record pool { worker_thread = null_array }))
          >>= λ w'. some (1, record pool { worker_thread = null_array }, w'))
  unfolding init_workers_threads vmalloc
  threads_null w pool failed = ground (arith, failed)

  -- Without an array of threads, init_workers_threads and create_pool both free the pool.
  pub create_twice :
      (w : World) (n : ℕ) (pool : WorkersPool) (w' : World)
      → succeeds w.calls ≡ true
      → init_workers succeeds (with_block w) (new_pool succeeds w.calls n) ≡ (0, pool, w')
      → succeeds w'.calls ≡ false
      → count pool.address w'.live ≤ 1
      → create_pool succeeds w n ≡ none
  unfolding create_pool pool_error_exit
  create_twice w n pool w' made e null once =
      let pool' = record pool { worker_thread = null_array } in
      let next : ℕ × WorkersPool × World → Option (Option WorkersPool × World) =
        λ (error, freed, w₃).
          if error == 0 then some (some freed, w₃) else pool_error_exit w₃ (some freed) in
      let created : create_pool succeeds w n ≡ (init_workers_threads succeeds w' pool >>= next) =
        ground (arith, vmalloc_made w made, e) in
      created
      ∙ ap (λ m. m >>= next) (threads_null w' pool null)
      ∙ bind_assoc (free_pool (record w' { calls = w'.calls + 1 }) (some pool')) _ next
      ∙ freed_twice (record w' { calls = w'.calls + 1 }) pool' _ refl once (λ w'' dead. rw dead)
