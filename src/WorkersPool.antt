-- ===== src/WorkersPool.antt =====
-- kpaxos/workers_pool.c: a fixed number of kernel threads, each with a queue of work.
pub mod RoundRobin
pub mod Create
pub mod Released
pub mod Stopped
pub mod Twice
pub mod Exits
pub mod Failure
mod Tests
use kernel_paxos_persistence.World.{
  World, Outcomes, vmalloc, Work, kthread_stop, vfree, is_live, queue_kthread_work, kthread_run,
}
use kernel_paxos_persistence.Prelude.{
  ℕ, List, Option, some, none, Bool, [], ◌>>=◌, true, if◌then◌else◌, ◌+◌, suc, ◌∷◌, ◌%◌, ◌==◌,
  replicate, get_elem?, false, length, zero,
}

-- A pointer that the code has stored, or memory that it has not written yet. `err` is an ERR_PTR.
pub data Pointer : Type 0 where
  uninit : Pointer
  null : Pointer
  err : Pointer
  block : ℕ → Pointer

-- A pointer to an array of pointers.
pub data Array : Type 0 where
  uninit_array : Array
  null_array : Array
  array : ℕ → List Pointer → Array

-- struct workers_pool, with the address at which it stands; `mainThread` is never used.
pub record WorkersPool : Type 0 where
  pub address : ℕ
  pub worker : Array
  pub worker_thread : Array
  pub current_worker : ℕ
  pub num_workers : ℕ

-- The loop of free_workers_threads, and that of free_workers. To use memory that has not been
-- written, or an ERR_PTR, is undefined.
unfoldable pub stop_threads : World → List Pointer → Option World
stop_threads w [] = some w
stop_threads w (uninit ∷ ps) = none
stop_threads w (null ∷ ps) = stop_threads w ps
stop_threads w (err ∷ ps) = none
stop_threads w (block t ∷ ps) = kthread_stop w t >>= λ w'. stop_threads w' ps

unfoldable pub free_blocks : World → List Pointer → Option World
free_blocks w [] = some w
free_blocks w (uninit ∷ ps) = none
free_blocks w (null ∷ ps) = free_blocks w ps
free_blocks w (err ∷ ps) = none
free_blocks w (block p ∷ ps) = vfree w p >>= λ w'. free_blocks w' ps

unfoldable pub free_workers_threads : World → Array → Option World
free_workers_threads w uninit_array = none
free_workers_threads w null_array = some w
free_workers_threads w (array a threads) = do w₁ ← stop_threads w threads; vfree w₁ a

unfoldable pub free_workers : World → Array → Option World
free_workers w uninit_array = none
free_workers w null_array = some w
free_workers w (array a workers) = do w₁ ← free_blocks w workers; vfree w₁ a

-- The structure itself must still be allocated when its fields are read.
unfoldable pub free_pool : World → Option WorkersPool → Option World
free_pool w none = some w
free_pool w (some pool) =
    if is_live w pool.address
    then (do
      w₁ ← free_workers_threads w pool.worker_thread
      w₂ ← free_workers w₁ pool.worker
      vfree w₂ pool.address)
    else none

-- ___pool_error_exit
unfoldable pub pool_error_exit : World → Option WorkersPool → Option (Option WorkersPool × World)
pool_error_exit w pool = do w' ← free_pool w pool; some (none, w')

-- The body of add_work, for the worker whose turn it is. Nothing is queued if it is NULL.
unfoldable pub queue_on : World → WorkersPool → Work → Pointer → Option (Option WorkersPool × World)
queue_on w pool work (block worker) = some (
  some (record pool { current_worker = (pool.current_worker + 1) % pool.num_workers }),
  queue_kthread_work w worker work,
)
queue_on w pool work null = some (some pool, w)
queue_on w pool work uninit = none
queue_on w pool work err = none

unfoldable pub add_to : World → WorkersPool → Work → Array → Option (Option WorkersPool × World)
add_to w pool work (array a workers) =
    get_elem? workers pool.current_worker >>= queue_on w pool work
add_to w pool work uninit_array = none
add_to w pool work null_array = none

-- `%` by a pool of no workers is not reached, since its array has no element.
unfoldable pub add_work : World → Option WorkersPool → Work → Option (Option WorkersPool × World)
unfolding queue_on add_to
add_work w none work = some (none, w)
add_work w (some pool) work = add_to w pool work pool.worker

module _ (succeeds : Outcomes) where
  -- The loop of init_workers: `k` workers are still to be allocated. At the first that is NULL it
  -- stops, and the rest of the array is not written.
  unfoldable pub alloc_workers : World → ℕ → List Pointer × Bool × World
  alloc_workers w zero = ([], true, w)
  alloc_workers w (suc k) =
      let (p, w₁) = vmalloc succeeds w in
      elim p [
        | none ↦ (null ∷ replicate k uninit, false, w₁)
        | some a ↦ let (rest, done, w₂) = alloc_workers w₁ k in (block a ∷ rest, done, w₂)
      ]

  -- 0, or 1 and 2 for the two errors.
  unfoldable pub init_workers : World → WorkersPool → ℕ × WorkersPool × World
  init_workers w pool =
      let (p, w₁) = vmalloc succeeds w in
      let (workers, done, w₂) = alloc_workers w₁ pool.num_workers in
      elim p [
        | none ↦ (1, record pool { worker = null_array }, w₁)
        | some a ↦ (if done then 0 else 2, record pool { worker = array a workers }, w₂)
      ]

  -- The loop of init_workers_threads: a thread for each worker. A thread that was not created is an ERR_PTR.
  unfoldable pub start_threads : World → List Pointer → List Pointer × Bool × World
  start_threads w [] = ([], true, w)
  start_threads w (p ∷ ps) =
      let (t, w₁) = kthread_run succeeds w in
      elim t [
        | none ↦ (err ∷ replicate (length ps) uninit, false, w₁)
        | some a ↦ let (rest, done, w₂) = start_threads w₁ ps in (block a ∷ rest, done, w₂)
      ]

  abbrev pub workers_of : WorkersPool → List Pointer
  workers_of pool = elim pool.worker [ array a workers ↦ workers | _ ↦ [] ]

  -- On an error the pool is freed here.
  unfoldable pub init_workers_threads : World → WorkersPool → Option (ℕ × WorkersPool × World)
  init_workers_threads w pool =
      let (p, w₁) = vmalloc succeeds w in
      let (threads, done, w₂) = start_threads w₁ (workers_of pool) in
      elim p [
        | none ↦
            let pool' = record pool { worker_thread = null_array } in
            free_pool w₁ (some pool') >>= λ w'. some (1, pool', w')
        | some a ↦
            let pool' = record pool { worker_thread = array a threads } in
            if done
            then some (0, pool', w₂)
            else (free_pool w₂ (some pool') >>= λ w'. some (2, pool', w'))
      ]

  -- What vmalloc returns is not cleared: `worker` and `workerThread` are not written yet.
  abbrev pub new_pool : ℕ → ℕ → WorkersPool
  new_pool a num_workers = record {
    address = a;
    worker = uninit_array;
    worker_thread = uninit_array;
    current_worker = 0;
    num_workers = num_workers;
  }

  unfoldable pub create_pool : World → ℕ → Option (Option WorkersPool × World)
  create_pool w num_workers =
      let (p, w₁) = vmalloc succeeds w in
      elim p [
        | none ↦ pool_error_exit w₁ none
        | some a ↦
            let (error, pool, w₂) = init_workers w₁ (new_pool a num_workers) in
            if error == 0
            then (init_workers_threads w₂ pool >>= λ (error', pool', w₃).
                if error' == 0 then some (some pool', w₃) else pool_error_exit w₃ (some pool'))
            else pool_error_exit w₂ (some pool)
      ]

  -- createPersistenceWork; `param` and `iid` are what the caller assigns next.
  unfoldable pub create_persistence_work : World → ℕ → ℕ → Option Work × World
  create_persistence_work w param iid =
      let (p, w₁) = vmalloc succeeds w in
      elim p [
        | none ↦ (none, w₁)
        | some a ↦ (some (record { address = a; param = param; iid = iid }), w₁)
      ]
