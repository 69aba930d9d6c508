-- ===== src/WorkersPool/RoundRobin.antt =====
-- add_work, for a sequence of works.
use native.Mathlib.Nat.{add-zero, mod-eq_of_lt, mod-add-mod}
use kernel_paxos_persistence.World.{World, vmalloc, Work, Outcomes, queue_kthread_work}
use kernel_paxos_persistence.WorkersPool.{
  create_persistence_work, WorkersPool, add_work, Pointer, array, block,
}
use kernel_paxos_persistence.Prelude.{
  ℕ, List, Option, ◌+◌, some, ◌∷◌, ◌%◌, ◌≡◌, ◌>>=◌, true, [], get_elem?, arith, length, map, ◌<◌,
  get_or, suc, ◌∙◌, zero, refl, ap, ap₂,
}

-- A work for the slot `param`, at the end of a worker's queue.
abbrev pub entry : ℕ → ℕ → ℕ → ℕ → List (ℕ × Work) → List (ℕ × Work)
entry worker address param iid queue =
    (worker, record { address = address; param = param; iid = iid }) ∷ queue

pub create_work_lem :
    (succeeds : Outcomes) (w : World) (param iid : ℕ)
    → succeeds w.calls ≡ true
    → create_persistence_work succeeds w param iid ≡ (
      some (record { address = w.calls; param = param; iid = iid }),
      record w { calls = w.calls + 1; live = w.calls ∷ w.live },
    )
unfolding create_persistence_work vmalloc
create_work_lem succeeds w param iid h = ground arith

abbrev pub next_worker : WorkersPool → WorkersPool
next_worker pool = record pool { current_worker = (pool.current_worker + 1) % pool.num_workers }

pub add_work_lem :
    (w : World) (pool : WorkersPool) (work : Work) (a worker : ℕ) (workers : List Pointer)
    → pool.worker ≡ array a workers
    → get_elem? workers pool.current_worker ≡ some (block worker)
    → add_work w (some pool) work ≡ some (some (next_worker pool), queue_kthread_work w worker work)
unfolding add_work
add_work_lem w pool work a worker workers e f = simp (e, f)

-- add_work for each work of a list.
unfoldable pub add_works :
    World → Option WorkersPool → List Work → Option (Option WorkersPool × World)
add_works w pool [] = some (pool, w)
add_works w pool (x ∷ xs) = add_work w pool x >>= λ (pool', w'). add_works w' pool' xs

-- What the account shows when the works from the worker `i` on have been given out in turn.
pub dealt : List ℕ → ℕ → List Work → List (ℕ × Work) → List (ℕ × Work)
dealt workers i [] queue = queue
dealt workers i (x ∷ xs) queue =
    dealt workers ((i + 1) % length workers) xs ((get_or workers i 0, x) ∷ queue)

-- A pool whose workers have all been allocated.
pub record IsPool (pool : WorkersPool) (workers : List ℕ) : Type 0 where
  pub address_of : ℕ
  pub array_is : pool.worker ≡ array address_of (map block workers)
  pub count_is : pool.num_workers ≡ length workers
  pub turn_in : pool.current_worker < length workers

pub get_elem?-map_block :
    (workers : List ℕ) (i : ℕ)
    → i < length workers
    → get_elem? (map block workers) i ≡ some (block (get_or workers i 0))
get_elem?-map_block [] i h = absurd (omega arith)
get_elem?-map_block (x ∷ xs) zero h = refl
get_elem?-map_block (x ∷ xs) (suc i) h = get_elem?-map_block xs i (omega arith)

-- For a pool whose workers are all there, add_work of each work of a list gives the k-th work to
-- the worker that stands k places, going round, behind the one whose turn it is; the turn moves on
-- by the number of works, and nothing else of the pool and of the account changes.
pub add_works_lem :
    (xs : List Work) (w : World) (pool : WorkersPool) (workers : List ℕ)
    → IsPool pool workers
    → add_works w (some pool) xs
      ≡ some (
        some (record pool { current_worker = (pool.current_worker + length xs) % length workers }),
        record w { queued_work = dealt workers pool.current_worker xs w.queued_work },
      )
unfolding add_works dealt queue_kthread_work
add_works_lem [] w pool workers ok =
    let same : (pool.current_worker + 0) % length workers ≡ pool.current_worker =
      rw (add-zero, mod-eq_of_lt ok.turn_in) in
    rw same
add_works_lem (x ∷ xs) w pool workers ok =
    rw
      (add_work_lem w pool x ok.address_of (get_or workers pool.current_worker 0)
        (map block workers) ok.array_is
        (get_elem?-map_block workers pool.current_worker ok.turn_in))
      (add_works_lem xs (queue_kthread_work w (get_or workers pool.current_worker 0) x)
          (next_worker pool) workers
          (record {
            address_of = ok.address_of;
            array_is = ok.array_is;
            count_is = ok.count_is;
            turn_in = omega (arith, ok.count_is, ok.turn_in);
          })
        ∙ ap₂ {C = Option (Option WorkersPool × World)}
            (λ k i. some (
              some (record pool { current_worker = k }),
              record w {
                queued_work =
                    dealt workers i xs ((get_or workers pool.current_worker 0, x) ∷ w.queued_work);
              },
            ))
            (ap (λ m. ((pool.current_worker + 1) % m + length xs) % length workers) ok.count_is
              ∙ shift)
            (ap (λ m. (pool.current_worker + 1) % m) ok.count_is))
  where
    shift :
        ((pool.current_worker + 1) % length workers + length xs) % length workers
        ≡ (pool.current_worker + suc (length xs)) % length workers
    shift = rw mod-add-mod (ap (λ k. k % length workers) (omega arith))
