-- ===== src/World.antt =====
-- The account of the kernel's allocator and threads that the module's calls keep: which blocks are
-- allocated, which threads run, and which work is queued. Whether a call succeeds is decided by a
-- parameter, from the number of the call; what a call returns is named by that number.
pub mod Count
use kernel_paxos_persistence.Prelude.{
  ℕ, Option, List, Bool, ◌∷◌, ◌+◌, ◌>>=◌, none, false, some, if◌then◌else◌, ◌==◌, ◌||◌, [],
}

-- struct persistence_work (kpaxos/include/workers_pool.h); the callback by its index.
pub record Work : Type 0 where
  pub address : ℕ
  pub param : ℕ
  pub iid : ℕ

pub record World : Type 0 where
  pub calls : ℕ
  pub live : List ℕ
  pub running : List ℕ
  pub queued_work : List (ℕ × Work)

-- A list without the first `x`; none if it is not there.
unfoldable pub remove : ℕ → List ℕ → Option (List ℕ)
remove x [] = none
remove x (y ∷ ys) =
    let rest = remove x ys in if x == y then some ys else (do zs ← rest; some (y ∷ zs))

unfoldable pub contains : List ℕ → ℕ → Bool
contains [] x = false
contains (y ∷ ys) x = x == y || contains ys x

unfoldable pub is_live : World → ℕ → Bool
unfolding contains
is_live w p = contains w.live p

-- A block that is not allocated cannot be freed, and a thread that does not run cannot be stopped.
unfoldable pub vfree : World → ℕ → Option World
vfree w p = do live ← remove p w.live; some (record w { live = live })

unfoldable pub kthread_stop : World → ℕ → Option World
kthread_stop w t = do running ← remove t w.running; some (record w { running = running })

unfoldable pub queue_kthread_work : World → ℕ → Work → World
queue_kthread_work w worker work = record w { queued_work = (worker, work) ∷ w.queued_work }

-- Which calls succeed.
abbrev pub Outcomes : Type 0
Outcomes = ℕ → Bool

module _ (succeeds : Outcomes) where
  unfoldable pub vmalloc : World → Option ℕ × World
  vmalloc w =
      let w' = record w { calls = w.calls + 1 } in
      if succeeds w.calls then (some w.calls, record w' { live = w.calls ∷ w.live }) else (none, w')

  unfoldable pub kthread_run : World → Option ℕ × World
  kthread_run w =
      let w' = record w { calls = w.calls + 1 } in
      if succeeds w.calls
      then (some w.calls, record w' { running = w.calls ∷ w.running })
      else (none, w')
