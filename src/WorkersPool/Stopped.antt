-- ===== src/WorkersPool/Stopped.antt =====
-- The loops of init_workers and init_workers_threads, when one of their calls fails.

use kernel_paxos_persistence.Prelude.{
  ℕ, List, ◌+◌, ◌<◌, ◌≡◌, true, false, length, ◌∷◌, some, suc, arith, none, Bool-cases, replicate,
  zero, inr, [], inl, ◌≢◌, subst, ap, ◌∙◌, ◌-◌, Option, sym, ◌>>=◌, refl,
}
use kernel_paxos_persistence.World.Count.{count, count_ne}
use kernel_paxos_persistence.World.{Outcomes, World, vmalloc, kthread_run, kthread_stop}
use kernel_paxos_persistence.WorkersPool.{
  alloc_workers, start_threads, Pointer, stop_threads, block, err, uninit,
}

bind_none :
    {A B : Type 0} (m : Option A) (f : A → Option B) → ((a : A) → f a ≡ none) → (m >>= f) ≡ none
bind_none none f h = refl
bind_none (some a) f h = h a

stop_first :
    (w : World) (t : ℕ) (ps : List Pointer)
    → ((w₁ : World) → stop_threads w₁ ps ≡ none)
    → stop_threads w (block t ∷ ps) ≡ none
unfolding stop_threads
stop_first w t ps rest = bind_none (kthread_stop w t) (λ w₁. stop_threads w₁ ps) rest

-- The state after a vmalloc and after a kthread_run that succeed.
abbrev pub with_block : World → World
with_block w = record w { calls = w.calls + 1; live = w.calls ∷ w.live }

abbrev pub with_thread : World → World
with_thread w = record w { calls = w.calls + 1; running = w.calls ∷ w.running }

module _ (succeeds : Outcomes) where
  alloc_one :
      (k : ℕ) (w : World)
      → succeeds w.calls ≡ true
      → alloc_workers succeeds w (suc k) ≡ (
        block w.calls ∷ (alloc_workers succeeds (with_block w) k).0,
        (alloc_workers succeeds (with_block w) k).1,
        (alloc_workers succeeds (with_block w) k).2,
      )
  unfolding alloc_workers vmalloc
  alloc_one k w made = ground (arith, made)

  alloc_none :
      (k : ℕ) (w : World) → succeeds w.calls ≡ false → (alloc_workers succeeds w (suc k)).1 ≡ false
  unfolding alloc_workers vmalloc
  alloc_none k w failed = ground (arith, failed)

  -- A worker that fails stops the loop; otherwise it has made as many calls as there are workers.
  pub alloc_fails :
      (k j : ℕ) (w : World)
      → j < k
      → succeeds (w.calls + j) ≡ false
      → (alloc_workers succeeds w k).1 ≡ false
  alloc_fails zero j w h failed = absurd (omega arith)
  alloc_fails (suc k) j w h failed = elim (Bool-cases (succeeds w.calls)) [
    | inr none_made ↦ alloc_none k w none_made
    | inl made ↦
        let later : j ≢ 0 = λ e.
          let same : succeeds w.calls ≡ false =
            subst (λ n. succeeds n ≡ false) (omega (arith, e)) failed in
          absurd (cc) in
        ap (λ t. t.1) (alloc_one k w made)
        ∙ alloc_fails k (j - 1) (with_block w) (omega (arith, later))
            (subst (λ n. succeeds n ≡ false) (omega (arith, later)) failed)
  ]

  pub alloc_calls :
      (k : ℕ) (w : World)
      → (alloc_workers succeeds w k).1 ≡ true
      → ((alloc_workers succeeds w k).2.calls ≡ w.calls + k)
        × (length (alloc_workers succeeds w k).0 ≡ k)
  unfolding alloc_workers
  alloc_calls zero w e = (omega arith, refl)
  alloc_calls (suc k) w e = elim (Bool-cases (succeeds w.calls)) [
    | inr failed ↦ let stopped = alloc_none k w failed in absurd (cc)
    | inl made ↦
        let one = alloc_one k w made in
        let (calls, size) = alloc_calls k (with_block w) (ap (λ t. t.1) (sym one) ∙ e) in
        (ap (λ t. t.2.calls) one ∙ calls ∙ omega arith, ap (λ t. length t.0) one ∙ ap suc size)
  ]

  -- The new blocks have later numbers.
  pub alloc_live :
      (k : ℕ) (w : World) (y : ℕ)
      → y < w.calls
      → (alloc_workers succeeds w k).1 ≡ true
      → count y (alloc_workers succeeds w k).2.live ≡ count y w.live
  unfolding alloc_workers
  alloc_live zero w y h e = refl
  alloc_live (suc k) w y h e = elim (Bool-cases (succeeds w.calls)) [
    | inr failed ↦ let stopped = alloc_none k w failed in absurd (cc)
    | inl made ↦
        let one = alloc_one k w made in
        ap (λ t. count y t.2.live) one
        ∙ alloc_live k (with_block w) y (omega (arith, h)) (ap (λ t. t.1) (sym one) ∙ e)
        ∙ count_ne y w.calls w.live (omega (arith, h))
  ]

  start_one :
      (p : Pointer) (ps : List Pointer) (w : World)
      → succeeds w.calls ≡ true
      → start_threads succeeds w (p ∷ ps) ≡ (
        block w.calls ∷ (start_threads succeeds (with_thread w) ps).0,
        (start_threads succeeds (with_thread w) ps).1,
        (start_threads succeeds (with_thread w) ps).2,
      )
  unfolding start_threads kthread_run
  start_one p ps w made = ground (arith, made)

  start_none :
      (p : Pointer) (ps : List Pointer) (w : World)
      → succeeds w.calls ≡ false
      → ((start_threads succeeds w (p ∷ ps)).0 ≡ err ∷ replicate (length ps) uninit)
        × ((start_threads succeeds w (p ∷ ps)).1 ≡ false)
  unfolding start_threads kthread_run
  start_none p ps w failed = (ground (arith, failed), ground (arith, failed))

  -- A thread that fails leaves an ERR_PTR, which is given to kthread_stop.
  pub start_fails :
      (ps : List Pointer) (j : ℕ) (w w₀ : World)
      → j < length ps
      → succeeds (w.calls + j) ≡ false
      → ((start_threads succeeds w ps).1 ≡ false)
        × (stop_threads w₀ (start_threads succeeds w ps).0 ≡ none)
  unfolding stop_threads
  start_fails [] j w w₀ h failed = absurd (omega arith)
  start_fails (p ∷ ps) j w w₀ h failed = elim (Bool-cases (succeeds w.calls)) [
    | inr none_made ↦
        let (threads, stopped) = start_none p ps w none_made in
        (stopped, ap (stop_threads w₀) threads)
    | inl made ↦
        let later : j ≢ 0 = λ e.
          let same : succeeds w.calls ≡ false =
            subst (λ n. succeeds n ≡ false) (omega (arith, e)) failed in
          absurd (cc) in
        let one = start_one p ps w made in
        let rest : (w₁ : World)
            → ((start_threads succeeds (with_thread w) ps).1 ≡ false)
              × (stop_threads w₁ (start_threads succeeds (with_thread w) ps).0 ≡ none) =
          λ w₁.
            start_fails ps (j - 1) (with_thread w) w₁ (omega (arith, h, later))
              (subst (λ n. succeeds n ≡ false) (omega (arith, later)) failed) in
        (
          ap (λ t. t.1) one ∙ (rest w₀).0,
          ap (λ t. stop_threads w₀ t.0) one
              ∙ stop_first w₀ w.calls (start_threads succeeds (with_thread w) ps).0
                  (λ w₁. (rest w₁).1),
        )
  ]
