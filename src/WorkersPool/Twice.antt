-- ===== src/WorkersPool/Twice.antt =====
-- A pool that is freed twice: the second free_pool reads a structure that is not allocated.
use native.Mathlib.Decide.{dec_le}
use kernel_paxos_persistence.World.Count.{count, removed_lem, absent_lem, count_self, count_ne}
use kernel_paxos_persistence.World.{World, vfree, is_live, contains}
use kernel_paxos_persistence.WorkersPool.{
  Pointer, WorkersPool, block, uninit, err, null, uninit_array, array, null_array, free_blocks,
  free_workers, free_workers_threads, free_pool, Array,
}
use kernel_paxos_persistence.Prelude.{
  ℕ, List, Option, none, some, ◌>>=◌, ◌≡◌, ◌≤◌, ◌∷◌, [], refl, arith, ◌∙◌, false, inl, inr,
  Bool-cases, ◌+◌, ◌==◌, sym, ==_iff, ◌≢◌, ne_of_==,
}

pub bind_assoc :
    {A B C : Type 0} (m : Option A) (f : A → Option B) (g : B → Option C)
    → ((m >>= f) >>= g) ≡ (m >>= λ a. f a >>= g)
bind_assoc none f g = refl
bind_assoc (some a) f g = refl

module _ {B : Type 0} (y : ℕ) where
  -- What comes after a vfree has no result, when it has none for an account with at most as much.
  after_vfree :
      (w : World) (x : ℕ) (k : World → Option B)
      → ((w' : World) → count y w.live ≡ count y (x ∷ []) + count y w'.live → k w' ≡ none)
      → (vfree w x >>= k) ≡ none
  unfolding vfree
  after_vfree w x k h = elim (dec_le (count x w.live) 0) [
    | yes absent ↦ rw (absent_lem x w.live (omega (arith, absent)))
    | no there ↦
        let (ys, e, counts) = removed_lem x w.live (omega (arith, there)) in
        rw e (h (record w { live = ys }) (omega (arith, counts y)))
  ]

  after_blocks :
      (ps : List Pointer) (w : World) (k : World → Option B)
      → ((w' : World) → count y w'.live ≤ count y w.live → k w' ≡ none)
      → (free_blocks w ps >>= k) ≡ none
  unfolding free_blocks
  after_blocks [] w k h = h w (omega arith)
  after_blocks (uninit ∷ ps) w k h = refl
  after_blocks (null ∷ ps) w k h = after_blocks ps w k h
  after_blocks (err ∷ ps) w k h = refl
  after_blocks (block p ∷ ps) w k h =
      bind_assoc (vfree w p) (λ w'. free_blocks w' ps) k
      ∙ after_vfree w p (λ w'. free_blocks w' ps >>= k)
          (λ w' less. after_blocks ps w' k (λ w'' less'. h w'' (omega (arith, less, less'))))

  after_workers :
      (workers : Array) (w : World) (k : World → Option B)
      → ((w' : World) → count y w'.live ≤ count y w.live → k w' ≡ none)
      → (free_workers w workers >>= k) ≡ none
  unfolding free_workers
  after_workers uninit_array w k h = refl
  after_workers null_array w k h = h w (omega arith)
  after_workers (array a workers) w k h =
      bind_assoc (free_blocks w workers) (λ w₁. vfree w₁ a) k
      ∙ after_blocks workers w (λ w₁. vfree w₁ a >>= k)
          (λ w₁ less. after_vfree w₁ a k (λ w₂ less'. h w₂ (omega (arith, less, less'))))

not_there : (x : ℕ) (xs : List ℕ) → count x xs ≡ 0 → contains xs x ≡ false
unfolding contains
not_there x [] h = refl
not_there x (z ∷ zs) h = elim (Bool-cases (x == z)) [
  | inl hit ↦ absurd (omega (arith, h, count_self x z zs (sym ((==_iff x z).0 hit))))
  | inr miss ↦
      let ne : z ≢ x = λ e. ne_of_== x z miss (sym e) in
      rw (miss, not_there x zs (omega (arith, h, count_ne x z zs ne)))
]

-- When the account has the structure once and there are no threads, freeing the pool leaves an account in which it cannot be freed again.
pub freed_twice :
    {B : Type 0} (w : World) (pool : WorkersPool) (k : World → Option B)
    → pool.worker_thread ≡ null_array
    → count pool.address w.live ≤ 1
    → ((w' : World) → free_pool w' (some pool) ≡ none → k w' ≡ none)
    → (free_pool w (some pool) >>= k) ≡ none
unfolding free_pool free_workers_threads is_live
freed_twice w pool k e once h = elim (Bool-cases (is_live w pool.address)) [
  | inr dead ↦ rw dead
  | inl live ↦
      rw (live, e)
        (bind_assoc (free_workers w pool.worker) (λ w₂. vfree w₂ pool.address) k
          ∙ after_workers pool.address pool.worker w (λ w₂. vfree w₂ pool.address >>= k)
              (λ w₂ less. after_vfree pool.address w₂ pool.address k (λ w₃ less'.
                let gone = not_there pool.address w₃.live (
                  omega (arith, once, less, less', count_self pool.address pool.address [] refl)) in
                h w₃ (rw gone))))
]
