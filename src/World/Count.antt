-- ===== src/World/Count.antt =====
-- How often a number is in a list, and what `remove` and the calls that free blocks do to it.
use kernel_paxos_persistence.World.{remove, vfree, World, kthread_stop, contains}
use kernel_paxos_persistence.Prelude.{
  ℕ, List, ◌∷◌, ◌≡◌, ◌++◌, ◌≢◌, some, none, if◌then◌else◌, ◌+◌, arith, ◌==◌, [], refl, Bool-cases,
  true, inl, ap, sym, Returns, ==_iff, inr, ==_ne, ne_of_==,
}

abbrev pub count : ℕ → List ℕ → ℕ
count y [] = 0
count y (x ∷ xs) = (if x == y then 1 else 0) + count y xs

-- The same blocks, whatever the order.
abbrev pub IsPermuted : List ℕ → List ℕ → Type 0
IsPermuted xs ys = (y : ℕ) → count y xs ≡ count y ys

pub count-append : (y : ℕ) (xs ys : List ℕ) → count y (xs ++ ys) ≡ count y xs + count y ys
count-append y [] ys = omega arith
count-append y (x ∷ xs) ys = omega (arith, count-append y xs ys)

==_of : (a b : ℕ) → a ≡ b → (a == b) ≡ true
==_of a b e = ground arith

pub count_self : (x z : ℕ) (zs : List ℕ) → z ≡ x → count x (z ∷ zs) ≡ 1 + count x zs
count_self x z zs e = rw (==_of z x e)

pub count_ne : (x z : ℕ) (zs : List ℕ) → z ≢ x → count x (z ∷ zs) ≡ count x zs
count_ne x z zs h = rw (==_ne z x h) (omega arith)

pub removed_lem :
    (x : ℕ) (xs : List ℕ)
    → count x xs ≢ 0
    → (ys : List ℕ) × (remove x xs ≡ some ys) × ((y : ℕ) → count y xs ≡ count y (x ∷ ys))
unfolding remove
removed_lem x [] h = absurd (h refl)
removed_lem x (z ∷ zs) h = elim (Bool-cases (x == z)) [
  | inl hit ↦ (zs, rw hit, λ y. ap (λ t. count y (t ∷ zs)) (sym ((==_iff x z).0 hit)))
  | inr miss ↦
      let ne : z ≢ x = λ e. ne_of_== x z miss (sym e) in
      let (ys, e, counts) = removed_lem x zs (omega (arith, h, count_ne x z zs ne)) in
      (z ∷ ys, rw (miss, e), λ y. omega (arith, counts y))
]

pub absent_lem : (x : ℕ) (xs : List ℕ) → count x xs ≡ 0 → remove x xs ≡ none
unfolding remove
absent_lem x [] h = refl
absent_lem x (z ∷ zs) h = elim (Bool-cases (x == z)) [
  | inl hit ↦ absurd (omega (arith, h, count_self x z zs (sym ((==_iff x z).0 hit))))
  | inr miss ↦
      let ne : z ≢ x = λ e. ne_of_== x z miss (sym e) in
      rw (miss, absent_lem x zs (omega (arith, h, count_ne x z zs ne)))
]

-- What is still allocated when a block is freed, of those that the account has.
pub vfree_lem :
    (w : World) (x : ℕ) (m : ℕ → ℕ)
    → ((y : ℕ) → count y w.live ≡ count y (x ∷ []) + m y)
    → Returns (vfree w x) λ w'. ((y : ℕ) → count y w'.live ≡ m y) × (w'.running ≡ w.running)
unfolding vfree
vfree_lem w x m h =
    let (ys, e, counts) = removed_lem x w.live (omega (arith, h x, count_self x x [] refl)) in
    rw e (λ y. omega (arith, counts y, h y), refl)

-- The same for a thread.
pub kthread_stop_lem :
    (w : World) (x : ℕ) (m : ℕ → ℕ)
    → ((y : ℕ) → count y w.running ≡ count y (x ∷ []) + m y)
    → Returns (kthread_stop w x) λ w'. ((y : ℕ) → count y w'.running ≡ m y) × (w'.live ≡ w.live)
unfolding kthread_stop
kthread_stop_lem w x m h =
    let (ys, e, counts) = removed_lem x w.running (omega (arith, h x, count_self x x [] refl)) in
    rw e (λ y. omega (arith, counts y, h y), refl)

pub contains_lem : (x : ℕ) (xs : List ℕ) → count x xs ≢ 0 → contains xs x ≡ true
unfolding contains
contains_lem x [] h = absurd (h refl)
contains_lem x (z ∷ zs) h = elim (Bool-cases (x == z)) [
  | inl hit ↦ rw hit
  | inr miss ↦
      let ne : z ≢ x = λ e. ne_of_== x z miss (sym e) in
      rw (miss, contains_lem x zs (omega (arith, h, count_ne x z zs ne)))
]

-- The account `w'` has these blocks and these threads more than `w`.
pub record Grows (blocks threads : List ℕ) (w w' : World) : Type 0 where
  pub live : (y : ℕ) → count y w'.live ≡ count y blocks + count y w.live
  pub running : (y : ℕ) → count y w'.running ≡ count y threads + count y w.running
