-- ===== src/KernelDevice/Account.antt =====
-- The account of the blocks that kdevchar_init allocates for the buffers.
use kernel_paxos_persistence.Types.{buffer_size}
use kernel_paxos_persistence.World.{Outcomes, World, vmalloc}
use kernel_paxos_persistence.KernelDevice.Exit.{
  SlotBlocks, DeviceBlocks, alloc_slot, alloc_slots, alloc_buffers,
}
use kernel_paxos_persistence.Prelude.{
  Option, List, ℕ, [], ◌∷◌, ◌++◌, some, Bool-cases, Keeps, ◌≡◌, inl, subst, Keeps-intro_eq, arith,
  ◌+◌, none, inr, suc, Returns, ◌∙◌, Keeps-bind, refl, zero, Returns-bind, true,
}
use kernel_paxos_persistence.World.Count.{count, count-append}

-- A pointer's block, the blocks of a slot, and those of all the slots.
abbrev pub pointed : Option ℕ → List ℕ
pointed none = []
pointed (some p) = p ∷ []

abbrev pub slot_blocks : SlotBlocks → List ℕ
slot_blocks b = pointed b.message ++ (b.value ∷ b.response ∷ b.callback ∷ [])

abbrev pub all_blocks : List SlotBlocks → List ℕ
all_blocks [] = []
all_blocks (b ∷ bs) = slot_blocks b ++ all_blocks bs

abbrev pub buffer_blocks : DeviceBlocks → List ℕ
buffer_blocks b = all_blocks b.slots ++ (pointed b.msg_buf ++ pointed b.callback_buf)

-- The account `w'` has the blocks `xs` more than `w`.
pub record HasMore (xs : List ℕ) (w w' : World) : Type 0 where
  pub blocks : (y : ℕ) → count y w'.live ≡ count y xs + count y w.live
  pub threads : w'.running ≡ w.running

module _ (succeeds : Outcomes) where
  vmalloc_lem : (w : World) → HasMore (pointed (vmalloc succeeds w).0) w (vmalloc succeeds w).1
  unfolding vmalloc
  vmalloc_lem w = elim (Bool-cases (succeeds w.calls)) [
    | inl made ↦ rw made (record { blocks = λ y. omega arith; threads = refl })
    | inr failed ↦ rw failed (record { blocks = λ y. omega arith; threads = refl })
  ]

  -- A pointer that is not NULL.
  pub given_lem :
      (w : World) (p : ℕ)
      → (vmalloc succeeds w).0 ≡ some p
      → HasMore (p ∷ []) w (vmalloc succeeds w).1
  given_lem w p e = subst (λ o. HasMore (pointed o) w (vmalloc succeeds w).1) e (vmalloc_lem w)

  alloc_slot_lem :
      (w : World) → Keeps (λ (b, w'). HasMore (slot_blocks b) w w') (alloc_slot succeeds w)
  unfolding alloc_slot
  alloc_slot_lem w =
      let w₁ = (vmalloc succeeds w).1 in
      let w₂ = (vmalloc succeeds w₁).1 in
      let w₃ = (vmalloc succeeds w₂).1 in
      Keeps-intro_eq _ (vmalloc succeeds w₁).0 _ λ callback e₁.
        Keeps-intro_eq _ (vmalloc succeeds w₂).0 _ λ response e₂.
          Keeps-intro_eq _ (vmalloc succeeds w₃).0 _ λ value e₃.
            let h₀ = vmalloc_lem w in
            let h₁ = given_lem w₁ callback e₁ in
            let h₂ = given_lem w₂ response e₂ in
            let h₃ = given_lem w₃ value e₃ in
            record {
              blocks = λ y. omega (
                arith,
                h₀.blocks y,
                h₁.blocks y,
                h₂.blocks y,
                h₃.blocks y,
                count-append y (pointed (vmalloc succeeds w).0) (value ∷ response ∷ callback ∷ []),
              );
              threads = h₃.threads ∙ h₂.threads ∙ h₁.threads ∙ h₀.threads;
            }

  pub alloc_slots_lem :
      (k : ℕ) (w : World)
      → Keeps (λ (bs, w'). HasMore (all_blocks bs) w w') (alloc_slots succeeds w k)
  unfolding alloc_slots
  alloc_slots_lem zero w = record { blocks = λ y. omega arith; threads = refl }
  alloc_slots_lem (suc k) w =
      Keeps-bind _ _ (alloc_slot succeeds w) _ (alloc_slot_lem w) λ (b, w₁) one.
        Keeps-bind _ _ (alloc_slots succeeds w₁ k) _ (alloc_slots_lem k w₁) λ (bs, w₂) rest.
          record {
            blocks = λ y. omega (
              arith,
              one.blocks y,
              rest.blocks y,
              count-append y (slot_blocks b) (all_blocks bs),
            );
            threads = rest.threads ∙ one.threads;
          }

module _ (succeeds : Outcomes) (all : (n : ℕ) → succeeds n ≡ true) where
  made_lem : (w : World) → (vmalloc succeeds w).0 ≡ some w.calls
  unfolding vmalloc
  made_lem w = rw (all w.calls)

  alloc_slots_returns : (k : ℕ) (w : World) → Returns (alloc_slots succeeds w k) λ _. Unit
  unfolding alloc_slots alloc_slot
  alloc_slots_returns zero w = tt
  alloc_slots_returns (suc k) w =
      let w₁ = (vmalloc succeeds w).1 in
      let w₂ = (vmalloc succeeds w₁).1 in
      let w₃ = (vmalloc succeeds w₂).1 in
      rw (made_lem w₁, made_lem w₂, made_lem w₃)
        (Returns-bind _ _ (alloc_slots succeeds (vmalloc succeeds w₃).1 k) _
          (alloc_slots_returns k (vmalloc succeeds w₃).1) λ (bs, w₄) _. tt)

  pub alloc_buffers_returns : (w : World) → Returns (alloc_buffers succeeds w) λ _. Unit
  unfolding alloc_buffers
  alloc_buffers_returns w =
      let w₁ = (vmalloc succeeds w).1 in
      rw (made_lem w, made_lem w₁)
        (Returns-bind _ _ (alloc_slots succeeds (vmalloc succeeds w₁).1 buffer_size) _
          (alloc_slots_returns buffer_size (vmalloc succeeds w₁).1) λ (bs, w₂) _. tt)
