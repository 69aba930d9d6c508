-- ===== src/KernelDevice/Released.antt =====
-- What kdevchar_exit frees.
use kernel_paxos_persistence.KernelDevice.Account.{
  pointed, slot_blocks, all_blocks, alloc_slots_lem, alloc_buffers_returns, given_lem,
}
use kernel_paxos_persistence.Types.{buffer_size}
use kernel_paxos_persistence.World.{Outcomes, World, vmalloc, vfree}
use kernel_paxos_persistence.KernelDevice.Exit.{
  SlotBlocks, DeviceBlocks, free_slot, alloc_slots, kfree, free_slots, free_buffers, alloc_buffers,
}
use kernel_paxos_persistence.Prelude.{
  Option, List, ℕ, [], ◌∷◌, some, Keeps, ◌≡◌, Keeps-intro_eq, arith, ◌+◌, none, Returns, ◌∙◌,
  Keeps-bind, refl, Returns-bind, Returns-map, true, Returns-and,
}
use kernel_paxos_persistence.World.Count.{count, count-append, vfree_lem, IsPermuted}

-- The frees, for an account that has the blocks and `m` besides.
abbrev pub Leaves : (ℕ → ℕ) → World → World → Type 0
Leaves m w w' = ((y : ℕ) → count y w'.live ≡ m y) × (w'.running ≡ w.running)

pub kfree_lem :
    (w : World) (p : Option ℕ) (m : ℕ → ℕ)
    → ((y : ℕ) → count y w.live ≡ count y (pointed p) + m y)
    → Returns (kfree w p) (Leaves m w)
unfolding kfree
kfree_lem w none m h = (λ y. h y ∙ omega arith, refl)
kfree_lem w (some p) m h = vfree_lem w p m h

free_slot_lem :
    (w : World) (b : SlotBlocks) (m : ℕ → ℕ)
    → ((y : ℕ) → count y w.live ≡ count y (slot_blocks b) + m y)
    → Returns (free_slot w b) (Leaves m w)
unfolding free_slot
free_slot_lem w b m h =
    let after_value = b.response ∷ b.callback ∷ [] in
    Returns-bind _ _ (kfree w b.message) _
      (kfree_lem w b.message (λ y. count y (b.value ∷ after_value) + m y)
        (λ y. omega (arith, h y, count-append y (pointed b.message) (b.value ∷ after_value))))
      λ w₁ (h₁, t₁).
        Returns-bind _ _ (vfree w₁ b.value) _
          (vfree_lem w₁ b.value (λ y. count y after_value + m y) (λ y. omega (arith, h₁ y)))
          λ w₂ (h₂, t₂).
            Returns-bind _ _ (vfree w₂ b.response) _
              (vfree_lem w₂ b.response (λ y. count y (b.callback ∷ []) + m y)
                (λ y. omega (arith, h₂ y)))
              λ w₃ (h₃, t₃).
                Returns-map _ _ (vfree w₃ b.callback) (vfree_lem w₃ b.callback m h₃)
                  λ w₄ (h₄, t₄). (h₄, t₄ ∙ t₃ ∙ t₂ ∙ t₁)

free_slots_lem :
    (bs : List SlotBlocks) (w : World) (m : ℕ → ℕ)
    → ((y : ℕ) → count y w.live ≡ count y (all_blocks bs) + m y)
    → Returns (free_slots w bs) (Leaves m w)
unfolding free_slots
free_slots_lem [] w m h = (λ y. h y ∙ omega arith, refl)
free_slots_lem (b ∷ bs) w m h =
    Returns-bind _ _ (free_slot w b) _
      (free_slot_lem w b (λ y. count y (all_blocks bs) + m y)
        (λ y. omega (arith, h y, count-append y (slot_blocks b) (all_blocks bs))))
      λ w₁ (h₁, t₁).
        Returns-map _ _ (free_slots w₁ bs) (free_slots_lem bs w₁ m h₁) λ w₂ (h₂, t₂). (h₂, t₂ ∙ t₁)

-- The arrays come last.
free_buffers_lem :
    (w : World) (b : DeviceBlocks) (p q : ℕ) (m : ℕ → ℕ)
    → b.msg_buf ≡ some p
    → b.callback_buf ≡ some q
    → ((y : ℕ) → count y w.live ≡ count y (all_blocks b.slots) + (count y (p ∷ q ∷ []) + m y))
    → Returns (free_buffers w b) (Leaves m w)
unfolding free_buffers
free_buffers_lem w b p q m e f h =
    rw (e, f)
      (Returns-bind _ _ (free_slots w b.slots) _
        (free_slots_lem b.slots w (λ y. count y (p ∷ q ∷ []) + m y) h)
        λ w₁ (h₁, t₁).
          Returns-bind _ _ (vfree w₁ p) _
            (vfree_lem w₁ p (λ y. count y (q ∷ []) + m y) (λ y. omega (arith, h₁ y)))
            λ w₂ (h₂, t₂).
              Returns-map _ _ (vfree w₂ q) (vfree_lem w₂ q m h₂) λ w₃ (h₃, t₃). (h₃, t₃ ∙ t₂ ∙ t₁))

-- Whichever message blocks are NULL.
released_lem :
    (succeeds : Outcomes) (w : World)
    → Keeps
        (λ (b, w').
          Returns (free_buffers w' b) λ w''. IsPermuted w''.live w.live × (w''.running ≡ w.running))
        (alloc_buffers succeeds w)
unfolding alloc_buffers
released_lem succeeds w =
    let w₁ = (vmalloc succeeds w).1 in
    let w₂ = (vmalloc succeeds w₁).1 in
    Keeps-intro_eq _ (vmalloc succeeds w).0 _ λ p e.
      Keeps-intro_eq _ (vmalloc succeeds w₁).0 _ λ q e₁.
        Keeps-bind _ _ (alloc_slots succeeds w₂ buffer_size) _
          (alloc_slots_lem succeeds buffer_size w₂)
          λ (slots, w₃) more.
            let h₀ = given_lem succeeds w p e in
            let h₁ = given_lem succeeds w₁ q e₁ in
            let b : DeviceBlocks = record {
              msg_buf = some p;
              callback_buf = some q;
              slots = slots;
              de_name = none;
              clas_name = none;
            } in
            Returns-map _ _ (free_buffers w₃ b)
              (free_buffers_lem w₃ b p q (λ y. count y w.live) refl refl
                (λ y. omega (arith, more.blocks y, h₁.blocks y, h₀.blocks y)))
              λ w₄ (h, t). (h, t ∙ more.threads ∙ h₁.threads ∙ h₀.threads)

-- When all allocations succeed, freeing the buffers of a device as kdevchar_exit does, after they
-- were allocated as kdevchar_init does, frees only what is allocated, and leaves exactly the blocks
-- that there were before, in some order.
pub buffers_are_released :
    (succeeds : Outcomes)
    → ((n : ℕ) → succeeds n ≡ true)
    → (w : World)
    → Returns (alloc_buffers succeeds w) λ (b, w').
      Returns (free_buffers w' b) λ w''. IsPermuted w''.live w.live × (w''.running ≡ w.running)
buffers_are_released succeeds all w =
    Returns-map _ _ (alloc_buffers succeeds w)
      (Returns-and _ _ (alloc_buffers succeeds w) (alloc_buffers_returns succeeds all w)
        (released_lem succeeds w))
      λ (b, w') (_, released). released
