-- ===== src/PaxosValue/Laws.antt =====
-- What the destructor of an accepted frees.
use kernel_paxos_persistence.KernelDevice.Account.{pointed}
use kernel_paxos_persistence.World.Count.{count, vfree_lem, count-append}
use kernel_paxos_persistence.KernelDevice.Exit.{kfree}
use kernel_paxos_persistence.KernelDevice.Released.{kfree_lem}
use kernel_paxos_persistence.World.Count.{IsPermuted}
use kernel_paxos_persistence.World.{World, vfree}
use kernel_paxos_persistence.Prelude.{
  List, ℕ, if◌then◌else◌, is_positive, ◌++◌, [], Returns, ◌∷◌, ◌≡◌, Bool-cases, inl, Returns-bind,
  ◌+◌, Returns-map, ◌∙◌, inr, Bool, arith, ap,
}
use kernel_paxos_persistence.PaxosValue.{
  Message, paxos_accepted_free, paxos_accepted_destroy, paxos_value_destroy,
}

-- The blocks that it owns: the value, if its length is positive, and the structure.
abbrev owned_if : Bool → Message → List ℕ
owned_if has_value a =
    (if has_value then pointed a.value.paxos_value_val else []) ++ (a.address ∷ [])

abbrev pub owned : Message → List ℕ
owned a = owned_if (is_positive a.value.paxos_value_len) a

-- When the account has the structure of an accepted, and its value if the length is positive,
-- besides other blocks, paxos_accepted_free returns and leaves exactly the other blocks, in some
-- order.
pub accepted_free_lem :
    (w : World) (a : Message) (rest : List ℕ)
    → IsPermuted w.live (owned a ++ rest)
    → Returns (paxos_accepted_free w a) λ w'. IsPermuted w'.live rest × (w'.running ≡ w.running)
unfolding paxos_accepted_free paxos_accepted_destroy paxos_value_destroy
accepted_free_lem w a rest h = elim (Bool-cases (is_positive a.value.paxos_value_len)) [
  | inl some_value ↦ rw some_value (
      Returns-bind _ _ (kfree w a.value.paxos_value_val) _
        (kfree_lem w a.value.paxos_value_val (λ y. count y (a.address ∷ []) + count y rest)
          (λ y. omega (
            arith,
            h y,
            ap (λ b. count y (owned_if b a ++ rest)) some_value,
            count-append y (pointed a.value.paxos_value_val ++ (a.address ∷ [])) rest,
            count-append y (pointed a.value.paxos_value_val) (a.address ∷ []),
          )))
        λ w₁ (h₁, t₁).
          Returns-map _ _ (vfree w₁ a.address) (vfree_lem w₁ a.address (λ y. count y rest) h₁)
            λ w₂ (h₂, t₂). (h₂, t₂ ∙ t₁))
  | inr no_value ↦ rw no_value (
      vfree_lem w a.address (λ y. count y rest)
        (λ y. omega (arith, h y, ap (λ b. count y (owned_if b a ++ rest)) no_value)))
]
