-- ===== src/Ring/Window.antt =====
-- The slots of a ring as a list: what writing one slot, and moving `first_buf` on, do to it.
use kernel_paxos_persistence.Prelude.{
  ℕ, zero, suc, ◌+◌, ◌-◌, ◌%◌, ◌<◌, ◌≡◌, ◌≢◌, refl, ap, ap₂, ◌∙◌, List, [], ◌∷◌, ◌++◌, length,
  get_or, set, get_or-set_self, get_or-set_ne, arith,
}
use kernel_paxos_persistence.Memory.{Bytes}
use kernel_paxos_persistence.Types.{buffer_size}
use kernel_paxos_persistence.Ring.{window}

pub length-window : (slots : List Bytes) (first n : ℕ) → length (window slots first n) ≡ n
length-window slots first zero = refl
length-window slots first (suc n) = ap suc (length-window slots ((first + 1) % buffer_size) n)

-- Writing the slot just behind the window makes the window longer by that message.
pub window-set :
    (slots : List Bytes) (x : Bytes) (n first i : ℕ)
    → length slots ≡ buffer_size
    → first < buffer_size
    → n < buffer_size
    → i ≡ (first + n) % buffer_size
    → window (set slots i x) first (suc n) ≡ window slots first n ++ (x ∷ [])
window-set slots x zero first i hs hf hn e =
    ap (λ t. t ∷ [])
      (ap (λ k. get_or (set slots k x) first []) at_first
        ∙ get_or-set_self slots first x [] (omega arith))
  where
    at_first : i ≡ first
    at_first = omega arith
window-set slots x (suc n) first i hs hf hn e = ap₂ ◌∷◌ (get_or-set_ne slots x [] apart) (
    window-set slots x n ((first + 1) % buffer_size) i hs (omega arith) (omega arith) (omega arith))
  where
    apart : i ≢ first
    apart = omega arith

-- The window after its first message.
pub window_of_pos :
    (slots : List Bytes) (first n : ℕ)
    → n ≢ 0
    → window slots first n
      ≡ get_or slots first [] ∷ window slots ((first + 1) % buffer_size) (n - 1)
window_of_pos slots first zero h = absurd (h refl)
window_of_pos slots first (suc n) h = ap (λ k. window slots first (suc k)) (omega arith)
