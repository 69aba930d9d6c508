-- ===== src/Prelude/Int.antt =====
-- The signed results of the C functions, and signed reading of machine words.
use Prim.Native.Nat.{ℕ, ◌-◌, ◌+◌, ◌^◌}
use mathlib.Core.Bool.{Bool, ◌&&◌}
use kernel_paxos_persistence.Prelude.Tests.{ltb, leb, if◌then◌else◌}

-- `negsuc n` is -(n + 1).
pub data ℤ : Type 0 where
  pos : ℕ → ℤ
  negsuc : ℕ → ℤ

-- The number of values of an `int`, and of a `size_t`.
abbrev pub u32_mod : ℕ
u32_mod = 2 ^ 32

abbrev pub u64_mod : ℕ
u64_mod = 2 ^ 64

-- An `int` is kept as its bit pattern below 2 ^ 32. These are the signed tests of it.
abbrev pub is_positive : ℕ → Bool
is_positive w = ltb 0 w && ltb w (2 ^ 31)

-- w >= k, for a constant k >= 0
abbrev pub at_least : ℕ → ℕ → Bool
at_least k w = leb k w && ltb w (2 ^ 31)

-- The conversion of an `int` to `size_t` keeps the sign.
abbrev pub sign_extend : ℕ → ℕ
sign_extend w = if ltb w (2 ^ 31) then w else w + 2 ^ 64 - 2 ^ 32

-- The conversion of a `size_t` to `ssize_t`.
abbrev pub to_ssize : ℕ → ℤ
to_ssize n = if ltb n (2 ^ 63) then pos n else negsuc (2 ^ 64 - n - 1)
