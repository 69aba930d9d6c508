-- ===== src/Memory.antt =====
-- Raw memory: blocks of bytes, memcpy and memset with their bounds, and 32-bit little-endian words.
pub mod Laws
pub mod Fill
pub mod Slice
pub mod Append
use kernel_paxos_persistence.Prelude.{
  ℕ, zero, suc, ◌+◌, ◌*◌, ◌/◌, ◌%◌, Option, none, some, List, [], ◌∷◌, ◌&&◌, leb, if◌then◌else◌,
  length, get_or, take, drop, replicate,
}

abbrev pub Bytes : Type 0
Bytes = List ℕ

-- The block with the bytes from `off` on replaced by those of the source; its length is kept.
unfoldable pub overwrite : Bytes → ℕ → Bytes → Bytes
overwrite [] off src = []
overwrite (x ∷ dst) (suc off) src = x ∷ overwrite dst off src
overwrite (x ∷ dst) zero [] = x ∷ dst
overwrite (x ∷ dst) zero (y ∷ src) = y ∷ overwrite dst zero src

abbrev pub slice : Bytes → ℕ → ℕ → Bytes
slice b off n = take n (drop off b)

-- memcpy(&dst[off], src, n); an access outside one of the two blocks is undefined behaviour.
unfoldable pub memcpy : Bytes → ℕ → Bytes → ℕ → Option Bytes
memcpy dst off src n =
    if leb (off + n) (length dst) && leb n (length src)
    then some (overwrite dst off (take n src))
    else none

-- memset(dst, 0, n)
unfoldable pub memset : Bytes → ℕ → Option Bytes
memset dst n = if leb n (length dst) then some (overwrite dst 0 (replicate n 0)) else none

abbrev pub byte : Bytes → ℕ → ℕ
byte b i = get_or b i 0

-- The bytes of a 32-bit object, least significant first.
abbrev pub word32 : ℕ → Bytes
word32 v = (v % 256) ∷ (v / 256 % 256) ∷ (v / 65536 % 256) ∷ (v / 16777216 % 256) ∷ []

-- *(uint32_t *) &b[off], and the assignment to it. The blocks they are used on are long enough.
unfoldable pub load32 : Bytes → ℕ → ℕ
load32 b off =
    byte b off + 256 * byte b (off + 1) + 65536 * byte b (off + 2) + 16777216 * byte b (off + 3)

unfoldable pub store32 : Bytes → ℕ → ℕ → Bytes
store32 b off v = overwrite b off (word32 v)
