-- ===== src/Memory/Slice.antt =====
-- Words of a part of a block.
use kernel_paxos_persistence.Prelude.{
  ◌<◌, ◌≡◌, ◌+◌, ◌≤◌, arith, ap, ◌∙◌, length-take, length-drop, zero, [], refl,
}
use kernel_paxos_persistence.Memory.{
  Bytes, load32, ℕ, byte, take, drop, slice, length, suc, ◌∷◌, overwrite, store32, word32,
}

byte-take : (b : Bytes) (n i : ℕ) → i < n → byte (take n b) i ≡ byte b i
byte-take b zero i h = absurd (omega arith)
byte-take [] (suc n) i h = refl
byte-take (x ∷ b) (suc n) zero h = refl
byte-take (x ∷ b) (suc n) (suc i) h = byte-take b n i (omega arith)

byte-drop : (b : Bytes) (off i j : ℕ) → i ≡ off + j → byte (drop off b) j ≡ byte b i
byte-drop b zero i j e = ap (byte b) (omega arith)
byte-drop [] (suc off) i j e = refl
byte-drop (x ∷ b) (suc off) zero j e = absurd (omega arith)
byte-drop (x ∷ b) (suc off) (suc i) j e = byte-drop b off i j (omega arith)

byte-slice : (b : Bytes) (off n i j : ℕ) → i ≡ off + j → j < n → byte (slice b off n) j ≡ byte b i
byte-slice b off n i j e h = byte-take (drop off b) n j h ∙ byte-drop b off i j e

pub load32-slice :
    (b : Bytes) (off n i j : ℕ) → i ≡ off + j → j + 4 ≤ n → load32 (slice b off n) j ≡ load32 b i
unfolding load32
load32-slice b off n i j e h = omega (
  arith,
  byte-slice b off n i j e (omega arith),
  byte-slice b off n (i + 1) (j + 1) (omega arith) (omega arith),
  byte-slice b off n (i + 2) (j + 2) (omega arith) (omega arith),
  byte-slice b off n (i + 3) (j + 3) (omega arith) (omega arith),
)

pub length-slice : (b : Bytes) (off n : ℕ) → off + n ≤ length b → length (slice b off n) ≡ n
length-slice b off n h = omega (arith, length-take n (drop off b), length-drop off b)

-- What stands behind the bytes that an `overwrite` wrote.
pub drop-overwrite :
    (dst : Bytes) (off : ℕ) (src : Bytes) (n : ℕ)
    → off + length src ≤ n
    → drop n (overwrite dst off src) ≡ drop n dst
unfolding overwrite
drop-overwrite [] off src n h = refl
drop-overwrite (x ∷ dst) (suc off) src zero h = absurd (omega arith)
drop-overwrite (x ∷ dst) (suc off) src (suc n) h = drop-overwrite dst off src n (omega arith)
drop-overwrite (x ∷ dst) zero [] n h = refl
drop-overwrite (x ∷ dst) zero (y ∷ src) zero h = absurd (omega arith)
drop-overwrite (x ∷ dst) zero (y ∷ src) (suc n) h = drop-overwrite dst zero src n (omega arith)

-- The same for a word.
pub drop-store32 : (b : Bytes) (off v n : ℕ) → off + 4 ≤ n → drop n (store32 b off v) ≡ drop n b
unfolding store32
drop-store32 b off v n h = drop-overwrite b off (word32 v) n h
