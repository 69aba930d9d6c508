-- ===== src/Memory/Laws.antt =====
-- The laws of raw memory: what an access reads after a write.
use kernel_paxos_persistence.Prelude.{
  ℕ, zero, suc, ◌+◌, ◌%◌, ◌^◌, ◌≤◌, ◌<◌, ◌≡◌, refl, ap, ◌∙◌, ◌⊎◌, inl, inr, [], ◌∷◌, some, none,
  arith, length, take, drop, replicate, ◌++◌,
}
use kernel_paxos_persistence.Memory.{
  Bytes, overwrite, memcpy, memset, byte, word32, load32, store32,
}

pub length-overwrite :
    (dst : Bytes) (off : ℕ) (src : Bytes) → length (overwrite dst off src) ≡ length dst
unfolding overwrite
length-overwrite [] off src = refl
length-overwrite (x ∷ dst) (suc off) src = ap suc (length-overwrite dst off src)
length-overwrite (x ∷ dst) zero [] = refl
length-overwrite (x ∷ dst) zero (y ∷ src) = ap suc (length-overwrite dst zero src)

pub byte-overwrite_below :
    (dst : Bytes) (off : ℕ) (src : Bytes) (i : ℕ)
    → i < off
    → byte (overwrite dst off src) i ≡ byte dst i
unfolding overwrite
byte-overwrite_below [] off src i h = refl
byte-overwrite_below (x ∷ dst) zero src i h = absurd (omega arith)
byte-overwrite_below (x ∷ dst) (suc off) src zero h = refl
byte-overwrite_below (x ∷ dst) (suc off) src (suc i) h =
    byte-overwrite_below dst off src i (omega arith)

pub byte-overwrite_above :
    (dst : Bytes) (off : ℕ) (src : Bytes) (i : ℕ)
    → off + length src ≤ i
    → byte (overwrite dst off src) i ≡ byte dst i
unfolding overwrite
byte-overwrite_above [] off src i h = refl
byte-overwrite_above (x ∷ dst) zero [] i h = refl
byte-overwrite_above (x ∷ dst) zero (y ∷ src) zero h = absurd (omega arith)
byte-overwrite_above (x ∷ dst) zero (y ∷ src) (suc i) h =
    byte-overwrite_above dst zero src i (omega arith)
byte-overwrite_above (x ∷ dst) (suc off) src zero h = absurd (omega arith)
byte-overwrite_above (x ∷ dst) (suc off) src (suc i) h =
    byte-overwrite_above dst off src i (omega arith)

pub byte-overwrite_at :
    (dst : Bytes) (off : ℕ) (src : Bytes) (i j : ℕ)
    → i ≡ off + j
    → i < length dst
    → j < length src
    → byte (overwrite dst off src) i ≡ byte src j
unfolding overwrite
byte-overwrite_at [] off src i j e h k = absurd (omega arith)
byte-overwrite_at (x ∷ dst) zero [] i j e h k = absurd (omega arith)
byte-overwrite_at (x ∷ dst) zero (y ∷ src) zero zero e h k = refl
byte-overwrite_at (x ∷ dst) zero (y ∷ src) zero (suc j) e h k = absurd (omega arith)
byte-overwrite_at (x ∷ dst) zero (y ∷ src) (suc i) zero e h k = absurd (omega arith)
byte-overwrite_at (x ∷ dst) zero (y ∷ src) (suc i) (suc j) e h k =
    byte-overwrite_at dst zero src i j (omega arith) (omega arith) (omega arith)
byte-overwrite_at (x ∷ dst) (suc off) src zero j e h k = absurd (omega arith)
byte-overwrite_at (x ∷ dst) (suc off) src (suc i) j e h k =
    byte-overwrite_at dst off src i j (omega arith) (omega arith) k

-- A word that an `overwrite` does not touch is read as before.
pub load32-overwrite_ne :
    (b : Bytes) (off : ℕ) (src : Bytes) (i : ℕ)
    → (i + 4 ≤ off) ⊎ (off + length src ≤ i)
    → load32 (overwrite b off src) i ≡ load32 b i
unfolding load32
load32-overwrite_ne b off src i (inl h) = omega (
  arith,
  byte-overwrite_below b off src i (omega arith),
  byte-overwrite_below b off src (i + 1) (omega arith),
  byte-overwrite_below b off src (i + 2) (omega arith),
  byte-overwrite_below b off src (i + 3) (omega arith),
)
load32-overwrite_ne b off src i (inr h) = omega (
  arith,
  byte-overwrite_above b off src i (omega arith),
  byte-overwrite_above b off src (i + 1) (omega arith),
  byte-overwrite_above b off src (i + 2) (omega arith),
  byte-overwrite_above b off src (i + 3) (omega arith),
)

-- A word inside what an `overwrite` wrote is read from the source.
pub load32-overwrite_at :
    (b : Bytes) (off : ℕ) (src : Bytes) (i j : ℕ)
    → i ≡ off + j
    → i + 4 ≤ length b
    → j + 4 ≤ length src
    → load32 (overwrite b off src) i ≡ load32 src j
unfolding load32
load32-overwrite_at b off src i j e h k = omega (
  arith,
  byte-overwrite_at b off src i j e (omega arith) (omega arith),
  byte-overwrite_at b off src (i + 1) (j + 1) (omega arith) (omega arith) (omega arith),
  byte-overwrite_at b off src (i + 2) (j + 2) (omega arith) (omega arith) (omega arith),
  byte-overwrite_at b off src (i + 3) (j + 3) (omega arith) (omega arith) (omega arith),
)

pub load32-word32 : (v : ℕ) → load32 (word32 v) 0 ≡ v % 2 ^ 32
unfolding load32
load32-word32 v = omega arith

pub load32-store32 :
    (b : Bytes) (off v : ℕ) → off + 4 ≤ length b → load32 (store32 b off v) off ≡ v % 2 ^ 32
unfolding store32
load32-store32 b off v h =
    load32-overwrite_at b off (word32 v) off 0 (omega arith) h (omega arith) ∙ load32-word32 v

pub load32-store32_ne :
    (b : Bytes) (off v i : ℕ)
    → (i + 4 ≤ off) ⊎ (off + 4 ≤ i)
    → load32 (store32 b off v) i ≡ load32 b i
unfolding store32
load32-store32_ne b off v i h = load32-overwrite_ne b off (word32 v) i h

pub length-store32 : (b : Bytes) (off v : ℕ) → length (store32 b off v) ≡ length b
unfolding store32
length-store32 b off v = length-overwrite b off (word32 v)

-- memcpy is defined exactly when both accesses are inside their blocks.
pub memcpy_ok :
    (dst : Bytes) (off : ℕ) (src : Bytes) (n : ℕ)
    → off + n ≤ length dst
    → n ≤ length src
    → memcpy dst off src n ≡ some (overwrite dst off (take n src))
unfolding memcpy
memcpy_ok dst off src n h k = ground arith

pub memcpy_out_of_bounds :
    (dst : Bytes) (off : ℕ) (src : Bytes) (n : ℕ)
    → (length dst < off + n) ⊎ (length src < n)
    → memcpy dst off src n ≡ none
unfolding memcpy
memcpy_out_of_bounds dst off src n h = ground arith

pub memset_ok :
    (dst : Bytes) (n : ℕ) → n ≤ length dst → memset dst n ≡ some (overwrite dst 0 (replicate n 0))
unfolding memset
memset_ok dst n h = ground arith

-- What stands before and after the bytes that an `overwrite` wrote.
pub take-overwrite :
    (dst : Bytes) (n : ℕ) (src : Bytes)
    → n ≤ length src
    → n ≤ length dst
    → take n (overwrite dst 0 src) ≡ take n src
unfolding overwrite
take-overwrite dst zero src h k = refl
take-overwrite [] (suc n) src h k = absurd (omega arith)
take-overwrite (x ∷ dst) (suc n) [] h k = absurd (omega arith)
take-overwrite (x ∷ dst) (suc n) (y ∷ src) h k =
    ap (λ t. y ∷ t) (take-overwrite dst n src (omega arith) (omega arith))

pub overwrite-split :
    (dst : Bytes) (off : ℕ) (src : Bytes) (k : ℕ)
    → k ≡ off + length src
    → k ≤ length dst
    → overwrite dst off src ≡ take off dst ++ (src ++ drop k dst)
unfolding overwrite
overwrite-split [] zero [] zero e h = refl
overwrite-split [] zero (y ∷ src) zero e h = absurd (omega arith)
overwrite-split [] (suc off) src zero e h = absurd (omega arith)
overwrite-split [] off src (suc k) e h = absurd (omega arith)
overwrite-split (x ∷ dst) zero [] zero e h = refl
overwrite-split (x ∷ dst) zero [] (suc k) e h = absurd (omega arith)
overwrite-split (x ∷ dst) zero (y ∷ src) zero e h = absurd (omega arith)
overwrite-split (x ∷ dst) zero (y ∷ src) (suc k) e h =
    ap (λ t. y ∷ t) (overwrite-split dst zero src k (omega arith) (omega arith))
overwrite-split (x ∷ dst) (suc off) src zero e h = absurd (omega arith)
overwrite-split (x ∷ dst) (suc off) src (suc k) e h =
    ap (λ t. x ∷ t) (overwrite-split dst off src k (omega arith) (omega arith))
