-- ===== src/Memory/Fill.antt =====
-- memset and memcpy on whole blocks.
use kernel_paxos_persistence.Prelude.{
  ℕ, zero, suc, ◌-◌, ◌≤◌, ◌<◌, ap₂, All, All-get_or, ◌≡◌, refl, ap, ◌∙◌, List, [], ◌∷◌, ◌++◌, some,
  arith, length, take, drop, replicate, length-take, length-replicate, ◌+◌, length-append, take-all,
  take-append,
}
use mathlib.Core.List.{append-nil}
use kernel_paxos_persistence.Memory.{
  Bytes, memcpy, memset, byte, load32, overwrite, store32, word32,
}
use kernel_paxos_persistence.Memory.Laws.{overwrite-split, memcpy_ok, memset_ok}

drop_all {ℓ} : {A : Type ℓ} (n : ℕ) (xs : List A) → length xs ≤ n → drop n xs ≡ []
drop_all zero [] h = refl
drop_all zero (x ∷ xs) h = absurd (omega arith)
drop_all (suc n) [] h = refl
drop_all (suc n) (x ∷ xs) h = drop_all n xs (omega arith)

pub drop-replicate {ℓ} :
    {A : Type ℓ} (n k : ℕ) (x : A) → drop n (replicate k x) ≡ replicate (k - n) x
drop-replicate zero k x = ap (λ m. replicate m x) (omega arith)
drop-replicate (suc n) zero x = let e : 0 - suc n ≡ 0 = omega arith in rw e
drop-replicate (suc n) (suc k) x = drop-replicate n k x ∙ ap (λ m. replicate m x) (omega arith)

-- Writing a whole block leaves the source.
pub overwrite_all : (b src : Bytes) → length b ≡ length src → overwrite b 0 src ≡ src
overwrite_all b src h =
    overwrite-split b 0 src (length src) (omega arith) (omega arith)
    ∙ ap (λ t. src ++ t) (drop_all (length src) b (omega arith))
    ∙ append-nil src

-- memset of a whole block.
pub memset_all : (b : Bytes) (n : ℕ) → length b ≡ n → memset b n ≡ some (replicate n 0)
memset_all b n h =
    memset_ok b n (omega arith)
    ∙ ap some (overwrite_all b (replicate n 0) (omega (arith, length-replicate {A = ℕ} n 0)))

-- memcpy to the start of a block.
pub memcpy_front :
    (dst src : Bytes) (n : ℕ)
    → n ≤ length dst
    → n ≤ length src
    → memcpy dst 0 src n ≡ some (take n src ++ drop n dst)
memcpy_front dst src n h k =
    memcpy_ok dst 0 src n (omega arith) k
    ∙ ap some (overwrite-split dst 0 (take n src) n (omega (arith, length-take n src)) h)

byte-front :
    (src rest : Bytes) (n i : ℕ) → n ≤ length src → i < n → byte (take n src ++ rest) i ≡ byte src i
byte-front src rest zero i h k = absurd (omega arith)
byte-front [] rest (suc n) i h k = absurd (omega arith)
byte-front (x ∷ src) rest (suc n) zero h k = refl
byte-front (x ∷ src) rest (suc n) (suc i) h k = byte-front src rest n i (omega arith) (omega arith)

-- A word among the bytes that were copied.
pub load32-front :
    (src rest : Bytes) (n i : ℕ)
    → n ≤ length src
    → i + 4 ≤ n
    → load32 (take n src ++ rest) i ≡ load32 src i
unfolding load32
load32-front src rest n i h k = omega (
  arith,
  byte-front src rest n i h (omega arith),
  byte-front src rest n (i + 1) h (omega arith),
  byte-front src rest n (i + 2) h (omega arith),
  byte-front src rest n (i + 3) h (omega arith),
)

-- Writing what is there changes nothing.
overwrite_self :
    (b : Bytes) (off : ℕ) (src : Bytes)
    → ((i j : ℕ) → i ≡ off + j → j < length src → byte src j ≡ byte b i)
    → overwrite b off src ≡ b
unfolding overwrite
overwrite_self [] off src h = refl
overwrite_self (x ∷ b) (suc off) src h =
    ap (λ t. x ∷ t) (overwrite_self b off src (λ i j e k. h (suc i) j (omega arith) k))
overwrite_self (x ∷ b) zero [] h = refl
overwrite_self (x ∷ b) zero (y ∷ src) h =
    ap₂ ◌∷◌ (h 0 0 (omega arith) (omega arith))
      (overwrite_self b zero src (λ i j e k. h (suc i) (suc j) (omega arith) (omega arith)))

pub IsByte : ℕ → Type 0
IsByte x = x < 256

word32-load32 :
    (b : Bytes) (off i j : ℕ)
    → All IsByte b
    → i ≡ off + j
    → j < 4
    → byte (word32 (load32 b off)) j ≡ byte b i
unfolding load32 IsByte
word32-load32 b off i zero all e h =
    omega (arith, bound off, bound (off + 1), bound (off + 2), bound (off + 3), ap (byte b) same)
  where
    same : i ≡ off
    same = omega arith

    bound : (k : ℕ) → byte b k < 256
    bound k = All-get_or IsByte b k 0 all (omega arith)
word32-load32 b off i (suc zero) all e h =
    omega (arith, bound off, bound (off + 1), bound (off + 2), bound (off + 3), ap (byte b) e)
  where
    bound : (k : ℕ) → byte b k < 256
    bound k = All-get_or IsByte b k 0 all (omega arith)
word32-load32 b off i (suc (suc zero)) all e h =
    omega (arith, bound off, bound (off + 1), bound (off + 2), bound (off + 3), ap (byte b) e)
  where
    bound : (k : ℕ) → byte b k < 256
    bound k = All-get_or IsByte b k 0 all (omega arith)
word32-load32 b off i (suc (suc (suc zero))) all e h =
    omega (arith, bound off, bound (off + 1), bound (off + 2), bound (off + 3), ap (byte b) e)
  where
    bound : (k : ℕ) → byte b k < 256
    bound k = All-get_or IsByte b k 0 all (omega arith)
word32-load32 b off i (suc (suc (suc (suc j)))) all e h = absurd (omega arith)

pub store32-load32 : (b : Bytes) (off : ℕ) → All IsByte b → store32 b off (load32 b off) ≡ b
unfolding store32
store32-load32 b off all =
    overwrite_self b off (word32 (load32 b off)) (λ i j e h. word32-load32 b off i j all e h)

pub zero-IsByte : IsByte 0
unfolding IsByte
zero-IsByte = omega arith

overwrite-append :
    (front dst src : Bytes) (off : ℕ)
    → length front ≡ off
    → overwrite (front ++ dst) off src ≡ front ++ overwrite dst 0 src
unfolding overwrite
overwrite-append [] dst src zero h = refl
overwrite-append [] dst src (suc off) h = absurd (omega arith)
overwrite-append (x ∷ front) dst src zero h = absurd (omega arith)
overwrite-append (x ∷ front) dst src (suc off) h =
    ap (λ t. x ∷ t) (overwrite-append front dst src off (omega arith))

-- memcpy over the end of a block.
pub memcpy_tail :
    (front dst src : Bytes) (off n : ℕ)
    → length front ≡ off
    → length dst ≡ n
    → length src ≡ n
    → memcpy (front ++ dst) off src n ≡ some (front ++ src)
memcpy_tail front dst src off n hf hd hs =
    memcpy_ok (front ++ dst) off src n (omega (arith, length-append front dst)) (omega arith)
    ∙ ap (λ t. some (overwrite (front ++ dst) off t)) (take-all n src (omega arith))
    ∙ ap some (
        overwrite-append front dst src off hf
        ∙ ap (λ t. front ++ t) (overwrite_all dst src (omega arith)))

-- memcpy that fills a block.
pub memcpy_whole :
    (dst src rest : Bytes) (n : ℕ)
    → length dst ≡ n
    → length src ≡ n
    → memcpy dst 0 (src ++ rest) n ≡ some src
memcpy_whole dst src rest n hd hs =
    memcpy_front dst (src ++ rest) n (omega arith) (omega (arith, length-append src rest))
    ∙ ap some (ap₂ ◌++◌ (take-append n src rest hs) (drop_all n dst (omega arith)) ∙ append-nil src)

pub nil_of_length : (b : Bytes) → length b ≡ 0 → b ≡ []
nil_of_length [] h = refl
nil_of_length (x ∷ b) h = absurd (omega arith)

-- memcpy into the middle of a block.
pub memcpy_mid :
    (front dst src : Bytes) (off n : ℕ)
    → length front ≡ off
    → n ≤ length dst
    → length src ≡ n
    → memcpy (front ++ dst) off src n ≡ some (front ++ (src ++ drop n dst))
memcpy_mid front dst src off n hf hd hs =
    memcpy_ok (front ++ dst) off src n (omega (arith, length-append front dst)) (omega arith)
    ∙ ap (λ t. some (overwrite (front ++ dst) off t)) (take-all n src (omega arith))
    ∙ ap some (
        overwrite-append front dst src off hf
        ∙ ap (λ t. front ++ t) (overwrite-split dst 0 src n (omega arith) (omega arith)))
