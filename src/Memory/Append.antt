-- ===== src/Memory/Append.antt =====
-- Words of a block that is put together from two.
use kernel_paxos_persistence.Prelude.{
  ℕ, ◌<◌, ◌≡◌, ◌+◌, length, ◌≤◌, ◌++◌, arith, ap, ◌∷◌, suc, [], zero, refl,
}
use kernel_paxos_persistence.Memory.{Bytes, load32, byte}

byte-append_left :
    (front rest : Bytes) (i : ℕ) → i < length front → byte (front ++ rest) i ≡ byte front i
byte-append_left [] rest i h = absurd (omega arith)
byte-append_left (x ∷ front) rest zero h = refl
byte-append_left (x ∷ front) rest (suc i) h = byte-append_left front rest i (omega arith)

byte-append_right :
    (front rest : Bytes) (i j : ℕ) → j ≡ length front + i → byte (front ++ rest) j ≡ byte rest i
byte-append_right [] rest i j h = ap (byte rest) (omega arith)
byte-append_right (x ∷ front) rest i zero h = absurd (omega arith)
byte-append_right (x ∷ front) rest i (suc j) h = byte-append_right front rest i j (omega arith)

pub load32-append_left :
    (front rest : Bytes) (i : ℕ) → i + 4 ≤ length front → load32 (front ++ rest) i ≡ load32 front i
unfolding load32
load32-append_left front rest i h = omega (
  arith,
  byte-append_left front rest i (omega arith),
  byte-append_left front rest (i + 1) (omega arith),
  byte-append_left front rest (i + 2) (omega arith),
  byte-append_left front rest (i + 3) (omega arith),
)

pub load32-append_right :
    (front rest : Bytes) (i j : ℕ) → j ≡ length front + i → load32 (front ++ rest) j ≡ load32 rest i
unfolding load32
load32-append_right front rest i j h = omega (
  arith,
  byte-append_right front rest i j h,
  byte-append_right front rest (i + 1) (j + 1) (omega arith),
  byte-append_right front rest (i + 2) (j + 2) (omega arith),
  byte-append_right front rest (i + 3) (j + 3) (omega arith),
)
