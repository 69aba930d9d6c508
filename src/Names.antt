-- ===== src/Names.antt =====
-- kpaxos/kernel_device.c, the names of a device: allocate_name and allocate_name_folder. A name is its
-- characters, without the NUL at its end.
pub mod Laws
mod Tests
use kernel_paxos_persistence.Codec.RoundTrip.{IsPlenty}
use kernel_paxos_persistence.Codec.{Malloc, IsMalloc}
use kernel_paxos_persistence.Prelude.{
  ℕ, Option, ◌∷◌, length, ◌≡◌, [], if◌then◌else◌, ◌+◌, ◌++◌, ◌>>=◌, ltb, some, arith, ◌==◌, ◌-◌,
  set, ◌%◌, refl, none, suc, true, length-append, zero,
}
use kernel_paxos_persistence.Memory.{Bytes, memcpy}

-- dest[i] = c
unfoldable pub put_char : Bytes → ℕ → ℕ → Option Bytes
put_char dest i c = if ltb i (length dest) then some (set dest i (c % 256)) else none

-- strlen of what stands in a block, and strcat behind it.
unfoldable pub strlen : Bytes → ℕ
strlen [] = 0
strlen (c ∷ cs) = if c == 0 then 0 else strlen cs + 1

unfoldable pub strcat : Bytes → Bytes → Option Bytes
strcat dest name = memcpy dest (strlen dest) (name ++ (0 ∷ [])) (length name + 1)

-- '0' and '/'
abbrev pub digit_zero : ℕ
digit_zero = 48

abbrev pub slash : ℕ
slash = 47

-- "paxos"
abbrev pub folder : Bytes
folder = 112 ∷ 97 ∷ 120 ∷ 111 ∷ 115 ∷ []

module _ (pmalloc : Malloc) where
  unfoldable pub allocate_name : Bytes → ℕ → Option Bytes
  allocate_name name id =
      let len = length name + 1 in
      do
        dest ← pmalloc (len + 1)
        d₁ ← memcpy dest.bytes 0 (name ++ (0 ∷ [])) len
        d₂ ← put_char d₁ (len - 1) (id + digit_zero)
        put_char d₂ len 0

  unfoldable pub allocate_name_folder : Bytes → ℕ → Option Bytes
  allocate_name_folder name id =
      let f_len = length folder in
      let len = length name in
      do
        dest ← pmalloc (f_len + len + 3)
        d₁ ← memcpy dest.bytes 0 folder f_len
        d₂ ← put_char d₁ f_len slash
        d₃ ← put_char d₂ (f_len + 1) 0
        d₄ ← strcat d₃ name
        d₅ ← put_char d₄ (f_len + len + 1) (id + digit_zero)
        put_char d₅ (f_len + len + 2) 0
