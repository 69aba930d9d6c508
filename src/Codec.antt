-- ===== src/Codec.antt =====
-- kpaxos/lmdb_operations.c, the conversions between a paxos_accepted and its buffer, in the storage
-- process; testekerneldevice.c has a copy of paxos_accepted_to_buffer.
pub mod RoundTrip
pub mod Transfer
mod Tests
use kernel_paxos_persistence.Types.{
  sizeof_accepted, sizeof_client_value, value_len, sizeof_int, value_val_offset,
}
use kernel_paxos_persistence.Prelude.{
  ℕ, Option, replicate, sign_extend, some, ◌≡◌, if◌then◌else◌, ◌>>=◌, none, length, ltb,
  is_positive, ◌+◌, drop, ◌%◌, u64_mod,
}
use kernel_paxos_persistence.Memory.{Bytes, memcpy, word32, overwrite}

-- A block of the process's heap, with the eight bytes of its address.
pub record Block : Type 0 where
  pub address : Bytes
  pub bytes : Bytes

-- struct paxos_accepted: the bytes of the structure, and the block that its pointer
-- `paxos_value_val` points to, if it is not NULL.
pub record Accepted : Type 0 where
  pub image : Bytes
  pub value_val : Option Bytes

-- struct client_value (kpaxos/include/kernel_client.h)
pub record ClientValue : Type 0 where
  pub buffer_id : ℕ
  pub value : Accepted

-- The bytes of NULL.
abbrev pub null_bytes : Bytes
null_bytes = replicate 8 0

-- malloc: a block, or NULL; what is in the block is not known.
abbrev pub Malloc : Type 0
Malloc = ℕ → Option Block

abbrev pub IsMalloc : Malloc → Type 0
IsMalloc malloc =
    (n : ℕ) (b : Block) → malloc n ≡ some b → (length b.bytes ≡ n) × (length b.address ≡ 8)

-- acc->value.paxos_value_len, as the `size_t` that `len` and the sums below are
abbrev pub size_of_value : Accepted → ℕ
size_of_value acc = sign_extend (value_len acc.image)

abbrev pub accepted_size : Accepted → ℕ
accepted_size acc = (sizeof_accepted + size_of_value acc) % u64_mod

-- The copy of the value behind the structure.
unfoldable pub append_value : Bytes → Accepted → Option Bytes
append_value buffer acc =
    if ltb 0 (size_of_value acc)
    then (acc.value_val >>= λ value. memcpy buffer sizeof_accepted value (size_of_value acc))
    else some buffer

unfoldable pub fill_accepted : Bytes → Accepted → Option Bytes
unfolding append_value
fill_accepted buffer acc = do b ← memcpy buffer 0 acc.image sizeof_accepted; append_value b acc

-- The value's block, once it is allocated; malloc's NULL is not tested.
unfoldable pub read_value : Malloc → Bytes → Bytes → Option Accepted
read_value malloc image buffer =
    if is_positive (value_len image)
    then (do
      block ← malloc (value_len image)
      value ← memcpy block.bytes 0 (drop sizeof_accepted buffer) (value_len image)
      some (record {
        image = overwrite image value_val_offset block.address;
        value_val = some value;
      }))
    else some (record { image = overwrite image value_val_offset null_bytes; value_val = none })

unfoldable pub buffer_to_paxos_accepted : Malloc → Bytes → Accepted → Option Accepted
unfolding read_value
buffer_to_paxos_accepted malloc buffer out = do
  image ← memcpy out.image 0 buffer sizeof_accepted
  read_value malloc image buffer

-- `some none` is the NULL that is returned when there is no memory.
unfoldable pub paxos_accepted_to_buffer : Malloc → Accepted → Option (Option Bytes)
unfolding fill_accepted
paxos_accepted_to_buffer malloc acc = elim (malloc (accepted_size acc)) [
  | none ↦ some none
  | some block ↦ fill_accepted block.bytes acc >>= λ buffer. some (some buffer)
]

-- The copy of the accepted behind the buffer's number, if there was memory for it.
unfoldable pub append_accepted : Bytes → Option Bytes → ℕ → Option (Option Bytes)
append_accepted buffer none accepted_len = some (some buffer)
append_accepted buffer (some accepted) accepted_len =
    memcpy buffer sizeof_int accepted accepted_len >>= λ b. some (some b)

unfoldable pub fill_client_value : Malloc → Bytes → ClientValue → ℕ → Option (Option Bytes)
unfolding append_accepted
fill_client_value malloc buffer client accepted_len = do
  accepted ← paxos_accepted_to_buffer malloc client.value
  b ← memcpy buffer 0 (word32 client.buffer_id) sizeof_int
  append_accepted b accepted accepted_len

unfoldable pub client_value_to_buffer : Malloc → ClientValue → Option (Option Bytes)
unfolding fill_client_value
client_value_to_buffer malloc client =
    let accepted_len = accepted_size client.value in
    elim (malloc ((sizeof_client_value + accepted_len) % u64_mod)) [
      | none ↦ some none
      | some block ↦ fill_client_value malloc block.bytes client accepted_len
    ]
