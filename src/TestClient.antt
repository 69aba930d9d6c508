-- ===== src/TestClient.antt =====
-- testekerneldevice.c, the program that tests the devices: its reader asks for the instances 1 to 99,
-- its writer sends the instances 0 to 99. The device that a process has open is reached by its file
-- operations; what is printed, the pauses and the times are left out.
pub mod Requests
pub mod Reader
pub mod Values
pub mod Writer
pub mod Recorded
pub mod Answered
pub mod Shared
pub mod Interleaved
mod Tests
use kernel_paxos_persistence.Types.{sizeof_accepted, iid_offset, value_len_offset, value_val_offset}
use kernel_paxos_persistence.Device.{FileOperations}
use kernel_paxos_persistence.Codec.{Malloc, Accepted, size_of_value, accepted_size}
use kernel_paxos_persistence.Memory.{Bytes, memset, memcpy, store32, overwrite}
use kernel_paxos_persistence.Prelude.{
  ℕ, replicate, Option, ℤ, some, pos, ◌++◌, ◌-◌, ◌>>=◌, suc, negsuc, ◌+◌, none, ◌∷◌, zero, [],
  length, if◌then◌else◌, ltb,
}

-- totalMessages, MSG_LEN, and the 63 characters of CLIENT_MSG without their end
abbrev pub total_messages : ℕ
total_messages = 100

abbrev pub msg_len : ℕ
msg_len = 64

abbrev pub client_msg : Bytes
client_msg =
    replicate 8 42
    ++ (replicate 8 67
        ++ (replicate 8 76
            ++ (replicate 8 73
                ++ (replicate 8 69 ++ (replicate 8 78 ++ (replicate 8 84 ++ replicate 7 42))))))

-- The copy of the structure and of its value in a block of their size.
unfoldable pub fill : Bytes → Accepted → Option Bytes
fill block acc = do
  buffer ← memcpy block 0 acc.image sizeof_accepted
  if ltb 0 (size_of_value acc)
      then (acc.value_val >>= λ value. memcpy buffer sizeof_accepted value (size_of_value acc))
      else some buffer

-- `some none` is NULL.
unfoldable pub paxos_accepted_to_buffer : Malloc → Accepted → Option (Option Bytes)
unfolding fill
paxos_accepted_to_buffer malloc acc = elim (malloc (accepted_size acc)) [
  | none ↦ some none
  | some block ↦ do buffer ← fill block.bytes acc; some (some buffer)
]

-- The structure of readProcess: cleared, with the instance. memset of NULL is undefined.
unfoldable pub new_request : Malloc → ℕ → Option Accepted
new_request malloc i = do
  block ← malloc sizeof_accepted
  zeroed ← memset block.bytes sizeof_accepted
  some (record { image = store32 zeroed iid_offset i; value_val = none })

-- The structure of writeProcess: what is not assigned is what malloc left there.
unfoldable pub new_value : Malloc → ℕ → Option Accepted
new_value malloc i = do
  block ← malloc sizeof_accepted
  value ← malloc msg_len
  filled ← memcpy value.bytes 0 (client_msg ++ (0 ∷ [])) (length client_msg + 1)
  some (record {
    image =
        overwrite (store32 (store32 block.bytes iid_offset i) value_len_offset msg_len)
          value_val_offset value.address;
    value_val = some filled;
  })

module _ {S : Type 0} (fops : FileOperations S) (malloc : Malloc) where
  -- The buffer is printed as a string, which NULL is not, and written.
  unfoldable pub write_accepted : S → Accepted → Option (ℤ × S)
  write_accepted s acc = do
    copied ← paxos_accepted_to_buffer malloc acc
    string_to_send ← copied
    fops.on_write s string_to_send (accepted_size acc)

  -- The loop of either process, from the instance `i` on, `k` to go. A write that fails ends it.
  unfoldable pub write_all : (ℕ → Option Accepted) → S → ℕ → ℕ → Option S
  write_all new_message s i zero = some s
  write_all new_message s i (suc k) = do
    accepted ← new_message i
    (ret, s') ← write_accepted s accepted
    let rest = write_all new_message s' (i + 1) k
    elim ret [ pos n ↦ rest | negsuc n ↦ some s' ]

  -- open() of the device, the loop, and close(). A device that cannot be opened is left alone.
  unfoldable pub while_open : (S → Option S) → S → Option S
  while_open body s =
      let (fd, opened) = fops.on_open s in
      elim fd [ pos n ↦ do s' ← body opened; some (fops.on_release s').1 | negsuc n ↦ some opened ]

  unfoldable pub read_process : S → Option S
  read_process = while_open λ s. write_all (new_request malloc) s 1 (total_messages - 1)

  unfoldable pub write_process : S → Option S
  write_process = while_open λ s. write_all (new_value malloc) s 0 total_messages
