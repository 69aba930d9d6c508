-- ===== src/Ring.antt =====
-- The ring of message slots that the two persistence devices share: `first_buf`, `current_buf`,
-- `used_buf` and `msg_buf` of struct paxos_kernel_device as a bounded queue.
pub mod Window
pub mod Step
pub mod Delivery
use kernel_paxos_persistence.Prelude.{
  ℕ, zero, suc, ◌+◌, ◌%◌, ◌≤◌, ◌<◌, ◌≡◌, List, ◌∷◌, [], Option, length, get_or, All,
}
use kernel_paxos_persistence.Memory.{Bytes}
use kernel_paxos_persistence.Types.{buffer_size, slot_size, sizeof_accepted, max_paxos_value_size}
use kernel_paxos_persistence.Device.{Response, Callback, Device}

-- The `n` messages from the slot `first` on, going round at BUFFER_SIZE.
abbrev pub window : List Bytes → ℕ → ℕ → List Bytes
window slots first zero = []
window slots first (suc n) = get_or slots first [] ∷ window slots ((first + 1) % buffer_size) n

-- The messages of a device that nobody has taken, oldest first.
abbrev pub queued : Device → List Bytes
queued d = window d.msg_buf d.first_buf d.used_buf

-- What kdevchar_init allocates: slots of `slot_size` bytes, and a callback with a response for each.
abbrev pub IsSlot : Bytes → Type 0
IsSlot slot = length slot ≡ slot_size

abbrev pub IsResponse : Response → Type 0
IsResponse r = (length r.header ≡ sizeof_accepted) × (length r.value ≡ max_paxos_value_size)

pub record IsCallback (c : Callback) : Type 0 where
  pub has_response : (r : Response) × (c.response ≡ Option.some r) × IsResponse r

-- The queue is the `used_buf` slots from `first_buf` up to `current_buf`.
pub record IsRing (d : Device) : Type 0 where
  pub slots : length d.msg_buf ≡ buffer_size
  pub slot_sizes : All IsSlot d.msg_buf
  pub callbacks : length d.callback_buf ≡ buffer_size
  pub responses : All IsCallback d.callback_buf
  pub first_in : d.first_buf < buffer_size
  pub used_in : d.used_buf ≤ buffer_size
  pub current_at : d.current_buf ≡ (d.first_buf + d.used_buf) % buffer_size
