-- ===== src/Ring/Delivery.antt =====
-- What a read of a persistence device copies to its reader: both devices copy the same.
use kernel_paxos_persistence.Ring.Step.{first_slot}
use kernel_paxos_persistence.Types.{sizeof_int, message_size}
use kernel_paxos_persistence.Ring.{IsRing, slot_size, IsSlot}
use kernel_paxos_persistence.Prelude.{get_or, ℕ, [], length, take, ◌≡◌, All-get_elem?}
use kernel_paxos_persistence.Memory.{Bytes, word32, overwrite}
use kernel_paxos_persistence.Kernel.{Kernel}
use kernel_paxos_persistence.Device.{Device}

-- The oldest message, and what the two copies return for it.
abbrev pub head_slot : Device → Bytes
head_slot d = get_or d.msg_buf d.first_buf []

abbrev pub id_copy : Kernel → Device → Bytes → ℕ × Bytes
id_copy K d buffer = K.copy_to_user buffer 0 (word32 d.first_buf) sizeof_int

abbrev pub message_copy : Kernel → Device → Bytes → ℕ × Bytes
message_copy K d buffer =
    K.copy_to_user (id_copy K d buffer).1 sizeof_int (head_slot d) (message_size (head_slot d))

-- What a reader finds in its buffer: the number of the slot, and the message.
unfoldable pub delivered : Bytes → ℕ → Bytes → Bytes
delivered buffer first m =
    overwrite (overwrite buffer 0 (word32 first)) sizeof_int (take (message_size m) m)

pub head_length : (d : Device) → IsRing d → length (head_slot d) ≡ slot_size
head_length d ring = All-get_elem? IsSlot d.msg_buf d.first_buf ring.slot_sizes (first_slot d ring)
