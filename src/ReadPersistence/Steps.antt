-- ===== src/ReadPersistence/Steps.antt =====
-- The calls of the read device, by the kernel and by the storage process, as a step relation.
use kernel_paxos_persistence.Types.{slot_size}
use kernel_paxos_persistence.Prelude.{◌≡◌, ℕ, Option, ◌≤◌, length, some, ℤ, ◌≢◌}
use kernel_paxos_persistence.ReadPersistence.{
  read_persistence_open, read_persistence_poll, read_persistence_release, Device, Bytes,
  read_persistence_add_message, read_persistence_read, read_persistence_write,
}
use kernel_paxos_persistence.Kernel.{Kernel}

-- A call of the device. Requests fit into a slot, and an answer comes only while a request is queued;
-- what the answer says, and whether its copies succeed, is left open.
pub data Step (K : Kernel) (d e : Device) : Type 0 where
  opened : e ≡ (read_persistence_open K d).1 → Step K d e
  requested_step :
      (msg : Bytes) (size : ℕ) (r : Option ℕ)
      → size ≤ slot_size
      → size ≤ length msg
      → read_persistence_add_message K d msg size ≡ some (r, e)
      → Step K d e
  peeked :
      (buffer : Bytes) (len : ℕ) (r : ℤ) (buffer' : Bytes)
      → read_persistence_read K d buffer len ≡ some (r, buffer', e)
      → Step K d e
  polled : e ≡ (read_persistence_poll K d).1 → Step K d e
  answered_step :
      (buffer : Bytes) (len : ℕ) (r : ℤ)
      → d.used_buf ≢ 0
      → read_persistence_write K d buffer len ≡ some (r, e)
      → Step K d e
  released : e ≡ (read_persistence_release K d).1 → Step K d e

pub data Reach (K : Kernel) (d : Device) : Device → Type 0 where
  here : Reach K d d
  next : {e f : Device} → Reach K d e → Step K e f → Reach K d f
