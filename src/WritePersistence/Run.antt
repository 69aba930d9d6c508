-- ===== src/WritePersistence/Run.antt =====
-- Requests to the write device, of its callers, who add messages, and of the storage process, which
-- polls and reads.
use kernel_paxos_persistence.WritePersistence.Add.{is_some}
use kernel_paxos_persistence.Ring.{IsRing, queued}
use kernel_paxos_persistence.WritePersistence.Save.{stored}
use kernel_paxos_persistence.Device.{Device, pollin}
use kernel_paxos_persistence.WritePersistence.{
  truncated, sizeof_int, slot_size, message_size, write_persistence_add_message,
  write_persistence_poll, write_persistence_read,
}
use kernel_paxos_persistence.Kernel.{Kernel}
use kernel_paxos_persistence.Prelude.{
  Bool, ℤ, ℕ, replicate, pos, Option, List, ◌≤◌, take, some, ◌∷◌, length, ◌+◌, ◌≢◌, drop, All, ◌≡◌,
  [], negsuc, ◌>>=◌, if◌then◌else◌, ◌==◌,
}
use kernel_paxos_persistence.Memory.{Bytes}
use kernel_paxos_persistence.Queue.{Queue}
use kernel_paxos_persistence.Queue

pub data Request : Type 0 where
  add : Bytes → ℕ → Request
  poll_and_read : Request

pub data Reply : Type 0 where
  added : Bool → Reply
  idle : Reply
  message : Bytes → Reply

-- The storage process's buffer, long enough for every message.
abbrev pub reader_buffer : Bytes
reader_buffer = replicate (sizeof_int + slot_size) 0

-- What the reader takes from its buffer: as many bytes behind the slot's number as the read returned.
abbrev pub received : ℤ → Bytes → Reply
received (pos n) buffer = message (take n (drop sizeof_int buffer))
received (negsuc n) buffer = idle

-- A read only after a poll that says POLLIN.
unfoldable pub serve : Kernel → Device → Request → Option (Reply × Device)
serve K d (add msg size) = do
  (callback, d') ← write_persistence_add_message K d msg size
  some (added (is_some callback), d')
serve K d poll_and_read =
    let (mask, d₁) = write_persistence_poll K d in
    if mask == pollin
    then (do
      (r, buffer, d₂) ← write_persistence_read K d₁ reader_buffer 0
      some (received r buffer, d₂))
    else some (idle, d₁)

unfoldable pub run : Kernel → Device → List Request → Option (List Reply)
run K d [] = some []
run K d (q ∷ qs) = do (reply, d') ← serve K d q; replies ← run K d' qs; some (reply ∷ replies)

-- The same on the abstract queue.
unfoldable pub serve_queue : Queue → Request → Reply × Queue
serve_queue q (add msg size) =
    let (done, q') = Queue.push q (stored msg (truncated size)) in (added done, q')
serve_queue [] poll_and_read = (idle, [])
serve_queue (m ∷ q) poll_and_read = (message (take (message_size m) m), q)

unfoldable pub run_queue : Queue → List Request → List Reply
run_queue q [] = []
run_queue q (r ∷ rs) = let (reply, q') = serve_queue q r in reply ∷ run_queue q' rs

-- Copies to a buffer that is there do not fail.
abbrev pub IsReliable : Kernel → Type 0
IsReliable K =
    (to : Bytes) (off : ℕ) (from : Bytes) (n : ℕ)
    → off + n ≤ length to
    → (K.copy_to_user to off from n).0 ≡ 0

-- A caller passes a block that has as many bytes as it says, or as a slot holds.
abbrev pub IsProper : Request → Type 0
IsProper (add msg size) = truncated size ≤ length msg
IsProper poll_and_read = Unit

-- A device that works, and whose queued messages fit into a slot.
pub record IsServing (d : Device) : Type 0 where
  pub ring : IsRing d
  pub works : d.working ≢ 0
  pub fit : All (λ m. message_size m ≤ slot_size) (queued d)
