-- ===== src/System.antt =====
-- kpaxos/user_storage.c, generic_storage_thread with the device that it has open: poll(), read() and
-- write() of the process are the file operations of the device.
pub mod Lookup
pub mod Received
pub mod Turn
pub mod Steps
pub mod Round
pub mod Drain
pub mod Entry
pub mod Store
pub mod History
mod Tests
use kernel_paxos_persistence.ReadPersistence.{
  read_persistence_poll, read_persistence_write, read_persistence_read,
}
use kernel_paxos_persistence.UserStorage.{Written, handle_message}
use kernel_paxos_persistence.Codec.{Malloc, Accepted}
use kernel_paxos_persistence.Memory.{Bytes}
use kernel_paxos_persistence.Device.{Device, pollin, FileOperations}
use kernel_paxos_persistence.Kernel.{Kernel}
use kernel_paxos_persistence.Prelude.{
  Option, [], ℤ, ℕ, ◌>>=◌, some, pos, if◌then◌else◌, true, suc, ◌==◌, none, negsuc, zero, Bool,
}
use kernel_paxos_persistence.Lmdb.{Lmdb, LmdbStorage}

-- The device, and what the thread keeps: the storage, `recv` and `accepted`.
pub record StorageThread (M : Lmdb) : Type 0 where
  pub device : Device
  pub storage : LmdbStorage M
  pub recv : Bytes
  pub accepted : Accepted

-- NULL is a buffer of no bytes.
abbrev pub buffer_of : Option Bytes → Bytes
buffer_of none = []
buffer_of (some b) = b

-- The file operations of the device that is open, and which of the two threads it is.
module _ (fops : FileOperations Device) (M : Lmdb) (malloc : Malloc) (is_read : Bool) where
  -- write(fd, msg, ...) of process_read_message; its result is not read.
  unfoldable pub send_written : Device → Option Written → Option Device
  send_written d none = some d
  send_written d (some w) = fops.on_write d (buffer_of w.buffer) w.count >>= λ (r, d'). some d'

  unfoldable pub handle_received : StorageThread M → Option (StorageThread M)
  handle_received r = do
    (w, db, decoded) ← handle_message M malloc r.storage is_read r.recv r.accepted
    d ← send_written r.device w
    some (record r { device = d; storage = record r.storage { env = db }; accepted = decoded })

  -- `if (len)`
  unfoldable pub handle_read : StorageThread M → ℤ → Option (StorageThread M)
  handle_read r (pos zero) = some r
  handle_read r (pos (suc n)) = handle_received r
  handle_read r (negsuc n) = handle_received r

  -- One turn of the loop.
  unfoldable pub thread_round : StorageThread M → Option (StorageThread M)
  thread_round r =
      let (mask, d₁) = fops.on_poll r.device in
      if mask == pollin
      then (do
        (len, recv, d₂) ← fops.on_read d₁ r.recv 0
        handle_read (record r { device = d₂; recv = recv }) len)
      else some (record r { device = d₁ })

  -- The loop, for a number of turns.
  unfoldable pub thread_rounds : ℕ → StorageThread M → Option (StorageThread M)
  thread_rounds zero r = some r
  thread_rounds (suc n) r = do r' ← thread_round r; thread_rounds n r'
