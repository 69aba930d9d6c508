-- ===== src/WriteTest.antt =====
-- kpaxos/write_test_device_operations.c: the device through which values are sent to the storage. Its
-- state is its own, with that of the write persistence device, which it calls.
pub mod Send
mod Tests
use kernel_paxos_persistence.WritePersistence.{write_persistence_add_message}
use kernel_paxos_persistence.ReadTest.{n_threads}
use kernel_paxos_persistence.Memory.{Bytes}
use kernel_paxos_persistence.WorkersPool.{WorkersPool, create_pool}
use kernel_paxos_persistence.World.{Outcomes, World}
use kernel_paxos_persistence.Prelude.{
  Option, ℤ, ℕ, pos, if◌then◌else◌, ◌==◌, ◌∷◌, negsuc, some, is_positive, ◌>>=◌, to_ssize, [],
}
use kernel_paxos_persistence.Kernel.{Kernel}
use kernel_paxos_persistence.Device.{Device, FileOperations, poll_wait, ebusy, pollin}

pub record WriteTest : Type 0 where
  pub device : Device
  pub pool : Option WorkersPool
  pub persistence : Device
  pub world : World

module _ (K : Kernel) (succeeds : Outcomes) where
  unfoldable pub write_test_open : WriteTest → ℤ × WriteTest
  write_test_open s =
      let (taken, m) = K.mutex_trylock s.device.char_mutex in
      let s' = record s { device = record s.device { char_mutex = m } } in
      if taken == 0 then (negsuc ebusy, s') else (pos 0, s')

  unfoldable pub write_test_read : WriteTest → Bytes → ℕ → Option (ℤ × Bytes × WriteTest)
  write_test_read s buffer len =
      if s.device.working == 0 then some (negsuc 0, buffer, s) else some (to_ssize len, buffer, s)

  -- The length is returned also where the message was dropped.
  unfoldable pub write_test_write : WriteTest → Bytes → ℕ → Option (ℤ × WriteTest)
  write_test_write s buffer len =
      if s.device.working == 0
      then some (negsuc 0, s)
      else (write_persistence_add_message K s.persistence buffer len >>= λ (callback, d).
          some (to_ssize len, record s { persistence = d }))

  unfoldable pub write_test_poll : WriteTest → ℕ × WriteTest
  write_test_poll s =
      let s' = record s {
        device = record s.device { access_wait = poll_wait ∷ s.device.access_wait };
      } in
      if is_positive s.device.used_buf then (pollin, s') else (0, s')

  unfoldable pub write_test_release : WriteTest → ℤ × WriteTest
  write_test_release s = (
    pos 0,
    record s {
      device = record s.device { char_mutex = K.mutex_unlock s.device.char_mutex; used_buf = 1 };
    },
  )

  unfoldable pub write_test_fops : FileOperations WriteTest
  write_test_fops = record {
    on_open = write_test_open;
    on_read = write_test_read;
    on_write = write_test_write;
    on_poll = write_test_poll;
    on_release = write_test_release;
  }

  unfoldable pub create_write_test_device :
      WriteTest → Option (WriteTest × FileOperations WriteTest)
  unfolding write_test_fops
  create_write_test_device s = create_pool succeeds s.world n_threads >>= λ (pool, w). some (
    record s { device = record s.device { msg_buf = [] }; pool = pool; world = w },
    write_test_fops,
  )
