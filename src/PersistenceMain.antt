-- ===== src/PersistenceMain.antt =====
-- persistence_main.c: the module's init and exit, over the four devices, the pools of the test devices,
-- the kernel's registry and the account of its allocator.
pub mod Boot
pub mod Init
pub mod EndToEnd
pub mod Unload
mod Tests
use kernel_paxos_persistence.KernelDevice.Exit.{
  DeviceBlocks, persistence_device_destroy, kdevchar_exit,
}
use kernel_paxos_persistence.ReadPersistence.{create_read_persistence_device}
use kernel_paxos_persistence.WritePersistence.{create_write_persistence_device}
use kernel_paxos_persistence.Codec.{Malloc}
use kernel_paxos_persistence.WorkersPool.{WorkersPool}
use kernel_paxos_persistence.World.{Outcomes, World}
use kernel_paxos_persistence.Prelude.{Option, ◌∷◌, [], ℕ, ◌>>=◌, some}
use kernel_paxos_persistence.Kernel.{Kernel}
use kernel_paxos_persistence.ReadTest.{ReadTest, create_read_test_device}
use kernel_paxos_persistence.WriteTest.{WriteTest, create_write_test_device}
use kernel_paxos_persistence.Memory.{Bytes}
use kernel_paxos_persistence.KernelDevice.{CharDevice, Registry, kdevchar_init}

-- The static devices and pools of the module, and the counts of the read test device.
pub record PersistenceModule : Type 0 where
  pub write_test : CharDevice
  pub read_test : CharDevice
  pub write_persistence : CharDevice
  pub read_persistence : CharDevice
  pub write_pool : Option WorkersPool
  pub read_pool : Option WorkersPool
  pub messages_received : ℕ
  pub messages_found : ℕ
  pub registry : Registry
  pub world : World

-- "write-test", "read-test", "write-persistence" and "read-persistence"
abbrev pub write_test_name : Bytes
write_test_name = 119 ∷ 114 ∷ 105 ∷ 116 ∷ 101 ∷ 45 ∷ 116 ∷ 101 ∷ 115 ∷ 116 ∷ []

abbrev pub read_test_name : Bytes
read_test_name = 114 ∷ 101 ∷ 97 ∷ 100 ∷ 45 ∷ 116 ∷ 101 ∷ 115 ∷ 116 ∷ []

abbrev pub persistence_name : Bytes
persistence_name = 45 ∷ 112 ∷ 101 ∷ 114 ∷ 115 ∷ 105 ∷ 115 ∷ 116 ∷ 101 ∷ 110 ∷ 99 ∷ 101 ∷ []

abbrev pub write_persistence_name : Bytes
write_persistence_name = 119 ∷ 114 ∷ 105 ∷ 116 ∷ 101 ∷ persistence_name

abbrev pub read_persistence_name : Bytes
read_persistence_name = 114 ∷ 101 ∷ 97 ∷ 100 ∷ persistence_name

-- What each test device sees of the module, and the module after a step of it.
abbrev pub write_view : PersistenceModule → WriteTest
write_view m = record {
  device = m.write_test.device;
  pool = m.write_pool;
  persistence = m.write_persistence.device;
  world = m.world;
}

abbrev pub read_view : PersistenceModule → ReadTest
read_view m = record {
  device = m.read_test.device;
  pool = m.read_pool;
  messages_received = m.messages_received;
  messages_found = m.messages_found;
  persistence = m.read_persistence.device;
  world = m.world;
}

abbrev pub after_write : PersistenceModule → WriteTest → PersistenceModule
after_write m s = record m {
  write_test = record m.write_test { device = s.device };
  write_pool = s.pool;
  write_persistence = record m.write_persistence { device = s.persistence };
  world = s.world;
}

abbrev pub after_read : PersistenceModule → ReadTest → PersistenceModule
after_read m s = record m {
  read_test = record m.read_test { device = s.device };
  read_pool = s.pool;
  messages_received = s.messages_received;
  messages_found = s.messages_found;
  read_persistence = record m.read_persistence { device = s.persistence };
  world = s.world;
}

-- The kernel of the module: which allocations and threads succeed, which registrations, and the
-- memory that pmalloc gives, and vmalloc for the buffers of each device.
module _ (K : Kernel) (succeeds registers : Outcomes) (pmalloc : Malloc)
    (heap : ℕ → ℕ → Malloc) where
  -- kdevchar_init of a device, whose result is not read.
  unfoldable pub init_device : Registry → ℕ → Bytes → CharDevice → Option (CharDevice × Registry)
  init_device r id name k = do
    (e, k', r') ← kdevchar_init registers pmalloc (heap id) r id name k
    some (k', r')

  unfoldable pub init_write_test : PersistenceModule → Option PersistenceModule
  init_write_test m = do
    (s, fops) ← create_write_test_device K succeeds (write_view m)
    let m' = after_write m s
    (k, r) ← init_device m'.registry 0 write_test_name m'.write_test
    some (record m' { write_test = k; registry = r })

  unfoldable pub init_read_test : PersistenceModule → Option PersistenceModule
  init_read_test m = do
    (s, fops) ← create_read_test_device K succeeds (read_view m)
    let m' = after_read m s
    (k, r) ← init_device m'.registry 1 read_test_name m'.read_test
    some (record m' { read_test = k; registry = r })

  unfoldable pub init_write_persistence : PersistenceModule → Option PersistenceModule
  init_write_persistence m = do
    let (d, fops) = create_write_persistence_device K m.write_persistence.device
    (k, r) ←
        init_device m.registry 2 write_persistence_name (record m.write_persistence { device = d })
    some (record m { write_persistence = k; registry = r })

  unfoldable pub init_read_persistence : PersistenceModule → Option PersistenceModule
  init_read_persistence m = do
    let (d, fops) = create_read_persistence_device K m.read_persistence.device
    (k, r) ←
        init_device m.registry 3 read_persistence_name (record m.read_persistence { device = d })
    some (record m { read_persistence = k; registry = r })

  -- The result is 0 whatever happened.
  unfoldable pub paxos_persistence_init : PersistenceModule → Option (ℕ × PersistenceModule)
  paxos_persistence_init m = do
    m₁ ← init_write_test m
    m₂ ← init_read_test m₁
    m₃ ← init_write_persistence m₂
    m₄ ← init_read_persistence m₃
    some (0, m₄)

-- kdevchar_exit of a device of the module, with the blocks of its buffers and names.
unfoldable pub exit_device :
    Kernel → PersistenceModule → CharDevice → DeviceBlocks → Option (CharDevice × PersistenceModule)
exit_device K m k b = do
  (k', r, w) ← kdevchar_exit K m.registry m.world k b
  some (k', record m { registry = r; world = w })

unfoldable pub destroy_pool : PersistenceModule → Option WorkersPool → Option PersistenceModule
destroy_pool m pool = do w ← persistence_device_destroy m.world pool; some (record m { world = w })

-- The blocks of the four devices, by the numbers of the devices.
unfoldable pub paxos_persistence_exit :
    Kernel → PersistenceModule → (ℕ → DeviceBlocks) → Option PersistenceModule
paxos_persistence_exit K m blocks = do
  (k₀, m₁) ← exit_device K m m.write_test (blocks 0)
  m₂ ← destroy_pool (record m₁ { write_test = k₀ }) m₁.write_pool
  (k₁, m₃) ← exit_device K m₂ m₂.read_test (blocks 1)
  m₄ ← destroy_pool (record m₃ { read_test = k₁ }) m₃.read_pool
  (k₂, m₅) ← exit_device K m₄ m₄.write_persistence (blocks 2)
  (k₃, m₆) ← exit_device K m₅ m₅.read_persistence (blocks 3)
  some (record m₆ { write_persistence = k₂; read_persistence = k₃ })
