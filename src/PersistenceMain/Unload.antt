-- ===== src/PersistenceMain/Unload.antt =====
-- paxos_persistence_exit.
use kernel_paxos_persistence.KernelDevice.Unregister.{exit_is_undefined}
use kernel_paxos_persistence.World.Count.{count}
use kernel_paxos_persistence.KernelDevice.Exit.{DeviceBlocks}
use kernel_paxos_persistence.Prelude.{ℕ, ◌≡◌, some, none}
use kernel_paxos_persistence.Kernel.{Kernel}
use kernel_paxos_persistence.PersistenceMain.{
  paxos_persistence_exit, exit_device, PersistenceModule,
}

-- When
pub unload_is_undefined :
    (K : Kernel) (m : PersistenceModule) (blocks : ℕ → DeviceBlocks) (class major : ℕ)
    → m.write_test.char_class ≡ some class
    → m.write_test.major ≡ some major
    → count class m.registry.classes ≡ 1
    → paxos_persistence_exit K m blocks ≡ none
unfolding paxos_persistence_exit exit_device
unload_is_undefined K m blocks class major class_is major_is once = rw (
    exit_is_undefined K m.registry m.world m.write_test (blocks 0) class major class_is major_is
      once)
