-- ===== src/PersistenceMain/Tests.antt =====
-- The module, loaded where nothing is registered yet.

use kernel_paxos_persistence.KernelDevice.Exit.{DeviceBlocks}
use kernel_paxos_persistence.TestClient.Recorded.{IsClientRecord}
use kernel_paxos_persistence.WritePersistence.{write_persistence_fops}
use kernel_paxos_persistence.Sample.Process.{plain-IsReliable}
use kernel_paxos_persistence.PersistenceMain.EndToEnd.{booted_values_are_recorded}
use kernel_paxos_persistence.PersistenceMain.Init.{persistence_init_lem}
use kernel_paxos_persistence.WriteTest.{write_test_fops}
use kernel_paxos_persistence.PersistenceMain.Boot.{IsInitialised}
use kernel_paxos_persistence.TestClient.{write_process}
use kernel_paxos_persistence.Sample.{fresh, plain}
use kernel_paxos_persistence.Sample.Storage.{
  table, heap, heap-IsMalloc, heap-IsPlenty, no_records, seven, table_laws, seven-IsAccepted,
}
use kernel_paxos_persistence.KernelDevice.Buffers.{IsHeap}
use kernel_paxos_persistence.Codec.{Malloc}
use kernel_paxos_persistence.System.{StorageThread, thread_rounds}
use kernel_paxos_persistence.World.{Outcomes}
use kernel_paxos_persistence.Prelude.{
  ℕ, Returns, [], none, if◌then◌else◌, ◌==◌, false, true, replicate, ◌≡◌, refl, arith, ◌<◌, some,
  ◌∷◌,
}
use kernel_paxos_persistence.PersistenceMain.{PersistenceModule, paxos_persistence_init, write_view}
use kernel_paxos_persistence.KernelDevice.{Registry, CharDevice}

abbrev no_registry : Registry
no_registry = record { calls = 0; majors = []; classes = []; nodes = [] }

abbrev static_device : CharDevice
static_device = record {
  de_name = [];
  clas_name = [];
  char_class = none;
  char_device = none;
  major = none;
  device = fresh;
}

abbrev unloaded : PersistenceModule
unloaded = record {
  write_test = static_device;
  read_test = static_device;
  write_persistence = static_device;
  read_persistence = static_device;
  write_pool = none;
  read_pool = none;
  messages_received = 0;
  messages_found = 0;
  registry = no_registry;
  world = record { calls = 0; live = []; running = []; queued_work = [] };
}

abbrev kernel_heap : ℕ → ℕ → Malloc
kernel_heap id i = heap

kernel_heap-IsHeap : (id : ℕ) → IsHeap (kernel_heap id)
kernel_heap-IsHeap id i = (heap-IsMalloc, heap-IsPlenty)

-- The class of the second device cannot be created.
abbrev no_class : Outcomes
no_class n = if n == 4 then false else true

persistence_init_lem_example :
    Returns
      (paxos_persistence_init plain (λ n. true) no_class heap kernel_heap unloaded)
      λ (e, m'). (e ≡ 0) × IsInitialised no_class unloaded m'
persistence_init_lem_example =
    persistence_init_lem plain (λ n. true) no_class heap kernel_heap heap-IsMalloc heap-IsPlenty
      kernel_heap-IsHeap (λ n. refl) unloaded

-- The storage process, with an empty table.
abbrev storing : StorageThread table
storing = record {
  device = fresh;
  storage = record { env = no_records; txn = none; acceptor_id = 0 };
  recv = replicate 44 0;
  accepted = seven;
}

-- The buffer of the process has room for a structure and 200 bytes.
abbrev receiving : StorageThread table
receiving = record storing { recv = replicate 240 0 }

booted_values_are_recorded_example :
    Returns
      (paxos_persistence_init plain (λ n. true) (λ n. true) heap kernel_heap unloaded)
      λ (e, m').
        Returns (write_process (write_test_fops plain (λ n. true)) heap (write_view m')) λ s'.
          Returns
            (thread_rounds
              (write_persistence_fops plain)
              table
              heap
              false
              100
              (record receiving { device = s'.persistence }))
            λ r'.
              (r'.device.used_buf ≡ 0) × ((i : ℕ) → i < 100 → IsClientRecord i (r'.storage.env i))
booted_values_are_recorded_example =
    booted_values_are_recorded plain (λ n. true) (λ n. true) heap kernel_heap heap-IsMalloc
      heap-IsPlenty kernel_heap-IsHeap (λ n. refl) (λ n. refl) heap unloaded table table_laws
      receiving heap-IsMalloc heap-IsPlenty plain-IsReliable
      (record { begins = λ db. refl; puts = λ t k b. refl; commits = λ db t. refl }) refl
      (omega arith) seven-IsAccepted.whole

-- The module with the write test device of the class 1 and the major number 0.
abbrev loaded : PersistenceModule
loaded = record unloaded {
  write_test = record static_device { major = some 0; char_class = some 1; char_device = some 2 };
  registry = record { calls = 3; majors = 0 ∷ []; classes = 1 ∷ []; nodes = (1, 0) ∷ [] };
}

abbrev no_blocks : DeviceBlocks
no_blocks = record {
  msg_buf = none;
  callback_buf = none;
  slots = [];
  de_name = none;
  clas_name = none;
}
