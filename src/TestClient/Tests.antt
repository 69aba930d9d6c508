-- ===== src/TestClient/Tests.antt =====
-- The processes of the test program, on fresh devices.
use kernel_paxos_persistence.TestClient.Shared.{turn}
use kernel_paxos_persistence.TestClient.Shared.{Move, ask}
use kernel_paxos_persistence.TestClient.Reader.{read_process_lem}
use kernel_paxos_persistence.TestClient.Writer.{IsWritten, write_process_lem}
use kernel_paxos_persistence.Sample.Storage.{
  table, no_records, heap, seven, heap-IsMalloc, heap-IsPlenty,
}
use kernel_paxos_persistence.TestClient.{read_process, write_process}
use kernel_paxos_persistence.Sample.{fresh, fresh-IsRing, plain}
use kernel_paxos_persistence.System.{StorageThread}
use kernel_paxos_persistence.Prelude.{
  Returns, ◌∷◌, [], some, none, arith, true, replicate, refl, ◌≡◌, false, List,
}
use kernel_paxos_persistence.TestClient.Requests.{HasRoom, IsAsked}
use kernel_paxos_persistence.WriteTest.{WriteTest, write_test_fops}
use kernel_paxos_persistence.ReadTest.{ReadTest, read_test_fops}
use kernel_paxos_persistence.World.{World}
use kernel_paxos_persistence.WorkersPool.{WorkersPool, array, block, uninit_array}

abbrev one_worker : WorkersPool
one_worker = record {
  address = 0;
  worker = array 1 (block 10 ∷ []);
  worker_thread = uninit_array;
  current_worker = 0;
  num_workers = 1;
}

abbrev no_work : World
no_work = record { calls = 2; live = 0 ∷ 1 ∷ []; running = []; queued_work = [] }

abbrev reading : ReadTest
reading = record {
  device = fresh;
  pool = some one_worker;
  messages_received = 0;
  messages_found = 0;
  persistence = fresh;
  world = no_work;
}

abbrev writing : WriteTest
writing = record { device = fresh; pool = none; persistence = fresh; world = no_work }

reading-HasRoom : HasRoom reading 99
reading-HasRoom = record {
  ring = fresh-IsRing;
  works = omega arith;
  room = omega arith;
  pool = one_worker;
  pool_is = refl;
  workers = 10 ∷ [];
  has_workers = record { address_of = 1; array_is = refl; count_is = refl; turn_in = omega arith };
}

read_process_lem_example :
    Returns
      (read_process (read_test_fops plain (λ n. true)) heap reading)
      λ s'. IsAsked reading s' 1 99 × (s'.device.char_mutex ≡ false)
read_process_lem_example =
    read_process_lem heap heap-IsMalloc heap-IsPlenty plain (λ n. true) (λ n. refl) reading
      reading-HasRoom refl

write_process_lem_example :
    Returns
      (write_process (write_test_fops plain (λ n. true)) heap writing)
      λ s'. IsWritten writing s' 0 100 × (s'.device.char_mutex ≡ false)
write_process_lem_example =
    write_process_lem heap heap-IsMalloc heap-IsPlenty plain (λ n. true) writing
      (record { ring = fresh-IsRing; works = omega arith; space = omega arith }) refl

-- The storage process, with an empty table.
abbrev storing : StorageThread table
storing = record {
  device = fresh;
  storage = record { env = no_records; txn = none; acceptor_id = 0 };
  recv = replicate 44 0;
  accepted = seven;
}

abbrev moves : List Move
moves = ask 7 ∷ turn ∷ turn ∷ ask 9 ∷ ask 7 ∷ turn ∷ []
