-- ===== src/Sample/Process.antt =====
-- What the tests assume of the storage process: copies and memory that do not fail.
use kernel_paxos_persistence.Sample.Storage.{table, table_laws, heap, heap-IsMalloc, heap-IsPlenty}
use kernel_paxos_persistence.Prelude.{arith, refl}
use kernel_paxos_persistence.Sample.{plain}
use kernel_paxos_persistence.System.Turn.{IsServed}
use kernel_paxos_persistence.WritePersistence.Run.{IsReliable}
use kernel_paxos_persistence.ReadPersistence.Answer.{IsReadable}

pub plain-IsReadable : IsReadable plain
plain-IsReadable to from off n h = ground arith

pub plain-IsReliable : IsReliable plain
plain-IsReliable to off from n h = ground arith

pub table-IsServed : IsServed plain table table_laws heap
table-IsServed = record {
  reliable = plain-IsReliable;
  reads = plain-IsReadable;
  sized = heap-IsMalloc;
  plenty = heap-IsPlenty;
  begins = λ db. refl;
}
