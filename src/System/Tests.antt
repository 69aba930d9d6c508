-- ===== src/System/Tests.antt =====
-- The thread of the read device with one request for instance 7, at a table that has its record.
use kernel_paxos_persistence.System.History.{IsPersisted, persist_lem}
use kernel_paxos_persistence.WritePersistence.{write_persistence_fops}
use kernel_paxos_persistence.Sample.Process.{plain-IsReliable}
use kernel_paxos_persistence.Types.{iid_offset}
use kernel_paxos_persistence.Sample.{fresh, plain, zero_slot, fresh-IsRing}
use kernel_paxos_persistence.Prelude.{
  Returns, if◌then◌else◌, arith, ◌==◌, some, refl, ◌++◌, none, replicate, ◌∷◌, false,
}
use kernel_paxos_persistence.Sample.Storage.{
  Table, table, table_laws, heap, seven, seven-IsAccepted, three_bytes, no_records, heap-IsMalloc,
  heap-IsPlenty,
}
use kernel_paxos_persistence.System.{StorageThread, thread_rounds}
use kernel_paxos_persistence.Ring.{IsRing}
use kernel_paxos_persistence.Memory.{Bytes, overwrite, word32, load32}
use kernel_paxos_persistence.Device.{Device}

abbrev request : Bytes
request = overwrite zero_slot iid_offset (word32 7)

-- A device in whose slot 0 a request for instance 7 waits.
abbrev asked : Device
asked = record fresh { used_buf = 1; current_buf = 1; msg_buf = request ∷ replicate 999 zero_slot }

asked-IsRing : IsRing asked
unfolding overwrite
asked-IsRing = record {
  slots = refl;
  slot_sizes = (refl, fresh-IsRing.slot_sizes.1);
  callbacks = fresh-IsRing.callbacks;
  responses = fresh-IsRing.responses;
  first_in = omega arith;
  used_in = omega arith;
  current_at = omega arith;
}

-- The record of instance 7 only.
abbrev with_seven : Table
with_seven i = if i == 7 then some (seven.image ++ three_bytes) else none

-- The thread at the head of its loop.
abbrev waiting : StorageThread table
waiting = record {
  device = asked;
  storage = record { env = with_seven; txn = none; acceptor_id = 0 };
  recv = replicate 44 0;
  accepted = seven;
}

-- A write device in whose slot 0 the same waits, as a value of no bytes.
abbrev storing : StorageThread table
storing = record {
  device = asked;
  storage = record { env = no_records; txn = none; acceptor_id = 0 };
  recv = replicate 240 0;
  accepted = seven;
}

persist_lem_example :
    Returns
      (thread_rounds (write_persistence_fops plain) table heap false 1 storing)
      (IsPersisted table table_laws 240 storing)
unfolding load32 overwrite
persist_lem_example =
    persist_lem plain table table_laws heap plain-IsReliable
      (record { begins = λ db. refl; puts = λ t k b. refl; commits = λ db t. refl }) heap-IsMalloc
      heap-IsPlenty 240 1 storing refl
      (record {
        ring = asked-IsRing;
        works = omega arith;
        entries = (record { fits = omega arith; received = omega arith }, tt);
        no_txn = refl;
        size = refl;
        whole = seven-IsAccepted.whole;
      })
