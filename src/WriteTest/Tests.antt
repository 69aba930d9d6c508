-- ===== src/WriteTest/Tests.antt =====
-- A value of 44 bytes is sent.
use kernel_paxos_persistence.WriteTest.Send.{write_is_pushed}
use kernel_paxos_persistence.WritePersistence.{truncated}
use kernel_paxos_persistence.WritePersistence.Save.{stored}
use kernel_paxos_persistence.Queue.{push}
use kernel_paxos_persistence.Ring.{IsRing, queued}
use kernel_paxos_persistence.Sample.{fresh, plain, fresh-IsRing}
use kernel_paxos_persistence.Prelude.{Returns, replicate, none, [], true, ◌≡◌, to_ssize, arith}
use kernel_paxos_persistence.WriteTest.{WriteTest, write_test_write}
use kernel_paxos_persistence.Memory.{Bytes}

abbrev value_message : Bytes
value_message = replicate 44 0

abbrev ready : WriteTest
ready = record {
  device = fresh;
  pool = none;
  persistence = fresh;
  world = record { calls = 0; live = []; running = []; queued_work = [] };
}

write_is_pushed_example :
    Returns (write_test_write plain (λ n. true) ready value_message 44) λ (r, s').
      (r ≡ to_ssize 44)
      × IsRing s'.persistence
      × (queued s'.persistence ≡ (push [] (stored value_message (truncated 44))).1)
write_is_pushed_example =
    write_is_pushed plain (λ n. true) ready value_message 44 fresh-IsRing (omega arith)
      (omega arith)
