-- ===== src/ReadTest/Tests.antt =====
-- The read test device at concrete states.
use kernel_paxos_persistence.Sample.Process.{plain-IsReadable}
use kernel_paxos_persistence.WorkersPool.RoundRobin.{entry}
use kernel_paxos_persistence.ReadPersistence.Save.{requested}
use kernel_paxos_persistence.ReadTest.Request.{request_is_dropped, request_is_queued}
use kernel_paxos_persistence.ReadTest.Wait.{answer_then_wait}
use kernel_paxos_persistence.ReadPersistence.{read_persistence_write}
use kernel_paxos_persistence.Types.{sizeof_accepted, iid_offset, accepted_iid}
use kernel_paxos_persistence.Sample.{fresh, plain, fresh-IsRing, zero_callback, zero_slot}
use kernel_paxos_persistence.Prelude.{
  ◌∷◌, replicate, ◌≡◌, Returns, [], some, arith, true, to_ssize, refl,
}
use kernel_paxos_persistence.ReadPersistence.Answer.{IsAnswer}
use kernel_paxos_persistence.Memory.{Bytes, load32, overwrite, word32}
use kernel_paxos_persistence.Ring.{IsRing, queued}
use kernel_paxos_persistence.ReadTest.{ReadTest, wait_response, read_test_write}
use kernel_paxos_persistence.WorkersPool.{WorkersPool, array, block, uninit_array}
use kernel_paxos_persistence.World.{World, Work, vfree, remove}

abbrev one_block : World
one_block = record { calls = 1; live = 0 ∷ []; running = []; queued_work = [] }

abbrev one_worker : WorkersPool
one_worker = record {
  address = 0;
  worker = array 1 (block 10 ∷ []);
  worker_thread = uninit_array;
  current_worker = 0;
  num_workers = 1;
}

abbrev ready : ReadTest
ready = record {
  device = fresh;
  pool = some one_worker;
  messages_received = 0;
  messages_found = 0;
  persistence = fresh;
  world = one_block;
}

-- The ring of requests is full.
abbrev crowded : ReadTest
crowded = record ready { persistence = record fresh { used_buf = 1000 } }

crowded-IsRing : IsRing crowded.persistence
crowded-IsRing = record {
  slots = fresh-IsRing.slots;
  slot_sizes = fresh-IsRing.slot_sizes;
  callbacks = fresh-IsRing.callbacks;
  responses = fresh-IsRing.responses;
  first_in = omega arith;
  used_in = omega arith;
  current_at = omega arith;
}

-- A request waits in slot 0, and a work for it.
abbrev asked : ReadTest
asked = record ready { persistence = record fresh { used_buf = 1; current_buf = 1 } }

asked-IsRing : IsRing asked.persistence
asked-IsRing = record {
  slots = fresh-IsRing.slots;
  slot_sizes = fresh-IsRing.slot_sizes;
  callbacks = fresh-IsRing.callbacks;
  responses = fresh-IsRing.responses;
  first_in = omega arith;
  used_in = omega arith;
  current_at = omega arith;
}

abbrev work_of_seven : Work
work_of_seven = record { address = 0; param = 0; iid = 7 }

abbrev request : Bytes
request = overwrite (replicate sizeof_accepted 0) iid_offset (word32 7)

abbrev answer_bytes : Bytes
answer_bytes = overwrite (overwrite (replicate 47 0) 8 (word32 7)) 28 (3 ∷ 0 ∷ 0 ∷ 0 ∷ [])

answer_bytes-IsAnswer : IsAnswer answer_bytes
unfolding load32 overwrite
answer_bytes-IsAnswer = record {
  names_slot = omega arith;
  value_fits = omega arith;
  complete = omega arith;
}

freed : vfree one_block 0 ≡ some (record one_block { live = [] })
unfolding vfree remove
freed = refl

answer_then_wait_example :
    Returns (read_persistence_write plain asked.persistence answer_bytes 47) λ (r, d).
      Returns
        (wait_response (λ s. s) (record asked { persistence = d }) work_of_seven)
        λ s'. (s'.messages_found ≡ 1) × (s'.world ≡ record one_block { live = [] })
unfolding load32 overwrite
answer_then_wait_example =
    answer_then_wait plain plain-IsReadable asked work_of_seven zero_callback
      (record one_block { live = [] }) answer_bytes 47 (λ s. s) asked-IsRing (omega arith)
      (omega arith) answer_bytes-IsAnswer refl refl refl refl (omega arith) freed

request_is_queued_example : Returns (read_test_write plain (λ n. true) ready request 40) λ (r, s').
    (r ≡ to_ssize 40)
    × IsRing s'.persistence
    × (queued s'.persistence ≡ requested zero_slot request 40 ∷ [])
    × (s'.messages_received ≡ 1)
    × (s'.world.queued_work ≡ entry 10 1 0 (accepted_iid (requested zero_slot request 40)) [])
unfolding overwrite
request_is_queued_example =
    request_is_queued plain (λ n. true) ready request 40 fresh-IsRing (omega arith) one_worker 1 10
      (block 10 ∷ []) refl refl refl refl (omega arith) (omega arith) (omega arith)

request_is_dropped_example :
    read_test_write plain (λ n. true) crowded request 40 ≡ some (to_ssize 40, crowded)
request_is_dropped_example =
    request_is_dropped plain (λ n. true) crowded request 40 crowded-IsRing (omega arith) refl
