-- ===== src/UserStorage/Tests.antt =====
-- The storage process at concrete tables.
use kernel_paxos_persistence.Sample.Process.{plain-IsReadable}
use kernel_paxos_persistence.UserStorage.Loop.{Incoming, arrives, IsDecoded, thread_loop_lem}
use kernel_paxos_persistence.UserStorage.History.{IsWorking, Sent, last_record}
use kernel_paxos_persistence.UserStorage.Deliver.{stored_is_delivered}
use kernel_paxos_persistence.ReadPersistence.Complete.{woken}
use kernel_paxos_persistence.Ring.Delivery.{head_slot}
use kernel_paxos_persistence.ReadPersistence.{read_persistence_write}
use kernel_paxos_persistence.UserStorage.Answer.{IsReply, read_message_missing, put_then_read}
use kernel_paxos_persistence.UserStorage.Put.{IsAtomic, put_failure_aborts, put-IsAtomic}
use kernel_paxos_persistence.Types.{accepted_iid, value_len}
use kernel_paxos_persistence.Sample.{fresh, plain, fresh-IsRing, zero_callback}
use kernel_paxos_persistence.Sample.Storage.{
  table, full_table, no_records, heap, seven, for_seven, three_bytes, table_laws, full_laws,
  heap-IsMalloc, heap-IsPlenty, seven-IsAccepted,
}
use kernel_paxos_persistence.Ring.{IsRing, queued}
use kernel_paxos_persistence.Device.{Device, Response}
use kernel_paxos_persistence.Memory.{Bytes}
use kernel_paxos_persistence.UserStorage.{storage_put, process_read_message, thread_loop}
use kernel_paxos_persistence.Prelude.{
  Returns, ◌∷◌, some, [], arith, none, false, ◌++◌, ◌≡◌, ℕ, to_ssize, ◌≢◌, refl, get_elem?,
  replicate, List, map,
}
use kernel_paxos_persistence.Lmdb.{LmdbStorage}

abbrev empty_storage : LmdbStorage table
empty_storage = record { env = no_records; txn = none; acceptor_id = 0 }

abbrev full_storage : LmdbStorage full_table
full_storage = record { env = no_records; txn = none; acceptor_id = 0 }

-- The record of instance 7 is there.
abbrev with_seven : LmdbStorage table
with_seven = record { env = λ i. some (seven.image ++ three_bytes); txn = none; acceptor_id = 0 }

put-IsAtomic_example :
    Returns
      (storage_put table heap empty_storage seven)
      (IsAtomic table table_laws no_records seven three_bytes)
put-IsAtomic_example =
    put-IsAtomic table table_laws heap heap-IsMalloc heap-IsPlenty empty_storage refl seven
      three_bytes seven-IsAccepted refl (λ t. refl)

put_failure_aborts_example : storage_put full_table heap full_storage seven ≡ none
put_failure_aborts_example =
    put_failure_aborts full_table full_laws heap heap-IsMalloc heap-IsPlenty full_storage refl seven
      three_bytes seven-IsAccepted refl (λ t h. omega arith)

put_then_read_example : Returns (storage_put table heap empty_storage seven) λ (r, db).
    r ≡ 0
    → Returns
        (process_read_message table heap (record empty_storage { env = db }) for_seven)
        λ (w, db').
          IsReply w 0 (accepted_iid seven.image) three_bytes
          × ((i : ℕ) → accepted_iid seven.image ≢ i → db' i ≡ none)
put_then_read_example =
    put_then_read table table_laws heap empty_storage seven three_bytes for_seven heap-IsMalloc
      heap-IsPlenty refl seven-IsAccepted (omega arith) (λ db. refl) (λ t. refl) (omega arith) refl

read_message_missing_example :
    Returns
      (process_read_message table heap empty_storage for_seven)
      λ (w, db'). IsReply w 0 0 [] × ((i : ℕ) → db' i ≡ none)
read_message_missing_example =
    read_message_missing table table_laws heap heap-IsMalloc heap-IsPlenty empty_storage refl
      for_seven (omega arith) refl

-- The bytes behind the value that the buffer of the thread still has.
abbrev leftover : Bytes
leftover = 9 ∷ 9 ∷ []

-- A device in whose slot 0 a request waits.
abbrev asked : Device
asked = record fresh { used_buf = 1; current_buf = 1 }

asked-IsRing : IsRing asked
asked-IsRing = record {
  slots = fresh-IsRing.slots;
  slot_sizes = fresh-IsRing.slot_sizes;
  callbacks = fresh-IsRing.callbacks;
  responses = fresh-IsRing.responses;
  first_in = omega arith;
  used_in = omega arith;
  current_at = omega arith;
}

stored_is_delivered_example :
    Returns (process_read_message table heap with_seven for_seven) λ (w, db).
      (buffer : Bytes) × (w.buffer ≡ some buffer)
      × Returns (read_persistence_write plain asked buffer w.count) λ (r, d').
        (r ≡ to_ssize w.count)
        × IsRing d'
        × (queued asked ≡ head_slot asked ∷ queued d')
        × ((response : Response) × (get_elem? d'.callback_buf 0
              ≡ some (woken (record zero_callback { response = some response })))
            × (accepted_iid response.header ≡ accepted_iid seven.image)
            × (value_len response.header ≡ 3)
            × (response.value ≡ three_bytes ++ replicate 197 0))
stored_is_delivered_example =
    stored_is_delivered table table_laws heap with_seven for_seven seven three_bytes plain asked
      zero_callback heap-IsMalloc heap-IsPlenty refl seven-IsAccepted (omega arith) refl refl refl
      plain-IsReadable asked-IsRing (omega arith) (omega arith) (omega arith) refl

abbrev table_works : IsWorking table
table_works = record { begins = λ db. refl; puts = λ t k b. refl; commits = λ db t. refl }

abbrev two_messages : List Sent
two_messages = (for_seven, three_bytes) ∷ (for_seven, three_bytes) ∷ []

abbrev one_message : List Incoming
one_message =
    record { id = 0; acc = seven; value = three_bytes; rest = leftover; read_result = 42 } ∷ []

thread_loop_lem_example :
    Returns
      (thread_loop table heap empty_storage false seven 0 (map arrives one_message))
      λ (ws, db, n').
        (ws ≡ [])
        × (n' ≡ 1)
        × ((ys : List Sent) × IsDecoded one_message ys × ((i : ℕ) → db i ≡ last_record ys i none))
thread_loop_lem_example =
    thread_loop_lem table table_laws table_works heap heap-IsMalloc heap-IsPlenty one_message
      empty_storage seven 0 refl seven-IsAccepted.whole (seven-IsAccepted, tt)
