-- ===== src/ReadPersistence/Tests.antt =====
-- Runs of the read device, and the theorems about it at concrete inputs.
use kernel_paxos_persistence.Sample.Process.{plain-IsReadable}
use kernel_paxos_persistence.ReadPersistence.Peek.{peek_delivers, peek_overread}
use kernel_paxos_persistence.ReadPersistence.Complete.{woken, answer_completes}
use kernel_paxos_persistence.Ring.Delivery.{head_slot, delivered}
use kernel_paxos_persistence.ReadPersistence.Faults.{answer_bad_slot, answer_unasked}
use kernel_paxos_persistence.ReadPersistence.Add.{request_overflow}
use kernel_paxos_persistence.Types.{iid_offset, slot_size, value_len_offset}
use kernel_paxos_persistence.ReadPersistence.Save.{requested, length-requested}
use kernel_paxos_persistence.Sample.{plain, fresh, zero_slot, fresh-IsRing, zero_callback}
use kernel_paxos_persistence.Ring.{IsRing, queued, IsSlot}
use kernel_paxos_persistence.Prelude.{
  Returns, replicate, length-set, arith, set, ◌∷◌, ◌≡◌, [], some, none, to_ssize, pos, ◌∙◌, u32_mod,
  All-set, ◌-◌, get_elem?, refl, length-replicate, ℕ, ◌≢◌, ◌>>=◌, Option, ℤ, ◌+◌,
}
use kernel_paxos_persistence.ReadPersistence.{
  read_persistence_add_message, read_persistence_write, read_persistence_poll, save_request,
  sizeof_accepted, read_persistence_read, read_persistence_send, read_persistence_answer,
  copy_header, copy_value, finish_answer, message_size, request_callback,
}
use kernel_paxos_persistence.Device.{Device, Response, clear_paxos_accepted}
use kernel_paxos_persistence.ReadPersistence.Answer.{IsAnswer, IsAnswered, sent_id}
use kernel_paxos_persistence.Memory.{Bytes, load32, overwrite, word32, memset, memcpy, store32}

-- A request of 40 bytes, for the value of instance 7.
abbrev request : Bytes
request = overwrite (replicate sizeof_accepted 0) iid_offset (word32 7)

-- The answer for slot 0: instance 7, and a value of three bytes.
abbrev answer_bytes : Bytes
answer_bytes = overwrite (overwrite (replicate 47 0) 8 (word32 7)) 28 (3 ∷ 0 ∷ 0 ∷ 0 ∷ [])

-- An answer that names the slot 1000.
abbrev far_answer : Bytes
far_answer = overwrite answer_bytes 0 (word32 1000)

answer_bytes-IsAnswer : IsAnswer answer_bytes
unfolding load32 overwrite
answer_bytes-IsAnswer = record {
  names_slot = omega arith;
  value_fits = omega arith;
  complete = omega arith;
}

abbrev waiting : Device
waiting = record fresh {
  msg_buf = set fresh.msg_buf 0 (requested zero_slot request 40);
  used_buf = 1;
  current_buf = 1;
}

waiting-IsRing : IsRing waiting
unfolding overwrite
waiting-IsRing = record {
  slots = length-set fresh.msg_buf 0 (requested zero_slot request 40) ∙ fresh-IsRing.slots;
  slot_sizes =
      All-set IsSlot fresh.msg_buf 0 (requested zero_slot request 40) fresh-IsRing.slot_sizes (
        length-requested zero_slot request 40 (length-replicate {A = ℕ} slot_size 0) (omega arith)
          (omega arith));
  callbacks = fresh-IsRing.callbacks;
  responses = fresh-IsRing.responses;
  first_in = omega arith;
  used_in = omega arith;
  current_at = omega arith;
}

request_overflow_example : read_persistence_add_message plain fresh request 241 ≡ none
request_overflow_example =
    request_overflow plain fresh request 241 fresh-IsRing (omega arith) (omega arith)

peek_delivers_example :
    read_persistence_read plain waiting (replicate 244 0) 0
    ≡ some (
      pos (message_size (head_slot waiting) + 4),
      delivered (replicate 244 0) 0 (head_slot waiting),
      waiting,
    )
unfolding overwrite requested load32
peek_delivers_example =
    peek_delivers plain waiting (replicate 244 0) 0 waiting-IsRing (omega arith) (omega arith) refl
      refl

answer_completes_example : Returns (read_persistence_write plain waiting answer_bytes 47) λ (r, d').
    (r ≡ to_ssize 47)
    × IsRing d'
    × (queued waiting ≡ head_slot waiting ∷ queued d')
    × ((response : Response) × IsAnswered response answer_bytes
        × (get_elem? d'.callback_buf (sent_id answer_bytes)
            ≡ some (woken (record zero_callback { response = some response }))))
    × ((i : ℕ)
        → sent_id answer_bytes ≢ i
        → get_elem? d'.callback_buf i ≡ get_elem? waiting.callback_buf i)
unfolding load32 overwrite
answer_completes_example =
    answer_completes plain plain-IsReadable waiting answer_bytes 47 zero_callback waiting-IsRing
      (omega arith) answer_bytes-IsAnswer refl (omega arith)

answer_bad_slot_example : read_persistence_write plain waiting far_answer 47 ≡ none
unfolding load32 overwrite
answer_bad_slot_example =
    answer_bad_slot plain waiting far_answer 47 plain-IsReadable waiting-IsRing (omega arith)
      (omega arith) (omega arith)

answer_unasked_example : Returns (read_persistence_write plain fresh answer_bytes 47) λ (r, d').
    (r ≡ to_ssize 47)
    × (d'.used_buf ≡ u32_mod - 1)
    × ((read_persistence_poll plain (record d' { used_buf = plain.atomic_inc d'.used_buf })).0 ≡ 0)
    × ¬ IsRing d'
answer_unasked_example =
    answer_unasked plain fresh answer_bytes 47 plain-IsReadable fresh-IsRing (omega arith)
      answer_bytes-IsAnswer refl

-- A request, its read, and its answer.
abbrev round_trip : Option (Option ℕ × ℤ × ℤ × ℕ)
round_trip = do
  (r, d) ← read_persistence_add_message plain fresh request 40
  (n, b, d') ← read_persistence_read plain d (replicate 244 0) 0
  (k, e) ← read_persistence_write plain d' answer_bytes 47
  some (r, n, k, e.used_buf)

answer_run : round_trip ≡ some (some 0, pos 44, pos 47, 0)
unfolding read_persistence_add_message save_request memset memcpy read_persistence_read
    read_persistence_send read_persistence_write read_persistence_answer copy_header copy_value
    finish_answer clear_paxos_accepted load32 store32 overwrite request_callback
answer_run = refl

-- A request whose own length is 1000.
abbrev long_request : Bytes
long_request = overwrite (replicate slot_size 0) value_len_offset (word32 1000)

abbrev long_waiting : Device
long_waiting = record fresh {
  msg_buf = set fresh.msg_buf 0 long_request;
  used_buf = 1;
  current_buf = 1;
}

long_waiting-IsRing : IsRing long_waiting
unfolding overwrite
long_waiting-IsRing = record {
  slots = length-set fresh.msg_buf 0 long_request ∙ fresh-IsRing.slots;
  slot_sizes = All-set IsSlot fresh.msg_buf 0 long_request fresh-IsRing.slot_sizes refl;
  callbacks = fresh-IsRing.callbacks;
  responses = fresh-IsRing.responses;
  first_in = omega arith;
  used_in = omega arith;
  current_at = omega arith;
}

peek_overread_example : read_persistence_read plain long_waiting (replicate 244 0) 0 ≡ none
unfolding overwrite load32
peek_overread_example =
    peek_overread plain long_waiting (replicate 244 0) 0 long_waiting-IsRing (omega arith)
      (omega arith)
