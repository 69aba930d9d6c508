-- ===== src/WritePersistence/Tests.antt =====
-- Runs of the write device, and the theorems about it at concrete inputs.
use kernel_paxos_persistence.WritePersistence.Save.{
  stored, message_size-stored, length-stored, save_accepted_reads_back,
}
use kernel_paxos_persistence.WritePersistence.{
  write_persistence_read, write_persistence_add_message, write_persistence_poll,
  write_persistence_send, save_accepted,
}
use kernel_paxos_persistence.WritePersistence.Take.{read_failed}
use kernel_paxos_persistence.Ring.Delivery.{head_slot}
use kernel_paxos_persistence.Sample.{fresh, plain, fresh-IsRing, failing, zero_slot}
use kernel_paxos_persistence.Prelude.{
  Returns, length-set, replicate, set, ◌≡◌, ◌∷◌, ◌∙◌, [], arith, All-set, refl, List, some, negsuc,
  ◌+◌, inl, true, length, length-replicate, ℕ, ◌≤◌,
}
use kernel_paxos_persistence.Types.{message_size, slot_size, accepted_iid}
use kernel_paxos_persistence.Ring.{IsRing, IsSlot}
use kernel_paxos_persistence.Device.{Device}
use kernel_paxos_persistence.Memory.{Bytes, overwrite, word32, store32, load32, memset, memcpy}
use kernel_paxos_persistence.WritePersistence.Run.{
  Request, add, poll_and_read, added, idle, message, run, serve,
}

-- A message of 44 bytes: iid 7, and a value of four bytes.
abbrev short_message : Bytes
short_message = overwrite (overwrite (replicate 44 0) 4 (word32 7)) 24 (4 ∷ 0 ∷ 0 ∷ 0 ∷ [])

abbrev loaded : Device
loaded = record fresh {
  msg_buf = set fresh.msg_buf 0 (stored short_message 44);
  used_buf = 1;
  current_buf = 1;
}

loaded-IsRing : IsRing loaded
unfolding overwrite
loaded-IsRing = record {
  slots = length-set fresh.msg_buf 0 (stored short_message 44) ∙ fresh-IsRing.slots;
  slot_sizes =
      All-set IsSlot fresh.msg_buf 0 (stored short_message 44) fresh-IsRing.slot_sizes
        (length-stored short_message 44 (omega arith) (omega arith));
  callbacks = fresh-IsRing.callbacks;
  responses = fresh-IsRing.responses;
  first_in = omega arith;
  used_in = omega arith;
  current_at = omega arith;
}

loaded_size : message_size (head_slot loaded) ≡ 44
unfolding overwrite
loaded_size = message_size-stored short_message 44 (omega arith) (omega arith)

abbrev loaded_buffer : Bytes
loaded_buffer = replicate 244 0

read_failed_example :
    Returns (write_persistence_read failing loaded loaded_buffer 0) λ (r, buffer', d').
      (r ≡ negsuc 0)
      × (d'.first_buf ≡ 0)
      × (d'.current_buf ≡ 1)
      × (d'.used_buf + 1 ≡ 1)
      × ¬ IsRing d'
read_failed_example =
    read_failed failing loaded loaded_buffer 0 loaded-IsRing (omega arith)
      (omega (arith, loaded_size)) (omega arith) (inl (omega arith))

abbrev script : List Request
script =
    poll_and_read ∷ add short_message 44 ∷ add short_message 30 ∷ poll_and_read ∷ poll_and_read ∷ []

-- The second message, cut to 30 bytes, comes back as these 30 bytes and the length that they leave.
run-script :
    run plain fresh (add short_message 44 ∷ poll_and_read ∷ poll_and_read ∷ [])
    ≡ some (added true ∷ message (short_message) ∷ idle ∷ [])
unfolding run serve write_persistence_add_message write_persistence_poll write_persistence_read
    write_persistence_send save_accepted memset memcpy overwrite load32 store32
run-script = refl

save_accepted_reads_back_example : Returns (save_accepted zero_slot short_message 44) λ saved.
    (length saved ≡ slot_size)
    × (message_size saved ≡ 44)
    × (8 ≤ 44 → accepted_iid saved ≡ accepted_iid short_message)
unfolding overwrite
save_accepted_reads_back_example =
    save_accepted_reads_back short_message 44 (omega arith) (omega arith) zero_slot
      (length-replicate {A = ℕ} slot_size 0)

abbrev zeros : Bytes
zeros = replicate 40 0
