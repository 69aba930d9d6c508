-- ===== src/WritePersistence/Add.antt =====
-- write_persistence_add_message, by the room in the ring.
use kernel_paxos_persistence.WritePersistence.Save.{stored, save_accepted_lem, length-stored}
use kernel_paxos_persistence.Device.{Device, Callback, wake_up}
use kernel_paxos_persistence.WritePersistence.{
  truncated, Bytes, slot_size, write_persistence_add_message, file_callback, buffer_size,
}
use kernel_paxos_persistence.Kernel.{Kernel}
use kernel_paxos_persistence.Prelude.{
  Option, ℕ, Bool, false, ◌≤◌, arith, ◌≡◌, ◌<◌, some, length, true, none, Returns, ◌++◌, ◌∷◌, [],
  at_least, ◌+◌, refl, get_or,
}
use kernel_paxos_persistence.Ring.{IsRing, IsCallback, queued}
use kernel_paxos_persistence.Ring.Step.{
  put_slot-IsRing, queued-put_slot, some_callback, current_in, current_slot_eq, current_length,
}

abbrev pub is_some {ℓ} : {A : Type ℓ} → Option A → Bool
is_some none = false
is_some (some a) = true

pub truncated-le : (size : ℕ) → truncated size ≤ slot_size
truncated-le size = ground arith

module _ (K : Kernel) (d : Device) (msg : Bytes) (size : ℕ) (ring : IsRing d) where
  pub add_message_full :
      d.used_buf ≡ buffer_size → write_persistence_add_message K d msg size ≡ some (none, d)
  unfolding write_persistence_add_message
  add_message_full h = ground arith

  file_callback-IsCallback :
      (slot : Bytes) (c : Callback) → IsCallback c → IsCallback (file_callback d slot c)
  unfolding file_callback
  file_callback-IsCallback slot c h = record { has_response = h.has_response }

  -- With a well-formed ring that has room, and a message that has the bytes that are copied,
  -- write_persistence_add_message returns the callback of the current slot, keeps the ring well
  -- formed, and puts at the end of the queue the first 240 bytes of the message, padded with zeros,
  -- with the length that they leave for the value.
  pub add_message_room :
      d.used_buf < buffer_size
      → truncated size ≤ length msg
      → Returns (write_persistence_add_message K d msg size) λ (r, d').
        (r ≡ some d.current_buf)
        × IsRing d'
        × (d'.working ≡ d.working)
        × (queued d' ≡ queued d ++ (stored msg (truncated size) ∷ []))
  unfolding write_persistence_add_message
  add_message_room room there =
      let slot = get_or d.msg_buf d.current_buf [] in
      let slot_eq = current_slot_eq d ring in
      let slot_ok = current_length d ring in
      let (c, c_eq, c_ok) =
        some_callback d.callback_buf d.current_buf
          (omega (arith, ring.callbacks, current_in d ring)) ring.responses in
      let not_full : at_least buffer_size d.used_buf ≡ false = ground arith in
      let n = truncated size in
      let saved = stored msg n in
      let one_more : K.atomic_inc d.used_buf ≡ d.used_buf + 1 =
        omega (arith, K.atomic_inc_lem d.used_buf) in
      rw (not_full, slot_eq, save_accepted_lem msg n (truncated-le size) there slot slot_ok, c_eq)
        (
          refl,
          put_slot-IsRing d saved (file_callback d saved c) (K.atomic_inc d.used_buf)
              (wake_up ∷ d.access_wait) ring room one_more
              (length-stored msg n (truncated-le size) there)
              (file_callback-IsCallback saved c c_ok),
          refl,
          queued-put_slot d saved (file_callback d saved c) (K.atomic_inc d.used_buf)
              (wake_up ∷ d.access_wait) ring room one_more,
        )
