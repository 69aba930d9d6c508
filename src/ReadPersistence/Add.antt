-- ===== src/ReadPersistence/Add.antt =====
-- read_persistence_add_message, by the room in the ring and the size of the request.
use kernel_paxos_persistence.ReadPersistence.Save.{
  requested, save_request_overflow, save_request_lem, length-requested,
}
use kernel_paxos_persistence.Ring.Step.{
  current_slot_eq, current_length, some_callback, current_in, put_slot-IsRing, queued-put_slot,
}
use kernel_paxos_persistence.Types.{slot_size}
use kernel_paxos_persistence.ReadPersistence.{
  read_persistence_add_message, request_callback, buffer_size, accepted_iid, save_request,
}
use kernel_paxos_persistence.Ring.{IsRing, IsCallback, queued}
use kernel_paxos_persistence.Prelude.{
  ℕ, get_or, [], ◌≡◌, ◌<◌, some, ◌≤◌, none, length, arith, Returns, at_least, false, ◌++◌, ◌∷◌,
  get_elem?, ◌+◌, get_elem?-set_self, refl, Keeps, Bool-cases, inl, inr, Keeps-intro,
}
use kernel_paxos_persistence.Memory.{Bytes}
use kernel_paxos_persistence.Device.{Device, Callback, wake_up}
use kernel_paxos_persistence.Kernel.{Kernel}

-- read_persistence_add_message puts its request at the end of the queue, or drops it, or runs over
-- the end of the slot.

module _ (K : Kernel) (d : Device) (msg : Bytes) (size : ℕ) (ring : IsRing d) where
  pub request_full :
      d.used_buf ≡ buffer_size → read_persistence_add_message K d msg size ≡ some (none, d)
  unfolding read_persistence_add_message
  request_full h = ground arith

  request_callback-IsCallback :
      (slot : Bytes) (c : Callback) → IsCallback c → IsCallback (request_callback d slot c)
  unfolding request_callback
  request_callback-IsCallback slot c h = record { has_response = h.has_response }

  abbrev current_message : Bytes
  current_message = get_or d.msg_buf d.current_buf []

  -- With a well-formed ring that has room, and a request that fits into a slot and has its bytes,
  -- read_persistence_add_message returns the callback of the current slot, keeps the ring well
  -- formed and the mutex, counts one more, puts the request at the end of the queue, and the
  -- callback has the slot's number, the request's instance and is not done.
  pub request_room :
      d.used_buf < buffer_size
      → size ≤ slot_size
      → size ≤ length msg
      → Returns (read_persistence_add_message K d msg size) λ (r, d').
        (r ≡ some d.current_buf)
        × IsRing d'
        × (d'.used_buf ≡ d.used_buf + 1)
        × (d'.char_mutex ≡ d.char_mutex)
        × (queued d' ≡ queued d ++ (requested current_message msg size ∷ []))
        × ((c : Callback) × (get_elem? d'.callback_buf d.current_buf ≡ some c)
            × (c.buffer_id ≡ d.current_buf)
            × (c.iid ≡ accepted_iid (requested current_message msg size))
            × (c.is_done ≡ 0))
  unfolding read_persistence_add_message request_callback
  request_room room fits there =
      let slot = current_message in
      let slot_eq = current_slot_eq d ring in
      let whole = current_length d ring in
      let (c, c_eq, c_ok) =
        some_callback d.callback_buf d.current_buf
          (omega (arith, ring.callbacks, current_in d ring)) ring.responses in
      let not_full : at_least buffer_size d.used_buf ≡ false = ground arith in
      let saved = requested slot msg size in
      let filed = request_callback d saved c in
      let one_more : K.atomic_inc d.used_buf ≡ d.used_buf + 1 =
        omega (arith, K.atomic_inc_lem d.used_buf) in
      rw (not_full, slot_eq, save_request_lem slot msg size whole fits there, c_eq)
        (
          refl,
          put_slot-IsRing d saved filed (K.atomic_inc d.used_buf) (wake_up ∷ d.access_wait) ring
              room one_more (length-requested slot msg size whole fits there)
              (request_callback-IsCallback saved c c_ok),
          one_more,
          refl,
          queued-put_slot d saved filed (K.atomic_inc d.used_buf) (wake_up ∷ d.access_wait) ring
              room one_more,
          (
            filed,
            get_elem?-set_self d.callback_buf d.current_buf filed
                (omega (arith, ring.callbacks, current_in d ring)),
            refl,
            refl,
            refl,
          ),
        )

  -- With a well-formed ring that has room, a request longer than the 240 bytes of a slot makes
  -- read_persistence_add_message copy behind the slot: the size is not tested.
  pub request_overflow :
      d.used_buf < buffer_size → slot_size < size → read_persistence_add_message K d msg size ≡ none
  unfolding read_persistence_add_message
  request_overflow room long =
      let not_full : at_least buffer_size d.used_buf ≡ false = ground arith in
      rw (
        not_full,
        current_slot_eq d ring,
        save_request_overflow current_message msg size (current_length d ring) long,
      )

  -- The oldest slot, and whether the device works.
  pub add_message-Keeps :
      Keeps
        (λ (r, d'). (d'.first_buf ≡ d.first_buf) × (d'.working ≡ d.working))
        (read_persistence_add_message K d msg size)
  unfolding read_persistence_add_message
  add_message-Keeps = elim (Bool-cases (at_least buffer_size d.used_buf)) [
    | inl full ↦ rw full (refl, refl)
    | inr room ↦ rw room (
        Keeps-intro _ (get_elem? d.msg_buf d.current_buf) _ λ slot.
          Keeps-intro _ (save_request slot msg size) _
            λ saved. Keeps-intro _ (get_elem? d.callback_buf d.current_buf) _ λ c. (refl, refl))
  ]
