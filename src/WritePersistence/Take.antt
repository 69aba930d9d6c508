-- ===== src/WritePersistence/Take.antt =====
-- write_persistence_read, by the results of its copies.
use kernel_paxos_persistence.Ring.Delivery.{
  head_slot, delivered, id_copy, message_copy, head_length,
}
use kernel_paxos_persistence.Ring.Step.{first_slot, drop_slot-IsRing, queued-drop_slot}
use kernel_paxos_persistence.WritePersistence.{write_persistence_read, write_persistence_send}
use kernel_paxos_persistence.Types.{sizeof_int, message_size, slot_size}
use kernel_paxos_persistence.Prelude.{
  ℕ, length, ◌≡◌, ◌≢◌, take, ◌≤◌, Returns, ◌==◌, ◌⊎◌, false, pos, negsuc, arith, ◌∷◌, ◌+◌, leb,
  true, ltb, ◌^◌, ◌∙◌, ◌&&◌, ap, refl,
}
use kernel_paxos_persistence.Memory.{Bytes, word32, overwrite}
use kernel_paxos_persistence.Kernel.{Kernel}
use kernel_paxos_persistence.Device.{Device}
use kernel_paxos_persistence.Ring.{IsRing, queued}

module _ (K : Kernel) (d : Device) (buffer : Bytes) (len : ℕ) (ring : IsRing d)
    (works : d.working ≢ 0) (fits : message_size (head_slot d) ≤ slot_size) where
  read_sends :
      write_persistence_read K d buffer len ≡ write_persistence_send K d (head_slot d) buffer
  unfolding write_persistence_read
  read_sends = let on : (d.working == 0) ≡ false = ground arith in rw (on, first_slot d ring)

  -- On a working write device with a well-formed, non-empty ring whose oldest message fits into a
  -- slot, and with two copies that succeed, write_persistence_read returns the size of the oldest
  -- message, leaves the slot's number and that message in the user's buffer, keeps the ring well
  -- formed and takes the message from the queue.
  pub read_takes :
      d.used_buf ≢ 0
      → (id_copy K d buffer).0 ≡ 0
      → (message_copy K d buffer).0 ≡ 0
      → Returns (write_persistence_read K d buffer len) λ (r, buffer', d').
        (r ≡ pos (message_size (head_slot d)))
        × (buffer' ≡ delivered buffer d.first_buf (head_slot d))
        × IsRing d'
        × (d'.working ≡ d.working)
        × (queued d ≡ head_slot d ∷ queued d')
  unfolding write_persistence_send delivered
  read_takes some_used e1 e2 =
      let inside : leb (message_size (head_slot d)) (length (head_slot d)) ≡ true =
        ground (arith, head_length d ring) in
      let small : ltb (message_size (head_slot d)) (2 ^ 63) ≡ true = ground arith in
      rw (read_sends, inside, e1, e2, small)
        (
          refl,
          K.copy_to_user_done _ sizeof_int (head_slot d) (message_size (head_slot d)) e2
              ∙ ap (λ t. overwrite t sizeof_int (take (message_size (head_slot d)) (head_slot d)))
                  (K.copy_to_user_done buffer 0 (word32 d.first_buf) sizeof_int e1),
          drop_slot-IsRing d (K.atomic_dec d.used_buf) ring one_less,
          refl,
          queued-drop_slot d (K.atomic_dec d.used_buf) ring one_less,
        )
    where
      one_less : d.used_buf ≡ K.atomic_dec d.used_buf + 1
      one_less = omega (arith, K.atomic_dec_lem d.used_buf, ring.used_in)

  -- On a working write device with a well-formed, non-empty ring whose oldest message fits into a
  -- slot, when one of the two copies fails, write_persistence_read returns -1 and moves no index,
  -- but counts one message less, so that the ring is not well formed any more.
  pub read_failed :
      d.used_buf ≢ 0
      → ((id_copy K d buffer).0 ≢ 0) ⊎ ((message_copy K d buffer).0 ≢ 0)
      → Returns (write_persistence_read K d buffer len) λ (r, buffer', d').
        (r ≡ negsuc 0)
        × (d'.first_buf ≡ d.first_buf)
        × (d'.current_buf ≡ d.current_buf)
        × (d'.used_buf + 1 ≡ d.used_buf)
        × ¬ IsRing d'
  unfolding write_persistence_send
  read_failed some_used e =
      let inside : leb (message_size (head_slot d)) (length (head_slot d)) ≡ true =
        ground (arith, head_length d ring) in
      let failed : ((message_copy K d buffer).0 == 0 && (id_copy K d buffer).0 == 0) ≡ false =
        ground arith in
      rw (read_sends, inside, failed)
        (
          refl,
          refl,
          refl,
          omega (arith, K.atomic_dec_lem d.used_buf, ring.used_in),
          λ bad.
              omega
                (arith, bad.current_at, ring.current_at, K.atomic_dec_lem d.used_buf, ring.used_in),
        )
