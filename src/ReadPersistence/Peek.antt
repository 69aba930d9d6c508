-- ===== src/ReadPersistence/Peek.antt =====
-- read_persistence_read, and the request at the head of the ring.
use kernel_paxos_persistence.Ring.Step.{first_slot}
use kernel_paxos_persistence.Types.{slot_size}
use kernel_paxos_persistence.Ring.Delivery.{
  head_slot, delivered, id_copy, message_copy, head_length,
}
use kernel_paxos_persistence.Prelude.{
  ◌≢◌, ◌≡◌, some, arith, ◌==◌, ◌<◌, false, none, ◌≤◌, leb, length, pos, ◌+◌, true, ltb, ◌%◌,
  u64_mod, ◌^◌, ◌∙◌, ap, take, Option,
}
use kernel_paxos_persistence.Ring.{IsRing}
use kernel_paxos_persistence.ReadPersistence.{
  read_persistence_read, Device, read_persistence_send, Bytes, ℕ, ℤ, message_size, sizeof_int,
  overwrite, word32,
}
use kernel_paxos_persistence.Kernel.{Kernel}

module _ (K : Kernel) (d : Device) (buffer : Bytes) (len : ℕ) (ring : IsRing d)
    (works : d.working ≢ 0) where
  peek_sends : read_persistence_read K d buffer len ≡ read_persistence_send K d (head_slot d) buffer
  unfolding read_persistence_read
  peek_sends = let on : (d.working == 0) ≡ false = ground arith in rw (on, first_slot d ring)

  -- On a working read device with a well-formed ring, with a head slot whose message fits into it
  -- and two copies that succeed, read_persistence_read returns the message's size and the four
  -- bytes of the number, leaves both in the user's buffer, and does not change the device.
  pub peek_delivers :
      message_size (head_slot d) ≤ slot_size
      → (id_copy K d buffer).0 ≡ 0
      → (message_copy K d buffer).0 ≡ 0
      → read_persistence_read K d buffer len
        ≡ some (
          pos (message_size (head_slot d) + sizeof_int),
          delivered buffer d.first_buf (head_slot d),
          d,
        )
  unfolding read_persistence_send delivered
  peek_delivers fits e1 e2 =
      let n = message_size (head_slot d) in
      let inside : leb n (length (head_slot d)) ≡ true = ground (arith, head_length d ring) in
      let small : ltb ((n + sizeof_int) % u64_mod) (2 ^ 63) ≡ true = ground arith in
      let whole : (n + sizeof_int) % u64_mod ≡ n + sizeof_int = omega arith in
      rw (peek_sends, inside, e1, e2, small, whole)
        (ap {B = Option (ℤ × Bytes × Device)} (λ t. some (pos (n + sizeof_int), t, d))
          (K.copy_to_user_done _ sizeof_int (head_slot d) n e2
            ∙ ap (λ t. overwrite t sizeof_int (take n (head_slot d)))
                (K.copy_to_user_done buffer 0 (word32 d.first_buf) sizeof_int e1)))

  -- On a working read device with a well-formed ring, a message at the head whose own length
  -- reaches behind its slot makes read_persistence_read copy what stands behind it.
  pub peek_overread :
      slot_size < message_size (head_slot d) → read_persistence_read K d buffer len ≡ none
  unfolding read_persistence_send
  peek_overread long =
      let outside : leb (message_size (head_slot d)) (length (head_slot d)) ≡ false =
        ground (arith, head_length d ring) in
      rw (peek_sends, outside)

-- Whatever happens, no read changes the device.
pub read_keeps_device :
    (K : Kernel) (d : Device) (buffer : Bytes) (len : ℕ) {r : ℤ} {buffer' : Bytes} {d' : Device}
    → read_persistence_read K d buffer len ≡ some (r, buffer', d')
    → d' ≡ d
unfolding read_persistence_read read_persistence_send
read_keeps_device K d buffer len h = ground arith
