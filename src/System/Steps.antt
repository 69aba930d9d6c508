-- ===== src/System/Steps.antt =====
-- What a turn does: the read of the device, the look-up, and the write of the reply.
use kernel_paxos_persistence.System.Turn.{IsServed, IsReading, IsTable}
use kernel_paxos_persistence.UserStorage.Answer.{IsReply}
use kernel_paxos_persistence.Memory.Laws.{load32-word32}
use kernel_paxos_persistence.Memory.Append.{load32-append_left}
use kernel_paxos_persistence.UserStorage.{handle_message, Written, process_read_message}
use kernel_paxos_persistence.ReadPersistence.Peek.{peek_delivers}
use kernel_paxos_persistence.Ring.Step.{others-IsRing, drop_slot, queued-drop_slot, some_callback}
use kernel_paxos_persistence.ReadPersistence.{read_persistence_read, read_persistence_fops}
use kernel_paxos_persistence.Codec.RoundTrip.{IsSame, of_buffer_lem}
use kernel_paxos_persistence.ReadPersistence.Complete.{woken, answer_steps}
use kernel_paxos_persistence.System.Received.{
  IsRequest, size_of_request, structure_of, behind, structure-IsAccepted, load32-take,
}
use kernel_paxos_persistence.Ring.Delivery.{head_slot, delivered, id_copy, head_length}
use kernel_paxos_persistence.Types.{
  accepted_iid, value_len, sizeof_int, sizeof_accepted, max_paxos_value_size, message_size,
  sizeof_client_value, iid_offset,
}
use kernel_paxos_persistence.System.Lookup.{IsLookup, lookup_lem}
use kernel_paxos_persistence.Codec.{Malloc, ClientValue}
use kernel_paxos_persistence.Ring.{IsRing, queued, IsCallback, IsResponse}
use kernel_paxos_persistence.Memory.{Bytes, word32, load32}
use kernel_paxos_persistence.System.{StorageThread, send_written}
use kernel_paxos_persistence.Kernel.{Kernel}
use kernel_paxos_persistence.Device.{Device, Response, Callback, poll_wait, set_callback}
use kernel_paxos_persistence.Prelude.{
  Option, ℕ, get_elem?, ◌≢◌, ◌≡◌, All, some, ◌∷◌, length, ◌+◌, arith, subst, pos, ◌++◌, replicate,
  ap, ◌-◌, ◌∙◌, ℤ, [], Returns, true, Returns-inv, ap₂, refl,
}
use kernel_paxos_persistence.Lmdb.{Lmdb, LmdbLaws}

module _ (K : Kernel) (M : Lmdb) (L : LmdbLaws M) (malloc : Malloc) (served : IsServed K M L malloc)
    (r : StorageThread M) (ok : IsReading M r) (nonempty : r.device.used_buf ≢ 0)
    (table : IsTable M L r.storage.env) where
  open served use {reliable, reads, sized, plenty, begins}

  abbrev d : Device
  d = r.device

  abbrev m : Bytes
  m = head_slot r.device

  abbrev polled : Device
  polled = record d { access_wait = poll_wait ∷ d.access_wait }

  pub polled-IsRing : IsRing polled
  polled-IsRing = others-IsRing d d.char_mutex (poll_wait ∷ d.access_wait) ok.ring

  pub dec_used : d.used_buf ≡ K.atomic_dec d.used_buf + 1
  dec_used = omega (arith, K.atomic_dec_lem d.used_buf, ok.ring.used_in)

  pub queue_split : queued d ≡ m ∷ queued (drop_slot d (K.atomic_dec d.used_buf))
  queue_split = queued-drop_slot d (K.atomic_dec d.used_buf) ok.ring dec_used

  pub m-IsRequest : All IsRequest (m ∷ queued (drop_slot d (K.atomic_dec d.used_buf)))
  m-IsRequest = subst (All IsRequest) queue_split ok.requests

  -- The read of the device.
  pub read_lem :
      read_persistence_read K polled r.recv 0
      ≡ some (pos 44, delivered r.recv d.first_buf m, polled)
  read_lem =
      let size = size_of_request m m-IsRequest.0 in
      ap (λ t. t)
        (peek_delivers K polled r.recv 0 polled-IsRing ok.works (omega arith)
          (reliable r.recv 0 (word32 d.first_buf) sizeof_int (omega (arith, ok.room)))
          (reliable (id_copy K polled r.recv).1 sizeof_int m (message_size m) (
            omega
              (arith, ok.room, K.copy_to_user_length r.recv 0 (word32 d.first_buf) sizeof_int))))
      ∙ ap {B = Option (ℤ × Bytes × Device)}
          (λ n. some (pos (n + sizeof_int), delivered r.recv d.first_buf m, polled)) size

  abbrev bytes : Bytes
  bytes = word32 d.first_buf ++ ((structure_of m).image ++ ([] ++ behind r.recv))

  pub first_lem : load32 bytes 0 ≡ d.first_buf
  first_lem =
      load32-append_left (word32 d.first_buf) ((structure_of m).image ++ ([] ++ behind r.recv)) 0
        (omega arith)
      ∙ load32-word32 d.first_buf
      ∙ omega (arith, ok.ring.first_in)

  -- What is decoded, looked up and written back.
  pub handled_lem :
      Returns (handle_message M malloc r.storage true bytes r.accepted) λ (w, db, decoded).
        ((written : Written) × (w ≡ some written)
          × ((iid' : ℕ) × (value : Bytes) × IsReply written d.first_buf iid' value
              × IsLookup (L.contents r.storage.env (accepted_iid m)) (accepted_iid m) iid' value))
        × ((i : ℕ) → L.contents db i ≡ L.contents r.storage.env i)
        × (length decoded.image ≡ sizeof_accepted)
  unfolding handle_message
  handled_lem =
      let whole = head_length d ok.ring in
      let (acc, decoded, same) =
        Returns-inv (λ a. IsSame (structure_of m) a []) _
          (of_buffer_lem (structure_of m) [] (structure-IsAccepted m whole m-IsRequest.0) malloc
            r.accepted (behind r.recv) sized plenty ok.whole) in
      let (block, e) = plenty sizeof_client_value in
      let message : ClientValue = record { buffer_id = load32 bytes 0; value = acc } in
      let same_iid : accepted_iid acc.image ≡ accepted_iid m =
        same.words iid_offset (omega arith)
        ∙ load32-take m iid_offset (omega arith) (omega arith) in
      let ((w, db), looked, ((iid', value, reply, found, fits), kept)) =
        Returns-inv _ (process_read_message M malloc r.storage message) (
          lookup_lem M L malloc sized plenty r.storage ok.no_txn (begins r.storage.env) message
            (omega (arith, first_lem, ok.ring.first_in)) (table (accepted_iid acc.image))) in
      rw (decoded, e, looked)
        (
          (
            w,
            refl,
            (
              iid',
              value,
              subst (λ k. IsReply w k iid' value) first_lem reply,
              subst (λ k. IsLookup (L.contents r.storage.env k) k iid' value) same_iid found,
            ),
          ),
          kept,
          same.kept.whole,
        )

  -- The write of the reply.
  pub reply_sent :
      (written : Written) (iid' : ℕ) (value : Bytes)
      → IsReply written d.first_buf iid' value
      → (c : Callback) × (response : Response) × (get_elem? d.callback_buf d.first_buf ≡ some c)
        × (send_written (read_persistence_fops K) M malloc true polled (some written)
            ≡ some (
                set_callback
                  (drop_slot polled (K.atomic_dec d.used_buf))
                  d.first_buf
                  (woken (record c { response = some response }))))
        × IsCallback c
        × (accepted_iid response.header ≡ iid')
        × (value_len response.header ≡ length value)
        × (response.value ≡ value ++ replicate (max_paxos_value_size - length value) 0)
        × IsResponse response
  unfolding send_written read_persistence_fops
  reply_sent written iid' value reply =
      let (c, c_eq, c_ok) =
        some_callback d.callback_buf d.first_buf
          (omega (arith, ok.ring.callbacks, ok.ring.first_in)) ok.ring.responses in
      let (response, answered, e) =
        answer_steps K reads polled reply.buffer written.count c polled-IsRing ok.works
          reply.answers (rw reply.to_slot c_eq) in
      (
        c,
        response,
        c_eq,
        rw (reply.there, e, reply.to_slot),
        c_ok,
        answered.iid_sent ∙ reply.of_instance,
        answered.len_sent ∙ reply.with_len,
        answered.value_sent
            ∙ ap₂ (λ v n. v ++ replicate (max_paxos_value_size - n) 0) reply.with_value
                reply.with_len,
        answered.well_formed,
      )
