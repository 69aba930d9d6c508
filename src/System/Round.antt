-- ===== src/System/Round.antt =====
-- A turn of the thread of the read device, when a request is queued.
use kernel_paxos_persistence.System.Steps.{
  read_lem, handled_lem, m-IsRequest, polled-IsRing, queue_split, dec_used, reply_sent,
}
use kernel_paxos_persistence.System.Turn.{IsServed, IsReading, IsTable, IsAnsweredAt, IsTurn}
use kernel_paxos_persistence.UserStorage.{handle_message}
use kernel_paxos_persistence.Ring.Step.{drop_slot, set_callback-IsRing, drop_slot-IsRing}
use kernel_paxos_persistence.ReadPersistence.{read_persistence_poll, read_persistence_fops}
use kernel_paxos_persistence.ReadPersistence.Complete.{woken, woken-IsCallback, answered-IsCallback}
use kernel_paxos_persistence.System.Received.{structure_of, behind, delivered_lem}
use kernel_paxos_persistence.Ring.Delivery.{head_slot, delivered, head_length}
use kernel_paxos_persistence.Types.{accepted_iid, sizeof_int, sizeof_accepted}
use kernel_paxos_persistence.System.Lookup.{IsLookup}
use kernel_paxos_persistence.Codec.{Malloc}
use kernel_paxos_persistence.Memory.{Bytes, word32}
use kernel_paxos_persistence.System.{StorageThread, handle_received, thread_round, handle_read}
use kernel_paxos_persistence.Kernel.{Kernel}
use kernel_paxos_persistence.Device.{Device, poll_wait}
use kernel_paxos_persistence.Prelude.{
  ◌≢◌, ◌≡◌, some, ◌∷◌, arith, subst, ◌++◌, [], Returns, true, Returns-inv, is_positive, length-drop,
  drop, length-append, length-take, get_elem?-set_self, refl, sym, get_elem?-set_ne,
}
use kernel_paxos_persistence.Lmdb.{Lmdb, LmdbLaws}

module _ (K : Kernel) (M : Lmdb) (L : LmdbLaws M) (malloc : Malloc) (served : IsServed K M L malloc)
    (r : StorageThread M) (ok : IsReading M r) (nonempty : r.device.used_buf ≢ 0)
    (table : IsTable M L r.storage.env) where
  open served use {reliable, reads, sized, plenty, begins}

  abbrev d : Device
  d = r.device

  abbrev m : Bytes
  m = head_slot r.device

  abbrev polled : Device
  polled = record d { access_wait = poll_wait ∷ d.access_wait }

  abbrev bytes : Bytes
  bytes = word32 d.first_buf ++ ((structure_of m).image ++ ([] ++ behind r.recv))

  answer_lem :
      Returns
        (handle_received
          (read_persistence_fops K)
          M
          malloc
          true
          (record r { device = polled; recv = delivered r.recv d.first_buf m }))
        (IsTurn M L r)
  unfolding handle_received IsAnsweredAt
  answer_lem =
      let whole = head_length d ok.ring in
      let requests = m-IsRequest K M L malloc served r ok nonempty table in
      let fewer = dec_used K M L malloc served r ok nonempty table in
      let ((w, db, decoded), handled, ((written, w_eq, (iid', value, reply, found)), kept, size)) =
        Returns-inv _ (handle_message M malloc r.storage true bytes r.accepted)
          (handled_lem K M L malloc served r ok nonempty table) in
      let (c, response, c_eq, sent, c_ok, iid_eq, len_eq, value_eq, response_ok) =
        reply_sent K M L malloc served r ok nonempty table written iid' value reply in
      let used = K.atomic_dec d.used_buf in
      let c' = woken (record c { response = some response }) in
      rw (delivered_lem r.recv m d.first_buf whole requests.0 ok.room, handled, w_eq, sent)
        (record {
          reading = record {
            ring =
                set_callback-IsRing (drop_slot polled used) d.first_buf c'
                  (drop_slot-IsRing polled used
                    (polled-IsRing K M L malloc served r ok nonempty table) fewer)
                  (woken-IsCallback _ (answered-IsCallback c response response_ok));
            works = ok.works;
            requests = requests.1;
            no_txn = ok.no_txn;
            room = omega (
              arith,
              ok.room,
              length-drop sizeof_int r.recv,
              length-drop sizeof_accepted (drop sizeof_int r.recv),
              length-append (structure_of m).image (behind r.recv),
              length-take sizeof_accepted m,
            );
            whole = size;
          };
          taken = queue_split K M L malloc served r ok nonempty table;
          one_less = fewer;
          moved = refl;
          answered = (
            c,
            response,
            get_elem?-set_self d.callback_buf d.first_buf c'
                (omega (arith, ok.ring.callbacks, ok.ring.first_in)),
            record {
              value = value;
              looked_up =
                  subst
                    (λ k.
                      IsLookup (L.contents r.storage.env (accepted_iid m)) (accepted_iid m) k value)
                    (sym iid_eq) found;
              len_is = len_eq;
              value_is = value_eq;
            },
          );
          others = λ i ne. get_elem?-set_ne d.callback_buf c' ne;
          kept = kept;
        })

  -- A turn of the loop.
  pub round_lem : Returns (thread_round (read_persistence_fops K) M malloc true r) (IsTurn M L r)
  unfolding thread_round read_persistence_poll handle_read read_persistence_fops
  round_lem =
      let some_used : is_positive d.used_buf ≡ true = ground (arith, ok.ring.used_in) in
      rw (some_used, (read_lem K M L malloc served r ok nonempty table)) answer_lem
