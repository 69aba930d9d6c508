-- ===== src/System/Store.antt =====
-- A turn of the thread of the write device, when a message is queued.
use kernel_paxos_persistence.UserStorage.Loop.{handle_lem}
use kernel_paxos_persistence.UserStorage.{handle_message}
use kernel_paxos_persistence.WritePersistence.Take.{read_takes}
use kernel_paxos_persistence.Types.{sizeof_accepted, message_size, sizeof_int, value_len}
use kernel_paxos_persistence.WritePersistence.{
  write_persistence_read, write_persistence_poll, write_persistence_fops,
}
use kernel_paxos_persistence.Ring.Step.{others-IsRing, drop_slot, queued-drop_slot}
use kernel_paxos_persistence.Memory.{Bytes, word32}
use kernel_paxos_persistence.Device.{Device, poll_wait}
use kernel_paxos_persistence.Codec.RoundTrip.{IsPlenty, IsSame}
use kernel_paxos_persistence.System.Entry.{
  IsEntry, entry_of, value_of, size_lem, delivered_entry, incoming, entry-IsAccepted,
}
use kernel_paxos_persistence.Ring.Delivery.{head_slot, delivered, head_length, id_copy}
use kernel_paxos_persistence.UserStorage.History.{IsWorking, last_record}
use kernel_paxos_persistence.WritePersistence.Run.{IsReliable}
use kernel_paxos_persistence.Ring.{IsRing, queued}
use kernel_paxos_persistence.Codec.{Malloc, IsMalloc, Accepted}
use kernel_paxos_persistence.System.{
  StorageThread, thread_round, handle_read, handle_received, send_written,
}
use kernel_paxos_persistence.Prelude.{
  ℕ, ◌≢◌, ◌≡◌, All, ◌∷◌, none, subst, Returns, length, arith, pos, [], false, is_positive, true,
  Returns-inv, ◌++◌, suc, ◌+◌, ◌∙◌, sym, ap,
}
use kernel_paxos_persistence.Kernel.{Kernel}
use kernel_paxos_persistence.Lmdb.{Lmdb, LmdbLaws}

-- The thread at the head of its loop, with a buffer of `room` bytes.
pub record IsStoring (M : Lmdb) (room : ℕ) (r : StorageThread M) : Type 0 where
  pub ring : IsRing r.device
  pub works : r.device.working ≢ 0
  pub entries : All (IsEntry room) (queued r.device)
  pub no_txn : r.storage.txn ≡ none
  pub size : length r.recv ≡ room
  pub whole : length r.accepted.image ≡ sizeof_accepted

-- One turn from `r` to `r'`: the oldest message is taken, and is the record of its instance.
pub record IsStoredBy (M : Lmdb) (L : LmdbLaws M) (room : ℕ) (r r' : StorageThread M) : Type 0 where
  pub storing : IsStoring M room r'
  pub taken : queued r.device ≡ head_slot r.device ∷ queued r'.device
  pub decoded : Accepted
  pub same : IsSame (entry_of (head_slot r.device)) decoded (value_of (head_slot r.device))
  pub stored :
      (i : ℕ)
      → L.contents r'.storage.env i
        ≡ last_record
            ((record { buffer_id = 0; value = decoded }, value_of (head_slot r.device)) ∷ [])
            i
            (L.contents r.storage.env i)

module _ (K : Kernel) (M : Lmdb) (L : LmdbLaws M) (malloc : Malloc) (reliable : IsReliable K)
    (works : IsWorking M) (sized : IsMalloc malloc) (plenty : IsPlenty malloc) (room : ℕ)
    (r : StorageThread M) (ok : IsStoring M room r) (nonempty : r.device.used_buf ≢ 0) where
  abbrev d : Device
  d = r.device

  abbrev m : Bytes
  m = head_slot r.device

  abbrev polled : Device
  polled = record d { access_wait = poll_wait ∷ d.access_wait }

  polled-IsRing : IsRing polled
  polled-IsRing = others-IsRing d d.char_mutex (poll_wait ∷ d.access_wait) ok.ring

  split_lem : queued d ≡ m ∷ queued (drop_slot d (K.atomic_dec d.used_buf))
  split_lem =
      queued-drop_slot d (K.atomic_dec d.used_buf) ok.ring
        (omega (arith, K.atomic_dec_lem d.used_buf, ok.ring.used_in))

  m-IsEntry : IsEntry room m
  m-IsEntry = (subst (All (IsEntry room)) split_lem ok.entries).0

  -- The read of the device.
  read_lem : Returns (write_persistence_read K polled r.recv 0) λ (len, recv, d').
      (len ≡ pos (message_size m))
      × (recv ≡ delivered r.recv d.first_buf m)
      × IsRing d'
      × (d'.working ≡ d.working)
      × (queued d ≡ m ∷ queued d')
  read_lem =
      let whole = head_length d ok.ring in
      let size = size_lem room m whole m-IsEntry in
      read_takes K polled r.recv 0 polled-IsRing ok.works (omega (arith, size, m-IsEntry.fits))
        nonempty
        (reliable r.recv 0 (word32 d.first_buf) sizeof_int
          (omega (arith, ok.size, m-IsEntry.received)))
        (reliable (id_copy K polled r.recv).1 sizeof_int m (message_size m) (
          omega (
            arith,
            size,
            ok.size,
            m-IsEntry.received,
            K.copy_to_user_length r.recv 0 (word32 d.first_buf) sizeof_int,
          )))

  -- A turn of the loop.
  pub store_lem :
      Returns (thread_round (write_persistence_fops K) M malloc false r) (IsStoredBy M L room r)
  unfolding thread_round write_persistence_poll handle_read write_persistence_fops handle_received
      send_written
  store_lem =
      let some_used : is_positive d.used_buf ≡ true = ground (arith, ok.ring.used_in) in
      let whole = head_length d ok.ring in
      let size = size_lem room m whole m-IsEntry in
      let ((len, recv, d'), read, (len_eq, recv_eq, ring, works_eq, taken)) =
        Returns-inv _ (write_persistence_read K polled r.recv 0) read_lem in
      let (rest, bytes, length_eq) =
        delivered_entry room m whole m-IsEntry r.recv d.first_buf ok.size in
      let ((w, db, acc'), handled, (w_eq, same, after)) =
        Returns-inv _
          (handle_message M malloc r.storage false
            (word32 d.first_buf ++ ((entry_of m).image ++ (value_of m ++ rest))) r.accepted)
          (handle_lem M L works malloc sized plenty r.storage r.accepted
            (incoming d.first_buf m rest) ok.no_txn ok.whole
            (entry-IsAccepted room m whole m-IsEntry)) in
      let positive : message_size m ≡ suc (39 + value_len m) = size ∙ omega arith in
      rw (some_used, read, len_eq, positive, recv_eq, bytes, handled, w_eq)
        (record {
          storing = record {
            ring = ring;
            works = λ e. ok.works (sym works_eq ∙ e);
            entries = (subst (All (IsEntry room)) taken ok.entries).1;
            no_txn = ok.no_txn;
            size = ap length (sym bytes) ∙ length_eq;
            whole = same.kept.whole;
          };
          taken = taken;
          decoded = acc';
          same = same;
          stored = after;
        })
