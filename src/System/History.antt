-- ===== src/System/History.antt =====
-- The thread of the write device over a whole ring of messages.
use kernel_paxos_persistence.Ring.Delivery.{head_slot}
use kernel_paxos_persistence.Ring.Window.{length-window}
use kernel_paxos_persistence.WritePersistence.{write_persistence_fops}
use kernel_paxos_persistence.Ring.{queued, window}
use kernel_paxos_persistence.Codec.RoundTrip.{IsPlenty}
use kernel_paxos_persistence.UserStorage.History.{IsWorking, Sent, last_record}
use kernel_paxos_persistence.System.Store.{IsStoring, IsStoredBy, store_lem}
use kernel_paxos_persistence.WritePersistence.Run.{IsReliable}
use kernel_paxos_persistence.System.{StorageThread, thread_rounds, thread_round}
use kernel_paxos_persistence.Codec.{Malloc, IsMalloc}
use kernel_paxos_persistence.Prelude.{
  ℕ, [], ◌≡◌, List, ◌+◌, map, arith, ap, Returns, length, false, subst, suc, Returns-inv,
  Returns-map, ◌∷◌, sym, ◌∙◌, zero, refl,
}
use kernel_paxos_persistence.System.Entry.{incoming, value_of}
use kernel_paxos_persistence.UserStorage.Loop.{Incoming, IsDecoded}
use kernel_paxos_persistence.Kernel.{Kernel}
use kernel_paxos_persistence.Lmdb.{Lmdb, LmdbLaws}
use kernel_paxos_persistence.Memory.{Bytes}

-- A queued message, as the history of the thread has it.
abbrev pub as_incoming : Bytes → Incoming
as_incoming m = incoming 0 m []

-- From `r` to `r'`, when every message that was queued in `r` is in the table.
pub record IsPersisted (M : Lmdb) (L : LmdbLaws M) (room : ℕ) (r r' : StorageThread M)
    : Type 0 where
  pub storing : IsStoring M room r'
  pub empty : r'.device.used_buf ≡ 0
  pub decoded : List Sent
  pub same : IsDecoded (map as_incoming (queued r.device)) decoded
  pub stored :
      (i : ℕ) → L.contents r'.storage.env i ≡ last_record decoded i (L.contents r.storage.env i)

module _ (K : Kernel) (M : Lmdb) (L : LmdbLaws M) (malloc : Malloc) (reliable : IsReliable K)
    (works : IsWorking M) (sized : IsMalloc malloc) (plenty : IsPlenty malloc) (room : ℕ) where
  -- One message less.
  used_lem :
      (r r' : StorageThread M)
      → IsStoredBy M L room r r'
      → r.device.used_buf ≡ r'.device.used_buf + 1
  used_lem r r' turn =
      let d = r.device in
      let d' = r'.device in
      omega (
        arith,
        ap length turn.taken,
        length-window d.msg_buf d.first_buf d.used_buf,
        length-window d'.msg_buf d'.first_buf d'.used_buf,
      )

  -- When copies, malloc and the calls of LMDB do not fail, the write device's storage thread at the
  -- head of its loop, on a working device with a well-formed ring of messages that fit into their
  -- slots and into the thread's buffer, returns after as many turns as messages are queued: the
  -- ring is well formed and empty, the messages were decoded one for one, in their order, to
  -- structures with the same fields and values, and the table has under each instance the last of
  -- them with that instance, or what it had before.
  pub persist_lem :
      (n : ℕ) (r : StorageThread M)
      → n ≡ r.device.used_buf
      → IsStoring M room r
      → Returns
          (thread_rounds (write_persistence_fops K) M malloc false n r)
          (IsPersisted M L room r)
  unfolding thread_rounds IsDecoded last_record
  persist_lem zero r e ok = record {
    storing = ok;
    empty = omega arith;
    decoded = [];
    same =
        subst (λ n. IsDecoded (map as_incoming (window r.device.msg_buf r.device.first_buf n)) []) e
          tt;
    stored = λ i. refl;
  }
  persist_lem (suc n) r e ok =
      let (r₁, first, turn) =
        Returns-inv _ (thread_round (write_persistence_fops K) M malloc false r)
          (store_lem K M L malloc reliable works sized plenty room r ok (omega arith)) in
      rw first (
        Returns-map _ _ (thread_rounds (write_persistence_fops K) M malloc false n r₁)
          (persist_lem n r₁ (omega (arith, used_lem r r₁ turn)) turn.storing)
          λ r₂ rest. record {
            storing = rest.storing;
            empty = rest.empty;
            decoded =
                (record { buffer_id = 0; value = turn.decoded }, value_of (head_slot r.device))
                ∷ rest.decoded;
            same =
                subst
                  (λ q. IsDecoded (map as_incoming q) (
                    (record { buffer_id = 0; value = turn.decoded }, value_of (head_slot r.device))
                    ∷ rest.decoded))
                  (sym turn.taken) ((turn.same, refl), rest.same);
            stored = λ i. rest.stored i ∙ ap (last_record rest.decoded i) (turn.stored i);
          })
