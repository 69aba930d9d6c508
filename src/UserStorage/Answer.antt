-- ===== src/UserStorage/Answer.antt =====
-- process_read_message, and the reply that it writes.
use kernel_paxos_persistence.Codec.Transfer.{client_value_lem, sent_lem, image_of, image-IsAnswer}
use kernel_paxos_persistence.UserStorage.Get.{storage_get_found, storage_get_missing, zeroed_lem}
use kernel_paxos_persistence.ReadPersistence.Answer.{
  IsAnswer, sent_id, sent_iid, sent_value, sent_len,
}
use kernel_paxos_persistence.Codec.RoundTrip.{IsPlenty, IsAccepted, accepted_size_lem}
use kernel_paxos_persistence.Types.{
  sizeof_int, sizeof_accepted, value_len_offset, buffer_size, max_paxos_value_size, accepted_iid,
  iid_offset,
}
use kernel_paxos_persistence.Codec.{
  Accepted, Malloc, IsMalloc, ClientValue, client_value_to_buffer, accepted_size,
}
use kernel_paxos_persistence.Prelude.{
  ℕ, ◌≡◌, some, replicate, ◌+◌, length, [], none, ap, ◌<◌, arith, ◌≤◌, inl, Option, Returns, ◌++◌,
  refl, Returns-bind, ◌%◌, u64_mod, ◌∙◌, ◌≢◌, Returns-map, inr,
}
use kernel_paxos_persistence.UserStorage.Put.{IsAtomic, put-IsAtomic}
use kernel_paxos_persistence.Lmdb.{Lmdb, LmdbLaws, LmdbStorage}
use kernel_paxos_persistence.Memory.{load32, Bytes}
use kernel_paxos_persistence.UserStorage.{Written, process_read_message, storage_get, storage_put}

-- What is written for a request of the slot `id`: the value `value` of the instance `iid`.
pub record IsReply (w : Written) (id iid : ℕ) (value : Bytes) : Type 0 where
  pub buffer : Bytes
  pub there : w.buffer ≡ some buffer
  pub counted : w.count ≡ sizeof_int + sizeof_accepted + length value
  pub answers : IsAnswer buffer
  pub to_slot : sent_id buffer ≡ id
  pub of_instance : sent_iid buffer ≡ iid
  pub with_len : sent_len buffer ≡ length value
  pub with_value : sent_value buffer ≡ value

zero-IsAccepted : (out : Accepted) → out.image ≡ replicate sizeof_accepted 0 → IsAccepted out []
unfolding load32
zero-IsAccepted out e = record {
  whole = ap length e;
  len_is = ap (λ b. load32 b value_len_offset) e;
  small = omega arith;
  there = inl refl;
}

module _ (M : Lmdb) (L : LmdbLaws M) (malloc : Malloc) (sized : IsMalloc malloc)
    (plenty : IsPlenty malloc) (s : LmdbStorage M) (idle : s.txn ≡ none) where
  -- The buffer for an accepted value.
  reply_lem :
      (acc : Accepted) (value : Bytes) (id iid : ℕ)
      → IsAccepted acc value
      → accepted_iid acc.image ≡ iid
      → id < buffer_size
      → length value ≤ max_paxos_value_size
      → (msg : Option Bytes) × (client_value_to_buffer malloc
            (record { buffer_id = id; value = acc })
          ≡ some msg)
        × IsReply
            (record { buffer = msg; count = (sizeof_int + accepted_size acc) % u64_mod })
            id
            iid
            value
  reply_lem acc value id iid ok same named fits =
      let (rest, _, e) = client_value_lem acc value ok id malloc sized plenty in
      let (id_eq, iid_eq, len_eq, value_eq) = sent_lem acc value ok id rest in
      (
        some (image_of acc value ok id rest),
        e,
        record {
          buffer = image_of acc value ok id rest;
          there = refl;
          counted = omega (arith, accepted_size_lem acc value ok);
          answers = image-IsAnswer acc value ok id rest named fits;
          to_slot = id_eq ∙ omega arith;
          of_instance = iid_eq ∙ same;
          with_len = len_eq;
          with_value = value_eq;
        },
      )

  module _ (message : ClientValue) (named : message.buffer_id < buffer_size) where
    -- A record that is there is sent to the slot of the request, with its instance and its value.
    pub read_message_found :
        (acc : Accepted) (value : Bytes)
        → IsAccepted acc value
        → length value ≤ max_paxos_value_size
        → (M.mdb_txn_begin s.env).0 ≡ 0
        → accepted_iid message.value.image ≡ accepted_iid acc.image
        → L.contents s.env (accepted_iid acc.image) ≡ some (acc.image ++ value)
        → Returns (process_read_message M malloc s message) λ (w, db').
          IsReply w message.buffer_id (accepted_iid acc.image) value
          × ((i : ℕ) → L.contents db' i ≡ L.contents s.env i)
    unfolding process_read_message
    read_message_found acc value ok fits begun same_iid there = rw same_iid (
        Returns-bind _ _ (storage_get M malloc s (accepted_iid acc.image)) _
          (storage_get_found M L malloc sized plenty s idle acc value ok begun there)
          λ (out, db') ((acc', out_eq, same_acc), kept).
            let (msg, e, reply) =
              reply_lem acc' value message.buffer_id (accepted_iid acc.image) same_acc.kept
                (same_acc.words iid_offset (omega arith)) named fits in
            rw (out_eq, e) (reply, kept))

    -- With no transaction open and malloc that has memory, process_read_message for a slot below
    -- 1000 and an instance that the table does not hold returns, also when no transaction can be
    -- opened, writes a reply to that slot with an empty value for the instance 0, and the table
    -- keeps its contents.
    pub read_message_missing :
        L.contents s.env (accepted_iid message.value.image) ≡ none
        → Returns (process_read_message M malloc s message) λ (w, db').
          IsReply w message.buffer_id 0 [] × ((i : ℕ) → L.contents db' i ≡ L.contents s.env i)
    unfolding process_read_message load32
    read_message_missing missing =
        Returns-bind _ _ (storage_get M malloc s (accepted_iid message.value.image)) _
          (storage_get_missing M L malloc sized plenty s idle (accepted_iid message.value.image)
            missing)
          λ (out, db') (out_eq, kept).
            let (zeros, zeros_eq, image_eq, _) = zeroed_lem M L malloc sized plenty s idle in
            let (msg, e, reply) =
              reply_lem zeros [] message.buffer_id 0 (zero-IsAccepted zeros image_eq)
                (ap accepted_iid image_eq) named (omega arith) in
            rw (out_eq, zeros_eq, e) (reply, kept)

-- With no transaction open, malloc that has memory, transactions that can be opened and an mdb_put
-- that succeeds for the record, storage_put of an accepted value of at most 200 bytes returns; if
-- it returned 0, then process_read_message for its instance, on what storage_put left, returns and
-- writes a reply to the slot of the request with that instance and that value, and every other
-- instance has the record that it had before.
pub put_then_read :
    (M : Lmdb) (L : LmdbLaws M) (malloc : Malloc) (s : LmdbStorage M) (acc : Accepted)
    (value : Bytes) (message : ClientValue)
    → IsMalloc malloc
    → IsPlenty malloc
    → s.txn ≡ none
    → IsAccepted acc value
    → length value ≤ max_paxos_value_size
    → ((db : M.Db) → (M.mdb_txn_begin db).0 ≡ 0)
    → ((t : M.Txn) → (M.mdb_put t (accepted_iid acc.image) (acc.image ++ value)).0 ≡ 0)
    → message.buffer_id < buffer_size
    → accepted_iid message.value.image ≡ accepted_iid acc.image
    → Returns (storage_put M malloc s acc) λ (r, db).
      r ≡ 0
      → Returns (process_read_message M malloc (record s { env = db }) message) λ (w, db').
        IsReply w message.buffer_id (accepted_iid acc.image) value
        × ((i : ℕ) → accepted_iid acc.image ≢ i → L.contents db' i ≡ L.contents s.env i)
unfolding IsAtomic
put_then_read M L malloc s acc value message sized plenty idle ok fits begins puts named same_iid =
    Returns-map _ _ (storage_put M malloc s acc)
      (put-IsAtomic M L malloc sized plenty s idle acc value ok (begins s.env) puts)
      λ (r, db) atomic r_zero. elim atomic [
        | inl (_, stored) ↦
            Returns-map _ _ (process_read_message M malloc (record s { env = db }) message)
              (read_message_found M L malloc sized plenty (record s { env = db }) idle message named
                acc value ok fits (begins db) same_iid stored.self)
              λ (w, db') (reply, kept). (reply, λ i ne. kept i ∙ stored.others i ne)
        | inr (r_one, _) ↦ absurd (omega arith)
      ]
