-- ===== src/System/Lookup.antt =====
-- process_read_message over a table of whole records.
use kernel_paxos_persistence.UserStorage.Answer.{IsReply, read_message_missing, read_message_found}
use kernel_paxos_persistence.UserStorage.{process_read_message}
use kernel_paxos_persistence.Codec.RoundTrip.{IsPlenty, IsAccepted}
use kernel_paxos_persistence.Types.{
  sizeof_accepted, max_paxos_value_size, buffer_size, accepted_iid,
}
use kernel_paxos_persistence.Codec.{Malloc, IsMalloc, Accepted, ClientValue}
use kernel_paxos_persistence.Memory.{Bytes}
use kernel_paxos_persistence.Lmdb.{Lmdb, LmdbLaws, LmdbStorage}
use kernel_paxos_persistence.Prelude.{
  Option, ℕ, length, ◌≡◌, none, some, ◌++◌, [], ◌≤◌, ◌<◌, Returns, Returns-map, arith, ap, sym, ◌∙◌,
  refl,
}

-- The value that the storage has to answer with: that of the record, or an empty one of instance 0.
pub data IsLookup (found : Option Bytes) (iid : ℕ) (iid' : ℕ) (value : Bytes) : Type 0 where
  present :
      (image : Bytes)
      → length image ≡ sizeof_accepted
      → found ≡ some (image ++ value)
      → iid' ≡ iid
      → IsLookup found iid iid' value
  missing : found ≡ none → iid' ≡ 0 → value ≡ [] → IsLookup found iid iid' value

-- Each record is a whole accepted value of its instance, with a value that fits into a slot.
pub data IsRecord (found : Option Bytes) (iid : ℕ) : Type 0 where
  nothing : found ≡ none → IsRecord found iid
  holds :
      (acc : Accepted) (value : Bytes)
      → IsAccepted acc value
      → length value ≤ max_paxos_value_size
      → iid ≡ accepted_iid acc.image
      → found ≡ some (acc.image ++ value)
      → IsRecord found iid

module _ (M : Lmdb) (L : LmdbLaws M) (malloc : Malloc) (sized : IsMalloc malloc)
    (plenty : IsPlenty malloc) (s : LmdbStorage M) (idle : s.txn ≡ none)
    (begun : (M.mdb_txn_begin s.env).0 ≡ 0) (message : ClientValue)
    (named : message.buffer_id < buffer_size) where
  abbrev pub asked_iid : ℕ
  asked_iid = accepted_iid message.value.image

  pub lookup_lem :
      IsRecord (L.contents s.env asked_iid) asked_iid
      → Returns (process_read_message M malloc s message) λ (w, db).
        ((iid' : ℕ) × (value : Bytes) × IsReply w message.buffer_id iid' value
          × IsLookup (L.contents s.env asked_iid) asked_iid iid' value
          × (length value ≤ max_paxos_value_size))
        × ((i : ℕ) → L.contents db i ≡ L.contents s.env i)
  lookup_lem (nothing e) =
      Returns-map _ _ (process_read_message M malloc s message)
        (read_message_missing M L malloc sized plenty s idle message named e)
        λ (w, db) (reply, kept). ((0, [], reply, missing e refl refl, omega arith), kept)
  lookup_lem (holds acc value ok fits e there) =
      Returns-map _ _ (process_read_message M malloc s message)
        (read_message_found M L malloc sized plenty s idle message named acc value ok fits begun e
          (ap (L.contents s.env) (sym e) ∙ there))
        λ (w, db) (reply, kept). (
          (accepted_iid acc.image, value, reply, present acc.image ok.whole there (sym e), fits),
          kept,
        )
