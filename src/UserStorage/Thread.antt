-- ===== src/UserStorage/Thread.antt =====
-- What the thread of the write device does with a message.
use kernel_paxos_persistence.Types.{sizeof_accepted, sizeof_client_value, accepted_iid}
use kernel_paxos_persistence.Codec.RoundTrip.{IsPlenty, IsAccepted, IsSame, of_buffer_lem}
use kernel_paxos_persistence.Memory.{Bytes, word32}
use kernel_paxos_persistence.Prelude.{
  ℕ, ◌≡◌, none, length, Returns, false, ◌++◌, ◌⊎◌, Returns-inv, inl, inr, refl,
}
use kernel_paxos_persistence.Codec.{Malloc, Accepted, IsMalloc}
use kernel_paxos_persistence.Lmdb.{Lmdb, LmdbLaws, LmdbStorage}
use kernel_paxos_persistence.UserStorage.Put.{IsAtomic, IsStored, put-IsAtomic}
use kernel_paxos_persistence.UserStorage.{handle_message, process_write_message}

-- With no transaction open, malloc that has memory, a transaction that can be opened and an mdb_put
-- that succeeds, the thread of the write device, for a buffer that holds a number, a whole
-- structure and its value, whatever follows them, returns and writes nothing back; it decodes the
-- structure with the same fields and value, and then stores it as a whole, with every other record
-- unchanged, or changes nothing.
pub write_message-IsStored :
    (M : Lmdb) (L : LmdbLaws M) (malloc : Malloc) (s : LmdbStorage M) (acc accepted : Accepted)
    (id : ℕ) (value rest : Bytes)
    → IsMalloc malloc
    → IsPlenty malloc
    → s.txn ≡ none
    → IsAccepted acc value
    → length accepted.image ≡ sizeof_accepted
    → (M.mdb_txn_begin s.env).0 ≡ 0
    → ((t : M.Txn) (k : ℕ) (b : Bytes) → (M.mdb_put t k b).0 ≡ 0)
    → Returns
        (handle_message M malloc s false (word32 id ++ (acc.image ++ (value ++ rest))) accepted)
        λ (w, db, acc').
          (w ≡ none)
          × IsSame acc acc' value
          × (IsStored M L s.env db acc' value ⊎ ((i : ℕ) → L.contents db i ≡ L.contents s.env i))
unfolding handle_message process_write_message IsAtomic
write_message-IsStored M L malloc s acc accepted id value rest sized plenty idle ok whole begun
      puts =
    let (acc', decoded, same) =
      Returns-inv (λ a. IsSame acc a value) _
        (of_buffer_lem acc value ok malloc accepted rest sized plenty whole) in
    let (block, e) = plenty sizeof_client_value in
    let ((r, db), put_eq, atomic) = Returns-inv (IsAtomic M L s.env acc' value) _ (
      put-IsAtomic M L malloc sized plenty s idle acc' value same.kept begun
        (λ t. puts t (accepted_iid acc'.image) (acc'.image ++ value))) in
    rw (decoded, e, put_eq)
      (refl, same, elim atomic [ inl (_, stored) ↦ inl stored | inr (_, kept) ↦ inr kept ])
