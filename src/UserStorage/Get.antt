-- ===== src/UserStorage/Get.antt =====
-- storage_get, with and without a record for the instance.
use kernel_paxos_persistence.Lmdb.Store.{lmdb_get_lem}
use kernel_paxos_persistence.Memory.Fill.{memset_all}
use kernel_paxos_persistence.Memory.{Bytes}
use kernel_paxos_persistence.Types.{sizeof_accepted, accepted_iid}
use kernel_paxos_persistence.UserStorage.{zeroed, storage_get, finish_get}
use kernel_paxos_persistence.Prelude.{
  ◌≡◌, none, ℕ, Bool-cases, some, ◌==◌, replicate, inl, arith, ◌∙◌, inr, Returns, refl, false, ◌++◌,
  ap, length,
}
use kernel_paxos_persistence.Codec.RoundTrip.{IsPlenty, IsAccepted, IsSame}
use kernel_paxos_persistence.Codec.{Malloc, IsMalloc, Accepted}
use kernel_paxos_persistence.Lmdb.{
  Lmdb, LmdbLaws, LmdbStorage, lmdb_storage_tx_begin, lmdb_storage_tx_commit, lmdb_storage_tx_abort,
  get_data, lmdb_storage_get,
}

module _ (M : Lmdb) (L : LmdbLaws M) (malloc : Malloc) (sized : IsMalloc malloc)
    (plenty : IsPlenty malloc) (s : LmdbStorage M) (idle : s.txn ≡ none) where
  pub zeroed_lem :
      (out : Accepted) × (zeroed malloc ≡ some out)
      × (out.image ≡ replicate sizeof_accepted 0)
      × (out.value_val ≡ none)
  unfolding zeroed
  zeroed_lem =
      let (block, e) = plenty sizeof_accepted in
      let (block_len, _) = sized sizeof_accepted block e in
      (
        record { image = replicate sizeof_accepted 0; value_val = none },
        rw (e, memset_all block.bytes sizeof_accepted block_len) refl,
        refl,
        refl,
      )

  commit_same :
      (t : M.Txn)
      → ((i : ℕ) → L.view t i ≡ L.contents s.env i)
      → (i : ℕ) → L.contents (M.mdb_txn_commit s.env t).1 i ≡ L.contents s.env i
  commit_same t same i = elim (Bool-cases ((M.mdb_txn_commit s.env t).0 == 0)) [
    | inl done ↦ L.commit_done s.env t (ground arith) i ∙ same i
    | inr failed ↦ L.commit_failed s.env t (ground arith) i
  ]

  -- With no transaction open, malloc that has memory and a transaction that can be opened,
  -- storage_get of an instance under which the table holds a whole accepted value returns it, with
  -- the same fields and value, whether or not the commit succeeds, and the table keeps its
  -- contents.
  pub storage_get_found :
      (acc : Accepted) (value : Bytes)
      → IsAccepted acc value
      → (M.mdb_txn_begin s.env).0 ≡ 0
      → L.contents s.env (accepted_iid acc.image) ≡ some (acc.image ++ value)
      → Returns (storage_get M malloc s (accepted_iid acc.image)) λ (out, db').
        ((acc' : Accepted) × (out ≡ some acc') × IsSame acc acc' value)
        × ((i : ℕ) → L.contents db' i ≡ L.contents s.env i)
  unfolding storage_get lmdb_storage_tx_begin finish_get lmdb_storage_tx_commit get_data
  storage_get_found acc value ok begun there =
      let (t, t_eq, same) = L.begin_done s.env begun in
      let (out, out_eq, image_eq, _) = zeroed_lem in
      let (acc', get_eq, same_acc) =
        lmdb_get_lem M malloc sized plenty acc value ok (record s { txn = some t }) out
          (ap length image_eq)
          (L.get_found t (accepted_iid acc.image) (acc.image ++ value)
            (same (accepted_iid acc.image) ∙ there)) in
      rw (idle, t_eq, out_eq, get_eq) ((acc', refl, same_acc), commit_same t same)

  -- Where there is no record nothing is found, also when no transaction could be opened.
  pub storage_get_missing :
      (id : ℕ)
      → L.contents s.env id ≡ none
      → Returns
          (storage_get M malloc s id)
          λ (out, db'). (out ≡ none) × ((i : ℕ) → L.contents db' i ≡ L.contents s.env i)
  unfolding storage_get lmdb_storage_tx_begin finish_get lmdb_storage_tx_abort get_data
      lmdb_storage_get
  storage_get_missing id missing =
      let (out, out_eq, _, _) = zeroed_lem in
      elim (Bool-cases ((M.mdb_txn_begin s.env).0 == 0)) [
        | inl done ↦
            let (t, t_eq, same) = L.begin_done s.env (ground arith) in
            let absent : ((M.mdb_get t id).0 == 0) ≡ false =
              ground (arith, L.get_missing t id (same id ∙ missing)) in
            rw (idle, t_eq, out_eq, absent) (refl, L.abort_lem s.env t)
        | inr failed ↦ rw (idle, L.begin_failed s.env (ground arith), out_eq) (refl, λ i. refl)
      ]
