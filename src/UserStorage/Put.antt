-- ===== src/UserStorage/Put.antt =====
-- storage_put, by the results of the calls of LMDB.
use kernel_paxos_persistence.Lmdb.Store.{lmdb_put_lem}
use kernel_paxos_persistence.UserStorage.{finish_put, storage_put}
use kernel_paxos_persistence.Codec.RoundTrip.{IsPlenty, IsAccepted}
use kernel_paxos_persistence.Prelude.{
  ℕ, ◌≡◌, some, none, ◌⊎◌, ◌++◌, ◌≢◌, Returns, Bool-cases, ◌==◌, inl, false, arith, ◌∙◌, refl, inr,
}
use kernel_paxos_persistence.Types.{accepted_iid}
use kernel_paxos_persistence.Memory.{Bytes}
use kernel_paxos_persistence.Codec.{Accepted, Malloc, IsMalloc}
use kernel_paxos_persistence.Lmdb.{
  Lmdb, LmdbLaws, LmdbStorage, lmdb_storage_tx_commit, lmdb_storage_tx_begin, put_data,
  lmdb_storage_tx_abort,
}

-- The one record that differs is that of the value, which is there.
pub record IsStored (M : Lmdb) (L : LmdbLaws M) (db db' : M.Db) (acc : Accepted) (value : Bytes)
    : Type 0 where
  pub self : L.contents db' (accepted_iid acc.image) ≡ some (acc.image ++ value)
  pub others : (i : ℕ) → accepted_iid acc.image ≢ i → L.contents db' i ≡ L.contents db i

-- The result of storage_put tells which of the two it was.
unfoldable pub IsAtomic :
    (M : Lmdb) (L : LmdbLaws M) (db : M.Db) (acc : Accepted) (value : Bytes) → ℕ × M.Db → Type 0
IsAtomic M L db acc value (r, db') =
    ((r ≡ 0) × IsStored M L db db' acc value)
    ⊎ ((r ≡ 1) × ((i : ℕ) → L.contents db' i ≡ L.contents db i))

module _ (M : Lmdb) (L : LmdbLaws M) (malloc : Malloc) (sized : IsMalloc malloc)
    (plenty : IsPlenty malloc) (s : LmdbStorage M) (idle : s.txn ≡ none) (acc : Accepted)
    (value : Bytes) (ok : IsAccepted acc value) where
  abbrev record_of : Bytes
  record_of = acc.image ++ value

  -- The commit of a transaction in which the record was put.
  commit_put_lem :
      (t : M.Txn)
      → ((i : ℕ) → L.view t i ≡ L.contents s.env i)
      → (M.mdb_put t (accepted_iid acc.image) record_of).0 ≡ 0
      → Returns
          (finish_put M malloc
            (0, record s { txn = some (M.mdb_put t (accepted_iid acc.image) record_of).1 }))
          (IsAtomic M L s.env acc value)
  unfolding finish_put lmdb_storage_tx_commit IsAtomic
  commit_put_lem t same put =
      let iid = accepted_iid acc.image in
      let t' = (M.mdb_put t iid record_of).1 in
      elim (Bool-cases ((M.mdb_txn_commit s.env t').0 == 0)) [
        | inl done ↦
            let code : (M.mdb_txn_commit s.env t').0 ≡ 0 = ground arith in
            rw done (
              inl (
                refl,
                record {
                  self = L.commit_done s.env t' code iid ∙ L.put_self t iid record_of put;
                  others = λ i ne.
                      L.commit_done s.env t' code i ∙ L.put_ne t iid i record_of put ne ∙ same i;
                },
              ))
        | inr failed ↦
            let code : (M.mdb_txn_commit s.env t').0 ≢ 0 = ground arith in
            rw failed (inr (refl, L.commit_failed s.env t' code))
      ]

  module _ (begun : (M.mdb_txn_begin s.env).0 ≡ 0) where
    -- With no transaction open, malloc that has memory, a transaction that can be opened and an
    -- mdb_put that succeeds for the record, storage_put of a whole accepted value returns: with 0,
    -- and then the table has the structure and the value under the instance and is the same
    -- elsewhere, or with 1, and then the table is what it was.
    pub put-IsAtomic :
        ((t : M.Txn) → (M.mdb_put t (accepted_iid acc.image) record_of).0 ≡ 0)
        → Returns (storage_put M malloc s acc) (IsAtomic M L s.env acc value)
    unfolding storage_put lmdb_storage_tx_begin put_data
    put-IsAtomic put =
        let (t, t_eq, same) = L.begin_done s.env begun in
        rw
          (
            idle,
            begun,
            t_eq,
            lmdb_put_lem M malloc sized plenty acc value ok (record s { txn = some t }),
            put t,
          )
          (commit_put_lem t same (put t))

    -- With no transaction open, malloc that has memory, a transaction that can be opened and an
    -- mdb_put that fails for the record, storage_put of a whole accepted value ends the process:
    -- after the abort the commit's assertion finds no transaction.
    pub put_failure_aborts :
        ((t : M.Txn) → (M.mdb_put t (accepted_iid acc.image) record_of).0 ≢ 0)
        → storage_put M malloc s acc ≡ none
    unfolding storage_put lmdb_storage_tx_begin put_data finish_put lmdb_storage_tx_abort
        lmdb_storage_tx_commit
    put_failure_aborts put =
        let (t, t_eq, same) = L.begin_done s.env begun in
        let bad : ((M.mdb_put t (accepted_iid acc.image) record_of).0 == 0) ≡ false =
          ground (arith, put t) in
        rw
          (
            idle,
            begun,
            t_eq,
            lmdb_put_lem M malloc sized plenty acc value ok (record s { txn = some t }),
            bad,
          )
          refl
