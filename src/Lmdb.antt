-- ===== src/Lmdb.antt =====
-- kpaxos/lmdb_operations.c: the storage, a table from instances to accepted values that LMDB keeps.
-- LMDB itself is a parameter, with its documented behaviour.
pub mod Store
pub mod Order
mod Tests
use kernel_paxos_persistence.Types.{sizeof_int, accepted_iid}
use kernel_paxos_persistence.Codec.{
  Malloc, Accepted, paxos_accepted_to_buffer, buffer_to_paxos_accepted, accepted_size,
}
use kernel_paxos_persistence.Memory.{Bytes, load32}
use kernel_paxos_persistence.Prelude.{
  ℕ, Option, none, ℤ, some, [], ◌≡◌, ◌≢◌, if◌then◌else◌, ◌>>=◌, length, ◌==◌, take, ◌&&◌, pos, ltb,
  negsuc,
}

-- What the code calls of LMDB. `Db` is an environment with its one database, `Txn` a write
-- transaction. Every call but the abort gives a result code, 0 for success.
pub record Lmdb : Type 1 where
  pub Db : Type 0
  pub Txn : Type 0
  pub mdb_txn_begin : Db → ℕ × Option Txn
  pub mdb_txn_commit : Db → Txn → ℕ × Db
  pub mdb_txn_abort : Db → Txn → Db
  pub mdb_put : Txn → ℕ → Bytes → ℕ × Txn
  pub mdb_get : Txn → ℕ → ℕ × Bytes

-- What a database and a transaction hold, and the documented effect of the calls on it: a
-- transaction begins with what was committed last, and only a commit that succeeds changes that.
pub record LmdbLaws (M : Lmdb) : Type 0 where
  pub contents : M.Db → ℕ → Option Bytes
  pub view : M.Txn → ℕ → Option Bytes
  pub begin_done :
      (db : M.Db)
      → (M.mdb_txn_begin db).0 ≡ 0
      → (t : M.Txn) × ((M.mdb_txn_begin db).1 ≡ some t) × ((k : ℕ) → view t k ≡ contents db k)
  pub begin_failed : (db : M.Db) → (M.mdb_txn_begin db).0 ≢ 0 → (M.mdb_txn_begin db).1 ≡ none
  pub commit_done :
      (db : M.Db) (t : M.Txn)
      → (M.mdb_txn_commit db t).0 ≡ 0
      → (k : ℕ) → contents (M.mdb_txn_commit db t).1 k ≡ view t k
  pub commit_failed :
      (db : M.Db) (t : M.Txn)
      → (M.mdb_txn_commit db t).0 ≢ 0
      → (k : ℕ) → contents (M.mdb_txn_commit db t).1 k ≡ contents db k
  pub abort_lem :
      (db : M.Db) (t : M.Txn) (k : ℕ) → contents (M.mdb_txn_abort db t) k ≡ contents db k
  pub put_self :
      (t : M.Txn) (k : ℕ) (b : Bytes)
      → (M.mdb_put t k b).0 ≡ 0
      → view (M.mdb_put t k b).1 k ≡ some b
  pub put_ne :
      (t : M.Txn) (k i : ℕ) (b : Bytes)
      → (M.mdb_put t k b).0 ≡ 0
      → k ≢ i
      → view (M.mdb_put t k b).1 i ≡ view t i
  pub get_found : (t : M.Txn) (k : ℕ) (b : Bytes) → view t k ≡ some b → M.mdb_get t k ≡ (0, b)
  pub get_missing : (t : M.Txn) (k : ℕ) → view t k ≡ none → (M.mdb_get t k).0 ≢ 0

-- EINVAL, which LMDB gives for a transaction that is NULL
abbrev pub einval : ℕ
einval = 22

-- struct lmdb_storage; there is one database in the environment, so `dbi` is left out.
pub record LmdbStorage (M : Lmdb) : Type 0 where
  pub env : M.Db
  pub txn : Option M.Txn
  pub acceptor_id : ℕ

-- The order that the table's keys are compared with, as the sign of an int.
unfoldable pub lmdb_compare_iid : Bytes → Bytes → Option ℤ
lmdb_compare_iid lhs rhs =
    if length lhs == sizeof_int && length rhs == sizeof_int
    then (let lid = load32 lhs 0 in
        let rid = load32 rhs 0 in
        some (if lid == rid then pos 0 else if ltb lid rid then negsuc 0 else pos 1))
    else none

module _ (M : Lmdb) where
  -- An assertion that fails ends the process: `none`.
  unfoldable pub lmdb_storage_tx_begin : LmdbStorage M → Option (ℕ × LmdbStorage M)
  lmdb_storage_tx_begin s = elim s.txn [
    | none ↦ let (code, txn) = M.mdb_txn_begin s.env in some (code, record s { txn = txn })
    | some t ↦ none
  ]

  unfoldable pub lmdb_storage_tx_commit : LmdbStorage M → Option (ℕ × LmdbStorage M)
  lmdb_storage_tx_commit s = elim s.txn [
    | none ↦ none
    | some t ↦
        let (code, env) = M.mdb_txn_commit s.env t in
        some (code, record s { env = env; txn = none })
  ]

  unfoldable pub lmdb_storage_tx_abort : LmdbStorage M → LmdbStorage M
  lmdb_storage_tx_abort s = elim s.txn [
    | none ↦ s
    | some t ↦ record s { env = M.mdb_txn_abort s.env t; txn = none }
  ]

  -- mdb_put and mdb_get on the transaction that the storage has, or on NULL.
  unfoldable pub put_data : LmdbStorage M → ℕ → Bytes → ℕ × LmdbStorage M
  put_data s iid value = elim s.txn [
    | none ↦ (einval, s)
    | some t ↦ let (code, t') = M.mdb_put t iid value in (code, record s { txn = some t' })
  ]

  unfoldable pub get_data : LmdbStorage M → ℕ → ℕ × Bytes
  get_data s iid = elim s.txn [ none ↦ (einval, []) | some t ↦ M.mdb_get t iid ]

  module _ (malloc : Malloc) where
    -- The data are the structure and the value, `accepted_size` bytes; NULL is read if there is no
    -- memory for them.
    unfoldable pub lmdb_storage_put : LmdbStorage M → Accepted → Option (ℕ × LmdbStorage M)
    lmdb_storage_put s acc = do
      allocated ← paxos_accepted_to_buffer malloc acc
      buffer ← allocated
      some (put_data s (accepted_iid acc.image) (take (accepted_size acc) buffer))

    -- 1 if the record was found, and it must then be the one asked for.
    unfoldable pub lmdb_storage_get : LmdbStorage M → ℕ → Accepted → Option (ℕ × Accepted)
    lmdb_storage_get s iid out =
        let (code, found) = get_data s iid in
        if code == 0
        then (buffer_to_paxos_accepted malloc found out >>= λ acc.
            if iid == accepted_iid acc.image then some (1, acc) else none)
        else some (0, out)
