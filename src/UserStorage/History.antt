-- ===== src/UserStorage/History.antt =====
-- process_write_message over a whole history of messages.
use kernel_paxos_persistence.Lmdb.Store.{lmdb_put_lem}
use kernel_paxos_persistence.Types.{accepted_iid}
use kernel_paxos_persistence.UserStorage.{process_write_message, storage_put, finish_put}
use kernel_paxos_persistence.Memory.{Bytes}
use kernel_paxos_persistence.Prelude.{
  List, ℕ, ◌≡◌, Option, some, ◌∷◌, none, if◌then◌else◌, All, ◌>>=◌, Returns, ◌==◌, [], map, ◌++◌,
  Returns-inv, Returns-map, ◌∙◌, ap, refl, Bool-cases, inl, arith, subst, inr, ◌≢◌,
}
use kernel_paxos_persistence.Codec.RoundTrip.{IsAccepted, IsPlenty}
use kernel_paxos_persistence.Codec.{ClientValue, Malloc, IsMalloc}
use kernel_paxos_persistence.Lmdb.{
  Lmdb, LmdbLaws, LmdbStorage, lmdb_storage_tx_begin, put_data, lmdb_storage_tx_commit,
}
use native.Mathlib.Decide.{}

-- process_write_message for one message after the other.
unfoldable pub process_writes : (M : Lmdb) → Malloc → LmdbStorage M → List ClientValue → Option M.Db
process_writes M malloc s [] = some s.env
process_writes M malloc s (x ∷ xs) =
    process_write_message M malloc s x >>= λ db. process_writes M malloc (record s { env = db }) xs

-- A message with the value that stands behind its pointer.
abbrev pub Sent : Type 0
Sent = ClientValue × Bytes

abbrev pub IsSent : Sent → Type 0
IsSent x = IsAccepted x.0.value x.1

-- The record of the instance `i` after the messages, when it was `old` before them.
unfoldable pub last_record : List Sent → ℕ → Option Bytes → Option Bytes
last_record [] i old = old
last_record (x ∷ xs) i old =
    last_record xs i
      (if accepted_iid x.0.value.image == i then some (x.0.value.image ++ x.1) else old)

-- LMDB in which every call succeeds.
pub record IsWorking (M : Lmdb) : Type 0 where
  pub begins : (db : M.Db) → (M.mdb_txn_begin db).0 ≡ 0
  pub puts : (t : M.Txn) (k : ℕ) (b : Bytes) → (M.mdb_put t k b).0 ≡ 0
  pub commits : (db : M.Db) (t : M.Txn) → (M.mdb_txn_commit db t).0 ≡ 0

module _ (M : Lmdb) (L : LmdbLaws M) (works : IsWorking M) (malloc : Malloc)
    (sized : IsMalloc malloc) (plenty : IsPlenty malloc) where
  pub write_lem :
      (s : LmdbStorage M) (x : Sent)
      → s.txn ≡ none
      → IsSent x
      → Returns (process_write_message M malloc s x.0) λ db.
        (i : ℕ)
        → L.contents db i ≡ (
            if accepted_iid x.0.value.image == i
            then some (x.0.value.image ++ x.1)
            else L.contents s.env i)
  unfolding process_write_message storage_put lmdb_storage_tx_begin put_data finish_put
      lmdb_storage_tx_commit
  write_lem s x idle ok =
      let acc = x.0.value in
      let iid = accepted_iid acc.image in
      let b = acc.image ++ x.1 in
      let (t, t_eq, same) = L.begin_done s.env (works.begins s.env) in
      let t' = (M.mdb_put t iid b).1 in
      rw
        (
          idle,
          works.begins s.env,
          t_eq,
          lmdb_put_lem M malloc sized plenty acc x.1 ok (record s { txn = some t }),
          works.puts t iid b,
        )
        (λ i. L.commit_done s.env t' (works.commits s.env t') i ∙ elim (Bool-cases (iid == i)) [
          | inl hit ↦
              let e : iid ≡ i = ground arith in
              rw hit (subst (λ k. L.view t' k ≡ some b) e (L.put_self t iid b (works.puts t iid b)))
          | inr miss ↦
              let ne : iid ≢ i = ground arith in
              rw miss (L.put_ne t iid i b (works.puts t iid b) ne ∙ same i)
        ])

  -- With no transaction open, malloc that has memory and LMDB whose calls succeed,
  -- process_write_message for one message of a whole accepted value after the other returns, and
  -- the table then has under each instance the structure and the value of the last message of that
  -- instance, or what it had before if there was none.
  pub process_writes_lem :
      (xs : List Sent) (s : LmdbStorage M)
      → s.txn ≡ none
      → All IsSent xs
      → Returns
          (process_writes M malloc s (map (λ (x : Sent). x.0) xs))
          λ db. (i : ℕ) → L.contents db i ≡ last_record xs i (L.contents s.env i)
  unfolding process_writes last_record
  process_writes_lem [] s idle ok = λ i. refl
  process_writes_lem (x ∷ xs) s idle ok =
      let (db, e, after) =
        Returns-inv _ (process_write_message M malloc s x.0) (write_lem s x idle ok.0) in
      rw e (
        Returns-map _ _
          (process_writes M malloc (record s { env = db }) (map (λ (x : Sent). x.0) xs))
          (process_writes_lem xs (record s { env = db }) idle ok.1)
          (λ db' h i. h i ∙ ap (last_record xs i) (after i)))
