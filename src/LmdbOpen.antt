-- ===== src/LmdbOpen.antt =====
-- kpaxos/lmdb_operations.c, the opening and closing of the storage: lmdb_storage_init,
-- lmdb_storage_open and lmdb_storage_close. Which calls of LMDB and of the file system succeed is a
-- parameter, from the number of the call; a handle is named by the number of the call that gave it.
pub mod Init
pub mod Open
mod Tests
use kernel_paxos_persistence.World.{Outcomes, remove}
use kernel_paxos_persistence.Prelude.{
  ℕ, Option, ◌+◌, List, some, Bool, if◌then◌else◌, ◌>>=◌, none, true, ◌∷◌, ◌==◌,
}

-- The environments and transactions of LMDB that are open.
pub record Handles : Type 0 where
  pub calls : ℕ
  pub envs : List ℕ
  pub txns : List ℕ

-- struct lmdb_storage; `dbi` is 0 if there is none.
pub record Session : Type 0 where
  pub env : Option ℕ
  pub txn : Option ℕ
  pub dbi : ℕ

-- The handle of the unnamed database
abbrev pub main_dbi : ℕ
main_dbi = 1

-- mdb_txn_abort and mdb_env_close; to end what is not open is undefined.
unfoldable pub txn_abort : Handles → ℕ → Option Handles
txn_abort h t = do txns ← remove t h.txns; some (record h { txns = txns })

unfoldable pub env_close : Handles → ℕ → Option Handles
env_close h e = do envs ← remove e h.envs; some (record h { envs = envs })

unfoldable pub abort_if : Handles → Option ℕ → Option Handles
abort_if h none = some h
abort_if h (some t) = txn_abort h t

unfoldable pub close_if : Handles → Option ℕ → Option Handles
close_if h none = some h
close_if h (some e) = env_close h e

-- mdb_close has no effect on the handles.
unfoldable pub lmdb_storage_close : Handles → Session → Option Handles
unfolding abort_if close_if
lmdb_storage_close h s = do h₁ ← abort_if h s.txn; close_if h₁ s.env

-- The label `error` of lmdb_storage_init; 1 is for -1.
unfoldable pub init_error : Handles → Session → Option ℕ → Option ℕ → Option (ℕ × Session × Handles)
unfolding abort_if close_if
init_error h s txn env = do h₁ ← abort_if h txn; h₂ ← close_if h₁ env; some (1, s, h₂)

abbrev pub next_call : Handles → Handles
next_call h = record h { calls = h.calls + 1 }

-- The end of lmdb_storage_open; 1 is for -1. The storage is closed when it could not be opened.
unfoldable pub close_failed : Handles → Session → Option (ℕ × Session × Handles)
close_failed h s = do h' ← lmdb_storage_close h s; some (1, s, h')

module _ (succeeds : Outcomes) where
  -- mdb_txn_commit ends the transaction also when it fails, but `txn` keeps its handle.
  unfoldable pub init_commit : Handles → Session → ℕ → ℕ → Option (ℕ × Session × Handles)
  init_commit h s e t = do
    txns ← remove t h.txns
    let h' = record (next_call h) { txns = txns }
    if succeeds h.calls
        then some (0, record s { env = some e; dbi = main_dbi }, h')
        else init_error h' s (some t) (some e)

  -- mdb_set_compare, mdb_open and mdb_txn_begin
  unfoldable pub init_compare : Handles → Session → ℕ → ℕ → Option (ℕ × Session × Handles)
  init_compare h s e t =
      if succeeds h.calls
      then init_commit (next_call h) s e t
      else init_error (next_call h) s (some t) (some e)

  unfoldable pub init_open_db : Handles → Session → ℕ → ℕ → Option (ℕ × Session × Handles)
  init_open_db h s e t =
      if succeeds h.calls
      then init_compare (next_call h) s e t
      else init_error (next_call h) s (some t) (some e)

  unfoldable pub init_begin : Handles → Session → ℕ → Option (ℕ × Session × Handles)
  init_begin h s e =
      if succeeds h.calls
      then init_open_db (record (next_call h) { txns = h.calls ∷ h.txns }) s e h.calls
      else init_error (next_call h) s none (some e)

  -- mdb_env_open, mdb_env_set_mapsize and mdb_env_create
  unfoldable pub init_env_open : Handles → Session → ℕ → Option (ℕ × Session × Handles)
  init_env_open h s e =
      if succeeds h.calls
      then init_begin (next_call h) s e
      else init_error (next_call h) s none (some e)

  unfoldable pub init_mapsize : Handles → Session → ℕ → Option (ℕ × Session × Handles)
  init_mapsize h s e =
      if succeeds h.calls
      then init_env_open (next_call h) s e
      else init_error (next_call h) s none (some e)

  unfoldable pub init_create : Handles → Session → Option (ℕ × Session × Handles)
  init_create h s =
      if succeeds h.calls
      then init_mapsize (record (next_call h) { envs = h.calls ∷ h.envs }) s h.calls
      else init_error (next_call h) s none none

  -- stat, and mkdir if the directory is not there
  unfoldable pub make_dir : Handles → Bool × Handles
  make_dir h =
      if succeeds h.calls
      then (true, next_call h)
      else (succeeds (h.calls + 1), next_call (next_call h))

  unfoldable pub lmdb_storage_init : Handles → Session → Option (ℕ × Session × Handles)
  lmdb_storage_init h s =
      let (there, h') = make_dir h in if there then init_create h' s else init_error h' s none none

  unfoldable pub lmdb_storage_open : Handles → Session → Option (ℕ × Session × Handles)
  lmdb_storage_open h s =
      let (there, h') = make_dir h in
      if there
      then (lmdb_storage_init h' s >>= λ (result, s', h'').
          if result == 0 then some (0, s', h'') else close_failed h'' s')
      else close_failed h' s
