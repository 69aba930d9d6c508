-- ===== src/LmdbOpen/Tests.antt =====
-- Openings of the storage.
use kernel_paxos_persistence.LmdbOpen.Open.{open-IsOpened}
use kernel_paxos_persistence.LmdbOpen.Init.{IsOpened}
use kernel_paxos_persistence.Prelude.{
  none, [], if◌then◌else◌, Returns, ◌==◌, false, true, ◌≡◌, refl,
}
use kernel_paxos_persistence.World.{Outcomes, remove}
use kernel_paxos_persistence.LmdbOpen.{
  Handles, Session, make_dir, lmdb_storage_init, init_create, lmdb_storage_open, init_mapsize,
  init_env_open, init_begin, init_open_db, init_compare, init_commit, init_error, txn_abort,
  env_close,
}

abbrev no_handles : Handles
no_handles = record { calls = 0; envs = []; txns = [] }

abbrev cleared : Session
cleared = record { env = none; txn = none; dbi = 0 }

-- The transaction cannot be begun.
abbrev no_txn : Outcomes
no_txn n = if n == 5 then false else true

open-IsOpened_example :
    Returns (lmdb_storage_open no_txn no_handles cleared) (IsOpened no_handles cleared)
unfolding make_dir
open-IsOpened_example = open-IsOpened no_txn no_handles cleared refl refl refl

-- When the commit fails, the transaction is aborted after it has ended.
commit_failure : lmdb_storage_init (λ n. if n == 7 then false else true) no_handles cleared ≡ none
unfolding lmdb_storage_init make_dir init_create init_mapsize init_env_open init_begin init_open_db
    init_compare init_commit init_error txn_abort env_close remove
commit_failure = refl
