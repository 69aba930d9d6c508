-- ===== src/LmdbOpen/Open.antt =====
-- lmdb_storage_open and lmdb_storage_close, for a structure that has been cleared.
use kernel_paxos_persistence.KernelDevice.Stages.{remove_head}
use kernel_paxos_persistence.LmdbOpen.Init.{IsOpened, make_dir_keeps, init-IsOpened}
use kernel_paxos_persistence.Prelude.{
  ◌≡◌, none, some, ℕ, ◌+◌, ◌∷◌, true, Returns, Bool-cases, inl, refl, Returns-bind, ◌∙◌, ap, inr,
}
use kernel_paxos_persistence.LmdbOpen.{
  Handles, Session, close_failed, lmdb_storage_open, lmdb_storage_close, env_close, make_dir,
  main_dbi, lmdb_storage_init,
}
use kernel_paxos_persistence.World.{Outcomes}

module _ (succeeds : Outcomes) (h : Handles) (s : Session) (no_env : s.env ≡ none)
    (no_txn : s.txn ≡ none) where
  close_nothing : (h' : Handles) → close_failed h' s ≡ some (1, s, h')
  unfolding close_failed lmdb_storage_close
  close_nothing h' = rw (no_txn, no_env) refl

  -- For a structure that has been cleared, and whatever else of the calls of LMDB and of the file
  -- system fails, if the commit of lmdb_storage_init succeeds then lmdb_storage_open returns: 0,
  -- with one environment more, which the structure has, and no transaction left; or an error, with
  -- the structure and the open handles as they were.
  pub open-IsOpened :
      succeeds ((make_dir succeeds (make_dir succeeds h).1).1.calls + 6) ≡ true
      → Returns (lmdb_storage_open succeeds h s) (IsOpened h s)
  unfolding lmdb_storage_open IsOpened
  open-IsOpened c =
      let h' = (make_dir succeeds h).1 in
      let (f, g) = make_dir_keeps h s succeeds in
      elim (Bool-cases (make_dir succeeds h).0) [
        | inl there ↦ rw there (
            Returns-bind (IsOpened h' s) (IsOpened h s) (lmdb_storage_init succeeds h' s) _
              (init-IsOpened h' s succeeds c)
              λ (r, s', h'') opened. elim opened [
                | inl (r_eq, (e, s_eq, envs), txns) ↦
                    rw r_eq (inl (refl, (e, s_eq, envs ∙ ap (λ l. e ∷ l) f), txns ∙ g))
                | inr (r_eq, s_eq, envs, txns) ↦
                    rw (r_eq, s_eq, close_nothing h'') (inr (refl, refl, envs ∙ f, txns ∙ g))
              ])
        | inr failed ↦ rw (failed, close_nothing h') (inr (refl, refl, f, g))
      ]

  -- What was opened is closed again, and nothing else.
  pub open_then_close :
      (e : ℕ) (h' : Handles)
      → h'.envs ≡ e ∷ h.envs
      → h'.txns ≡ h.txns
      → Returns
          (lmdb_storage_close h' (record s { env = some e; dbi = main_dbi }))
          λ h''. (h''.envs ≡ h.envs) × (h''.txns ≡ h.txns)
  unfolding lmdb_storage_close env_close
  open_then_close e h' f g = rw (no_txn, f, remove_head e h.envs) (refl, g)
