-- ===== src/LmdbOpen/Init.antt =====
-- lmdb_storage_init, for every outcome of its calls.
use kernel_paxos_persistence.KernelDevice.Stages.{remove_head}
use kernel_paxos_persistence.World.{Outcomes}
use kernel_paxos_persistence.Prelude.{
  ℕ, suc, ◌≡◌, ◌+◌, some, Returns, true, Bool-cases, ◌∷◌, none, ap, inl, inr, arith, ◌⊎◌, ◌∙◌, refl,
}
use kernel_paxos_persistence.LmdbOpen.{
  Handles, Session, init_error, env_close, init_commit, init_compare, init_open_db, init_begin,
  init_env_open, init_mapsize, init_create, make_dir, lmdb_storage_init, main_dbi, txn_abort,
  next_call,
}

-- An environment more and a session that has it, or the same handles and session.
unfoldable pub IsOpened : Handles → Session → ℕ × Session × Handles → Type 0
IsOpened h₀ s₀ (r, s, h) =
    ((r ≡ 0)
      × ((e : ℕ) × (s ≡ record s₀ { env = some e; dbi = main_dbi }) × (h.envs ≡ e ∷ h₀.envs))
      × (h.txns ≡ h₀.txns))
    ⊎ ((r ≡ 1) × (s ≡ s₀) × (h.envs ≡ h₀.envs) × (h.txns ≡ h₀.txns))

module _ (h₀ : Handles) (s : Session) where
  error_both :
      (h : Handles) (e t : ℕ)
      → h.envs ≡ e ∷ h₀.envs
      → h.txns ≡ t ∷ h₀.txns
      → Returns (init_error h s (some t) (some e)) (IsOpened h₀ s)
  unfolding init_error txn_abort env_close IsOpened
  error_both h e t f g =
      rw (g, remove_head t h₀.txns, f, remove_head e h₀.envs) (inr (refl, refl, refl, refl))

  error_env :
      (h : Handles) (e : ℕ)
      → h.envs ≡ e ∷ h₀.envs
      → h.txns ≡ h₀.txns
      → Returns (init_error h s none (some e)) (IsOpened h₀ s)
  unfolding init_error env_close IsOpened
  error_env h e f g = rw (f, remove_head e h₀.envs) (inr (refl, refl, refl, g))

  error_none :
      (h : Handles)
      → h.envs ≡ h₀.envs
      → h.txns ≡ h₀.txns
      → Returns (init_error h s none none) (IsOpened h₀ s)
  unfolding init_error IsOpened
  error_none h f g = inr (refl, refl, f, g)

  module _ (succeeds : Outcomes) where
    -- The commit is `k` calls later, and succeeds.
    abbrev Commits : Handles → ℕ → Type 0
    Commits h k = succeeds (h.calls + k) ≡ true

    later : (h : Handles) (k : ℕ) → Commits h (suc k) → succeeds (h.calls + 1 + k) ≡ true
    later h k c = ap succeeds (omega arith) ∙ c

    commit_lem :
        (h : Handles) (e t : ℕ)
        → h.envs ≡ e ∷ h₀.envs
        → h.txns ≡ t ∷ h₀.txns
        → Commits h 0
        → Returns (init_commit succeeds h s e t) (IsOpened h₀ s)
    unfolding init_commit IsOpened
    commit_lem h e t f g c =
        let made : succeeds h.calls ≡ true = ap succeeds (omega arith) ∙ c in
        rw (g, remove_head t h₀.txns, made) (inl (refl, (e, refl, f), refl))

    compare_lem :
        (h : Handles) (e t : ℕ)
        → h.envs ≡ e ∷ h₀.envs
        → h.txns ≡ t ∷ h₀.txns
        → Commits h 1
        → Returns (init_compare succeeds h s e t) (IsOpened h₀ s)
    unfolding init_compare
    compare_lem h e t f g c = elim (Bool-cases (succeeds h.calls)) [
      | inl made ↦ rw made (commit_lem (next_call h) e t f g (later h 0 c))
      | inr failed ↦ rw failed (error_both (next_call h) e t f g)
    ]

    open_db_lem :
        (h : Handles) (e t : ℕ)
        → h.envs ≡ e ∷ h₀.envs
        → h.txns ≡ t ∷ h₀.txns
        → Commits h 2
        → Returns (init_open_db succeeds h s e t) (IsOpened h₀ s)
    unfolding init_open_db
    open_db_lem h e t f g c = elim (Bool-cases (succeeds h.calls)) [
      | inl made ↦ rw made (compare_lem (next_call h) e t f g (later h 1 c))
      | inr failed ↦ rw failed (error_both (next_call h) e t f g)
    ]

    begin_lem :
        (h : Handles) (e : ℕ)
        → h.envs ≡ e ∷ h₀.envs
        → h.txns ≡ h₀.txns
        → Commits h 3
        → Returns (init_begin succeeds h s e) (IsOpened h₀ s)
    unfolding init_begin
    begin_lem h e f g c = elim (Bool-cases (succeeds h.calls)) [
      | inl made ↦ rw made (
          open_db_lem (record (next_call h) { txns = h.calls ∷ h.txns }) e h.calls f
            (ap (λ l. h.calls ∷ l) g) (later h 2 c))
      | inr failed ↦ rw failed (error_env (next_call h) e f g)
    ]

    env_open_lem :
        (h : Handles) (e : ℕ)
        → h.envs ≡ e ∷ h₀.envs
        → h.txns ≡ h₀.txns
        → Commits h 4
        → Returns (init_env_open succeeds h s e) (IsOpened h₀ s)
    unfolding init_env_open
    env_open_lem h e f g c = elim (Bool-cases (succeeds h.calls)) [
      | inl made ↦ rw made (begin_lem (next_call h) e f g (later h 3 c))
      | inr failed ↦ rw failed (error_env (next_call h) e f g)
    ]

    mapsize_lem :
        (h : Handles) (e : ℕ)
        → h.envs ≡ e ∷ h₀.envs
        → h.txns ≡ h₀.txns
        → Commits h 5
        → Returns (init_mapsize succeeds h s e) (IsOpened h₀ s)
    unfolding init_mapsize
    mapsize_lem h e f g c = elim (Bool-cases (succeeds h.calls)) [
      | inl made ↦ rw made (env_open_lem (next_call h) e f g (later h 4 c))
      | inr failed ↦ rw failed (error_env (next_call h) e f g)
    ]

    create_lem :
        (h : Handles)
        → h.envs ≡ h₀.envs
        → h.txns ≡ h₀.txns
        → Commits h 6
        → Returns (init_create succeeds h s) (IsOpened h₀ s)
    unfolding init_create
    create_lem h f g c = elim (Bool-cases (succeeds h.calls)) [
      | inl made ↦ rw made (
          mapsize_lem (record (next_call h) { envs = h.calls ∷ h.envs }) h.calls
            (ap (λ l. h.calls ∷ l) f) g (later h 5 c))
      | inr failed ↦ rw failed (error_none (next_call h) f g)
    ]

    pub make_dir_keeps :
        ((make_dir succeeds h₀).1.envs ≡ h₀.envs) × ((make_dir succeeds h₀).1.txns ≡ h₀.txns)
    unfolding make_dir
    make_dir_keeps = elim (Bool-cases (succeeds h₀.calls)) [
      | inl made ↦ rw made (refl, refl)
      | inr failed ↦ rw failed (refl, refl)
    ]

    pub init-IsOpened :
        Commits (make_dir succeeds h₀).1 6
        → Returns (lmdb_storage_init succeeds h₀ s) (IsOpened h₀ s)
    unfolding lmdb_storage_init
    init-IsOpened c =
        let (f, g) = make_dir_keeps in
        elim (Bool-cases (make_dir succeeds h₀).0) [
          | inl there ↦ rw there (create_lem (make_dir succeeds h₀).1 f g c)
          | inr failed ↦ rw failed (error_none (make_dir succeeds h₀).1 f g)
        ]
