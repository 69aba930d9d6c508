-- ===== src/WorkersPool/Failure.antt =====
-- create_pool, when one of its calls fails.
use native.Mathlib.Decide.{dec_lt}
use kernel_paxos_persistence.Prelude.{
  ℕ, ◌+◌, ◌<◌, ◌≡◌, true, false, length, suc, arith, none, Bool-cases, zero, inr, inl, ◌≢◌, ap, ◌∙◌,
  ◌-◌, refl, ◌*◌, ◌∷◌,
}
use kernel_paxos_persistence.World.Count.{count, count_ne, count_self}
use kernel_paxos_persistence.World.{Outcomes, World}
use kernel_paxos_persistence.WorkersPool.{
  alloc_workers, start_threads, array, stop_threads, create_pool, new_pool,
}
use kernel_paxos_persistence.WorkersPool.Stopped.{
  with_block, alloc_fails, alloc_calls, start_fails, alloc_live,
}
use kernel_paxos_persistence.WorkersPool.Exits.{
  init_null, init_stopped, init_done, threads_stop, create_stops, create_threads, create_twice,
}

module _ (succeeds : Outcomes) where
  -- When the array of workers and the workers are there, the call that fails is one after them.
  after_workers :
      (w : World) (n j : ℕ)
      → succeeds (w.calls + 1) ≡ true
      → (alloc_workers succeeds (with_block (with_block w)) n).1 ≡ true
      → j ≢ n + 1
      → succeeds (w.calls + 1 + j) ≡ false
      → n + 1 < j
  after_workers w n zero array_there done other failed =
      let same : succeeds (w.calls + 1) ≡ false = ap succeeds (omega arith) ∙ failed in absurd (cc)
  after_workers w n (suc j) array_there done other failed = elim (dec_lt j n) [
    | yes earlier ↦
        let stopped =
          alloc_fails succeeds n j (with_block (with_block w)) earlier
            (ap succeeds (omega arith) ∙ failed) in
        absurd (cc)
    | no later ↦ omega (arith, other, later)
  ]

  -- The threads, when the workers and the array for the threads are there.
  thread_fails :
      (w : World) (n j : ℕ)
      → succeeds w.calls ≡ true
      → succeeds (w.calls + 1) ≡ true
      → (alloc_workers succeeds (with_block (with_block w)) n).1 ≡ true
      → succeeds (alloc_workers succeeds (with_block (with_block w)) n).2.calls ≡ true
      → j < 2 * n + 2
      → succeeds (w.calls + 1 + j) ≡ false
      → create_pool succeeds w n ≡ none
  thread_fails w n j made array_there done array_made h failed =
      let pool = new_pool succeeds w.calls n in
      let workers = alloc_workers succeeds (with_block (with_block w)) n in
      let (calls, size) = alloc_calls succeeds n (with_block (with_block w)) done in
      let at_threads : (with_block workers.2).calls ≡ w.calls + n + 3 = omega (arith, calls) in
      let other : j ≢ n + 1 = λ e.
        let same : succeeds workers.2.calls ≡ false =
          ap succeeds (omega (arith, calls, e)) ∙ failed in
        absurd (cc) in
      let beyond : n + 1 < j = after_workers w n j array_there done other failed in
      let same_call : (with_block workers.2).calls + (j - n - 2) ≡ w.calls + 1 + j =
        omega (arith, at_threads, beyond) in
      let failing : succeeds ((with_block workers.2).calls + (j - n - 2)) ≡ false =
        ap succeeds same_call ∙ failed in
      let within : j - n - 2 < length workers.0 = omega (arith, h, beyond, size) in
      let one_fails : (w₀ : World)
          → (start_threads succeeds (with_block workers.2) workers.0).1 ≡ false
            × (stop_threads w₀ (start_threads succeeds (with_block workers.2) workers.0).0 ≡ none) =
        λ w₀. start_fails succeeds workers.0 (j - n - 2) (with_block workers.2) w₀ within failing in
      create_threads succeeds w n _ workers.2 made
        (init_done succeeds (with_block w) pool array_there done)
        (threads_stop succeeds workers.2
          (record pool { worker = array (with_block w).calls workers.0 }) array_made (one_fails w).0
          (λ w₀. (one_fails w₀).1))

  -- When the struct is allocated, at an address that the account did not have, and any of the 2n +
  -- 2 calls that create_pool makes after it for n workers fails, for one of the two arrays, a
  -- worker or a thread, create_pool has no result: its error path reads memory that was not
  -- written, stops a thread that is not there, or frees the pool twice.
  pub create_pool_failure :
      (w : World) (n j : ℕ)
      → succeeds w.calls ≡ true
      → count w.calls w.live ≡ 0
      → j < 2 * n + 2
      → succeeds (w.calls + 1 + j) ≡ false
      → create_pool succeeds w n ≡ none
  create_pool_failure w n j made fresh h failed =
      let pool = new_pool succeeds w.calls n in
      let w₁ = with_block w in
      let workers = alloc_workers succeeds (with_block w₁) n in
      elim (Bool-cases (succeeds w₁.calls)) [
        | inr null ↦ create_stops succeeds w n 0 _ _ made (init_null succeeds w₁ pool null) refl
        | inl array_there ↦ elim (Bool-cases workers.1) [
          | inr stopped ↦
              create_stops succeeds w n 1 _ _ made
                (init_stopped succeeds w₁ pool array_there stopped) refl
          | inl done ↦ elim (Bool-cases (succeeds workers.2.calls)) [
            | inr null ↦
                create_twice succeeds w n _ workers.2 made
                  (init_done succeeds w₁ pool array_there done) null
                  (omega (
                    arith,
                    alloc_live succeeds n (with_block w₁) w.calls (omega arith) done,
                    count_ne w.calls (w.calls + 1) (w.calls ∷ w.live) (omega arith),
                    count_self w.calls w.calls w.live refl,
                    fresh,
                  ))
            | inl array_made ↦ thread_fails w n j made array_there done array_made h failed
          ]
        ]
      ]
