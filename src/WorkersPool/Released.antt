-- ===== src/WorkersPool/Released.antt =====
-- free_pool, for a pool that create_pool has made.
use kernel_paxos_persistence.KernelDevice.Exit.{persistence_device_destroy}
use kernel_paxos_persistence.WorkersPool.Create.{create_steps}
use kernel_paxos_persistence.World.{World, is_live, Outcomes, contains, kthread_stop, vfree}
use kernel_paxos_persistence.Prelude.{
  List, ℕ, ◌≡◌, true, ◌+◌, Returns, map, ◌∙◌, arith, ◌∷◌, Returns-bind, Returns-map, refl, [], ap,
}
use kernel_paxos_persistence.WorkersPool.{
  stop_threads, free_blocks, free_pool, free_workers_threads, free_workers, create_pool, block,
  array,
}
use kernel_paxos_persistence.World.Count.{
  count, vfree_lem, kthread_stop_lem, contains_lem, IsPermuted, count_self,
}

stop_threads_lem :
    (ts : List ℕ) (w : World) (m : ℕ → ℕ)
    → ((y : ℕ) → count y w.running ≡ count y ts + m y)
    → Returns
        (stop_threads w (map block ts))
        λ w'. ((y : ℕ) → count y w'.running ≡ m y) × (w'.live ≡ w.live)
unfolding stop_threads
stop_threads_lem [] w m h = (λ y. h y ∙ omega arith, refl)
stop_threads_lem (t ∷ ts) w m h =
    Returns-bind _ _ (kthread_stop w t) _
      (kthread_stop_lem w t (λ y. count y ts + m y) (λ y. omega (arith, h y)))
      λ w₁ (h₁, l₁).
        Returns-map _ _ (stop_threads w₁ (map block ts)) (stop_threads_lem ts w₁ m h₁)
          λ w₂ (h₂, l₂). (h₂, l₂ ∙ l₁)

free_blocks_lem :
    (ps : List ℕ) (w : World) (m : ℕ → ℕ)
    → ((y : ℕ) → count y w.live ≡ count y ps + m y)
    → Returns
        (free_blocks w (map block ps))
        λ w'. ((y : ℕ) → count y w'.live ≡ m y) × (w'.running ≡ w.running)
unfolding free_blocks
free_blocks_lem [] w m h = (λ y. h y ∙ omega arith, refl)
free_blocks_lem (p ∷ ps) w m h =
    Returns-bind _ _ (vfree w p) _ (vfree_lem w p (λ y. count y ps + m y) (λ y. omega (arith, h y)))
      λ w₁ (h₁, r₁).
        Returns-map _ _ (free_blocks w₁ (map block ps)) (free_blocks_lem ps w₁ m h₁)
          λ w₂ (h₂, r₂). (h₂, r₂ ∙ r₁)

threads_lem :
    (t : ℕ) (ts : List ℕ) (w : World) (m k : ℕ → ℕ)
    → ((y : ℕ) → count y w.live ≡ count y (t ∷ []) + m y)
    → ((y : ℕ) → count y w.running ≡ count y ts + k y)
    → Returns
        (free_workers_threads w (array t (map block ts)))
        λ w'. ((y : ℕ) → count y w'.live ≡ m y) × ((y : ℕ) → count y w'.running ≡ k y)
unfolding free_workers_threads
threads_lem t ts w m k h r =
    Returns-bind _ _ (stop_threads w (map block ts)) _ (stop_threads_lem ts w k r) λ w₁ (r₁, l₁).
      Returns-map _ _ (vfree w₁ t) (vfree_lem w₁ t m (λ y. ap (count y) l₁ ∙ h y))
        λ w₂ (l₂, r₂). (l₂, λ y. ap (count y) r₂ ∙ r₁ y)

workers_lem :
    (a : ℕ) (ps : List ℕ) (w : World) (m : ℕ → ℕ)
    → ((y : ℕ) → count y w.live ≡ count y (a ∷ ps) + m y)
    → Returns
        (free_workers w (array a (map block ps)))
        λ w'. ((y : ℕ) → count y w'.live ≡ m y) × (w'.running ≡ w.running)
unfolding free_workers
workers_lem a ps w m h =
    Returns-bind _ _ (free_blocks w (map block ps)) _
      (free_blocks_lem ps w (λ y. count y (a ∷ []) + m y) (λ y. omega (arith, h y)))
      λ w₁ (h₁, r₁). Returns-map _ _ (vfree w₁ a) (vfree_lem w₁ a m h₁) λ w₂ (h₂, r₂). (h₂, r₂ ∙ r₁)

-- When all allocations and threads succeed, persistence_device_destroy of the pool that create_pool
-- returns uses nothing that is not allocated or does not run, and leaves exactly the blocks and the
-- threads that there were before, in some order.
pub pool_is_released :
    (succeeds : Outcomes) (w : World) (n : ℕ)
    → ((k : ℕ) → succeeds k ≡ true)
    → Returns (create_pool succeeds w n) λ (pool, w').
      Returns
        (persistence_device_destroy w' pool)
        λ w''. IsPermuted w''.live w.live × IsPermuted w''.running w.running
unfolding free_pool is_live persistence_device_destroy
pool_is_released succeeds w n all =
    let (a, workers, t, threads, w₀, created, _, more) = create_steps succeeds all w n in
    let self = count_self w.calls w.calls (t ∷ a ∷ workers) refl in
    let there : contains w₀.live w.calls ≡ true =
      contains_lem w.calls w₀.live (omega (arith, more.live w.calls, self)) in
    rw (created, there)
      (Returns-bind _ _ (free_workers_threads w₀ (array t (map block threads))) _
        (threads_lem t threads w₀ (λ y. count y (w.calls ∷ a ∷ workers) + count y w.live)
          (λ y. count y w.running) (λ y. omega (arith, more.live y)) more.running)
        λ w₁ (l₁, r₁).
          Returns-bind _ _ (free_workers w₁ (array a (map block workers))) _
            (workers_lem a workers w₁ (λ y. count y (w.calls ∷ []) + count y w.live)
              (λ y. omega (arith, l₁ y)))
            λ w₂ (l₂, r₂).
              Returns-map _ _ (vfree w₂ w.calls) (vfree_lem w₂ w.calls (λ y. count y w.live) l₂)
                λ w₃ (l₃, r₃). (l₃, λ y. ap (count y) (r₃ ∙ r₂) ∙ r₁ y))
