-- ===== src/ReadTest/Request.antt =====
-- read_test_write, and the work that it queues.
use kernel_paxos_persistence.WorkersPool.RoundRobin.{
  entry, create_work_lem, add_work_lem, next_worker,
}
use kernel_paxos_persistence.Device.{Callback}
use kernel_paxos_persistence.ReadPersistence.{read_persistence_add_message}
use kernel_paxos_persistence.ReadPersistence.Save.{requested}
use kernel_paxos_persistence.WorkersPool.{WorkersPool, Pointer, array, block}
use kernel_paxos_persistence.Memory.{Bytes}
use kernel_paxos_persistence.ReadTest.{ReadTest, read_test_write, queue_wait, queue_created}
use kernel_paxos_persistence.ReadPersistence.Add.{request_full, request_room, add_message-Keeps}
use kernel_paxos_persistence.Types.{buffer_size, slot_size, accepted_iid}
use kernel_paxos_persistence.Prelude.{
  ◌≢◌, ◌≡◌, some, to_ssize, ◌==◌, false, arith, ℕ, List, get_elem?, true, ◌<◌, ◌≤◌, length, get_or,
  [], Returns, ◌++◌, ◌∷◌, ◌+◌, Returns-bind, Returns-map, refl, ◌∙◌, ap, Returns-and,
}
use kernel_paxos_persistence.Ring.{IsRing, queued}
use kernel_paxos_persistence.World.{Outcomes, queue_kthread_work, World, Work}
use kernel_paxos_persistence.Kernel.{Kernel}

-- A work for the slot `i`, queued with the worker whose turn it is.
queue_wait_lem :
    (K : Kernel) (succeeds : Outcomes) (s : ReadTest) (i len : ℕ) (c : Callback)
    (pool : WorkersPool) (a worker : ℕ) (workers : List Pointer)
    → s.pool ≡ some pool
    → pool.worker ≡ array a workers
    → get_elem? workers pool.current_worker ≡ some (block worker)
    → succeeds s.world.calls ≡ true
    → Returns (queue_wait K succeeds s i c len) λ (r, s').
      (r ≡ to_ssize len)
      × (s'.persistence ≡ s.persistence)
      × (s'.messages_received ≡ s.messages_received + 1)
      × (s'.world.queued_work ≡ entry worker s.world.calls i c.iid s.world.queued_work)
      × (s'.pool ≡ some (next_worker pool))
      × (s'.device ≡ s.device)
unfolding queue_wait queue_kthread_work
queue_wait_lem K succeeds s i len c pool a worker workers pool_eq array_eq worker_eq memory =
    let w : World = record s.world {
      calls = s.world.calls + 1;
      live = s.world.calls ∷ s.world.live;
    } in
    let work : Work = record { address = s.world.calls; param = i; iid = c.iid } in
    rw (create_work_lem succeeds s.world i c.iid memory, queue_created)
      (rw (pool_eq, add_work_lem w pool work a worker workers array_eq worker_eq)
        (refl, refl, refl, refl, refl, refl))

module _ (K : Kernel) (succeeds : Outcomes) (s : ReadTest) (buffer : Bytes) (len : ℕ)
    (ring : IsRing s.persistence) (works : s.device.working ≢ 0) where
  -- With a working device, a well-formed ring that has room, a request that fits into a slot and
  -- has its bytes, memory for a work and a pool whose current worker is there, read_test_write
  -- returns the length, puts the request at the end of the queue, keeps the ring well formed,
  -- counts it as received, and queues with that worker a work for the slot and the instance of the
  -- request.
  pub request_is_queued :
      (pool : WorkersPool) (a worker : ℕ) (workers : List Pointer)
      → s.pool ≡ some pool
      → pool.worker ≡ array a workers
      → get_elem? workers pool.current_worker ≡ some (block worker)
      → succeeds s.world.calls ≡ true
      → s.persistence.used_buf < buffer_size
      → len ≤ slot_size
      → len ≤ length buffer
      → let request =
          requested (get_or s.persistence.msg_buf s.persistence.current_buf []) buffer len in
        Returns (read_test_write K succeeds s buffer len) λ (r, s').
          (r ≡ to_ssize len)
          × IsRing s'.persistence
          × (queued s'.persistence ≡ queued s.persistence ++ (request ∷ []))
          × (s'.messages_received ≡ s.messages_received + 1)
          × (s'.world.queued_work
              ≡ entry worker s.world.calls s.persistence.current_buf
                  (accepted_iid request)
                  s.world.queued_work)
  unfolding read_test_write
  request_is_queued pool a worker workers pool_eq array_eq worker_eq memory room fits there =
      let on : (s.device.working == 0) ≡ false = ground arith in
      rw on (
        Returns-bind _ _ (read_persistence_add_message K s.persistence buffer len) _
          (request_room K s.persistence buffer len ring room fits there)
          λ (callback, d) (r_eq, ring', _, _, q', (c, c_eq, _, iid_eq, _)).
            rw (r_eq, c_eq)
              (Returns-map _ _
                (queue_wait K succeeds (record s { persistence = d }) s.persistence.current_buf c
                  len)
                (queue_wait_lem K succeeds (record s { persistence = d }) s.persistence.current_buf
                  len c pool a worker workers pool_eq array_eq worker_eq memory)
                λ (n, s') (n_eq, d_eq, count_eq, work_eq, _, _). (
                  n_eq,
                  rw d_eq ring',
                  rw d_eq q',
                  count_eq,
                  work_eq
                      ∙ ap
                          (λ (t : ℕ).
                            entry worker s.world.calls s.persistence.current_buf t
                              s.world.queued_work)
                          iid_eq,
                )))

  -- What the next request finds.
  pub request_leaves :
      (pool : WorkersPool) (a worker : ℕ) (workers : List Pointer)
      → s.pool ≡ some pool
      → pool.worker ≡ array a workers
      → get_elem? workers pool.current_worker ≡ some (block worker)
      → succeeds s.world.calls ≡ true
      → s.persistence.used_buf < buffer_size
      → len ≤ slot_size
      → len ≤ length buffer
      → Returns (read_test_write K succeeds s buffer len) λ (r, s').
        (s'.pool ≡ some (next_worker pool))
        × (s'.device ≡ s.device)
        × (s'.persistence.used_buf ≡ s.persistence.used_buf + 1)
        × (s'.persistence.first_buf ≡ s.persistence.first_buf)
        × (s'.persistence.working ≡ s.persistence.working)
  unfolding read_test_write
  request_leaves pool a worker workers pool_eq array_eq worker_eq memory room fits there =
      let on : (s.device.working == 0) ≡ false = ground arith in
      rw on (
        Returns-bind _ _ (read_persistence_add_message K s.persistence buffer len) _
          (Returns-and _ _ (read_persistence_add_message K s.persistence buffer len)
            (request_room K s.persistence buffer len ring room fits there)
            (add_message-Keeps K s.persistence buffer len ring))
          λ (callback, d) ((r_eq, _, used_eq, _, _, (c, c_eq, _, _, _)), (first_eq, works_eq)).
            rw (r_eq, c_eq)
              (Returns-map _ _
                (queue_wait K succeeds (record s { persistence = d }) s.persistence.current_buf c
                  len)
                (queue_wait_lem K succeeds (record s { persistence = d }) s.persistence.current_buf
                  len c pool a worker workers pool_eq array_eq worker_eq memory)
                λ (n, s') (_, d_eq, _, _, pool_eq', device_eq).
                  (pool_eq', device_eq, rw d_eq used_eq, rw d_eq first_eq, rw d_eq works_eq)))

  -- With a working device and a well-formed ring that is full, read_test_write returns the length,
  -- as if all had been written, and changes nothing.
  pub request_is_dropped :
      s.persistence.used_buf ≡ buffer_size
      → read_test_write K succeeds s buffer len ≡ some (to_ssize len, s)
  unfolding read_test_write
  request_is_dropped full =
      let on : (s.device.working == 0) ≡ false = ground arith in
      rw (on, request_full K s.persistence buffer len ring full)
