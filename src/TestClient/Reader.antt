-- ===== src/TestClient/Reader.antt =====
-- readProcess of testekerneldevice.c on the read test device: its loop, and the whole process.
use kernel_paxos_persistence.TestClient.Requests.{
  count_from, HasRoom, IsAsked, new_request_lem, request_lem, write_accepted_lem, while_open_lem,
}
use kernel_paxos_persistence.ReadTest.Request.{request_is_queued, request_leaves}
use kernel_paxos_persistence.World.{Outcomes}
use kernel_paxos_persistence.Kernel.{Kernel}
use kernel_paxos_persistence.ReadPersistence.Save.{requested}
use kernel_paxos_persistence.System.Received.{IsRequest}
use kernel_paxos_persistence.WorkersPool.RoundRobin.{get_elem?-map_block, next_worker}
use kernel_paxos_persistence.WorkersPool.{block}
use kernel_paxos_persistence.Codec.RoundTrip.{IsPlenty}
use kernel_paxos_persistence.Types.{buffer_size, accepted_iid}
use kernel_paxos_persistence.Ring.{queued}
use kernel_paxos_persistence.ReadTest.{
  ReadTest, read_test_fops, read_test_write, read_test_open, read_test_release,
}
use kernel_paxos_persistence.Codec.{Malloc, IsMalloc, Accepted}
use kernel_paxos_persistence.Prelude.{
  ℕ, [], suc, ◌+◌, ◌∷◌, ◌≤◌, ◌≡◌, ◌<◌, ◌++◌, ◌^◌, zero, refl, map, Returns, some, length, arith,
  ◌∙◌, true, pos, Returns-inv, sym, length-append, Returns-map, ap, get_or, ap₂, All-append,
  Returns-at, false, Returns-bind,
}
use kernel_paxos_persistence.TestClient.{new_request, write_accepted, write_all, read_process}
use mathlib.Core.List.{append-nil, append_assoc, map-append}

module _ (malloc : Malloc) (sized : IsMalloc malloc) (plenty : IsPlenty malloc) (K : Kernel)
    (succeeds : Outcomes) (all : (n : ℕ) → succeeds n ≡ true) where
  -- One request.
  pub one_request :
      (s : ReadTest) (k i : ℕ)
      → HasRoom s (suc k)
      → i < 2 ^ 32
      → (acc : Accepted) × (s' : ReadTest) × (new_request malloc i ≡ some acc)
        × (write_accepted (read_test_fops K succeeds) malloc s acc ≡ some (pos 40, s'))
        × HasRoom s' k
        × IsAsked s s' i 1
        × (s'.device ≡ s.device)
  unfolding read_test_fops count_from
  one_request s k i ok small =
      let (acc, e, (acc_ok, iid_eq)) =
        Returns-inv _ (new_request malloc i) (new_request_lem malloc sized plenty i small) in
      let msg = acc.image ++ [] in
      let room : s.persistence.used_buf < buffer_size = omega (arith, ok.room) in
      let there : 40 ≤ length msg = omega (arith, length-append acc.image [], acc_ok.whole) in
      let workers = ok.has_workers in
      let worker_eq = get_elem?-map_block ok.workers ok.pool.current_worker workers.turn_in in
      let request = requested (get_or s.persistence.msg_buf s.persistence.current_buf []) msg 40 in
      let (empty, iid_kept) =
        request_lem malloc sized plenty (get_or s.persistence.msg_buf s.persistence.current_buf [])
          acc.image i acc_ok.whole acc_ok.len_is iid_eq in
      let ((r, s'), written, (r_eq, ring, queue, received, _)) =
        Returns-inv _ (read_test_write K succeeds s msg 40) (
          request_is_queued K succeeds s msg 40 ok.ring ok.works ok.pool workers.address_of
            (get_or ok.workers ok.pool.current_worker 0) (map block ok.workers) ok.pool_is
            workers.array_is worker_eq (all s.world.calls) room (omega arith) there) in
      let (pool_eq, device_eq, used_eq, first_eq, works_eq) = Returns-at _ written (
        request_leaves K succeeds s msg 40 ok.ring ok.works ok.pool workers.address_of
          (get_or ok.workers ok.pool.current_worker 0) (map block ok.workers) ok.pool_is
          workers.array_is worker_eq (all s.world.calls) room (omega arith) there) in
      (
        acc,
        s',
        e,
        write_accepted_lem malloc sized plenty (read_test_fops K succeeds) s acc [] acc_ok
            ∙ written
            ∙ ap (λ t. some (t, s')) r_eq,
        record {
          ring = ring;
          works = λ h. ok.works (ap (λ d. d.working) (sym device_eq) ∙ h);
          room = omega (arith, ok.room, used_eq);
          pool = next_worker ok.pool;
          pool_is = pool_eq;
          workers = ok.workers;
          has_workers = record {
            address_of = workers.address_of;
            array_is = workers.array_is;
            count_is = workers.count_is;
            turn_in = omega (arith, workers.count_is, workers.turn_in);
          };
        },
        record {
          ring = ring;
          requests = request ∷ [];
          queue = queue;
          instances = ap (λ n. n ∷ []) iid_kept;
          no_values = (empty, tt);
          received = received;
          used = used_eq;
          first = first_eq;
          persists = works_eq;
        },
        device_eq,
      )

  -- The loop.
  pub requests_lem :
      (k i : ℕ) (s : ReadTest)
      → HasRoom s k
      → i + k ≤ 2 ^ 32
      → Returns
          (write_all (read_test_fops K succeeds) malloc (new_request malloc) s i k)
          λ s'. IsAsked s s' i k × (s'.device ≡ s.device)
  unfolding write_all count_from
  requests_lem zero i s ok small = (
    record {
      ring = ok.ring;
      requests = [];
      queue = sym (append-nil (queued s.persistence));
      instances = refl;
      no_values = tt;
      received = omega arith;
      used = omega arith;
      first = refl;
      persists = refl;
    },
    refl,
  )
  requests_lem (suc k) i s ok small =
      let (acc, s₁, e, written, ok₁, one, device_eq) = one_request s k i ok (omega arith) in
      rw (e, written)
        (Returns-map _ _
          (write_all (read_test_fops K succeeds) malloc (new_request malloc) s₁ (i + 1) k)
          (requests_lem k (i + 1) s₁ ok₁ (omega arith))
          λ s' (rest, device_eq'). (
            record {
              ring = rest.ring;
              requests = one.requests ++ rest.requests;
              queue =
                  rest.queue
                  ∙ ap (λ q. q ++ rest.requests) one.queue
                  ∙ append_assoc (queued s.persistence) one.requests rest.requests;
              instances =
                  map-append accepted_iid one.requests rest.requests
                  ∙ ap₂ ◌++◌ one.instances rest.instances;
              no_values =
                  All-append IsRequest one.requests rest.requests one.no_values rest.no_values;
              received = omega (arith, rest.received, one.received);
              used = omega (arith, rest.used, one.used);
              first = rest.first ∙ one.first;
              persists = rest.persists ∙ one.persists;
            },
            device_eq' ∙ device_eq,
          ))

  abbrev opened : ReadTest → ReadTest
  opened s = record s {
    device = record s.device { char_mutex = true };
    messages_received = 0;
    messages_found = 0;
  }

  open_lem :
      (s : ReadTest) → s.device.char_mutex ≡ false → read_test_open K succeeds s ≡ (pos 0, opened s)
  unfolding read_test_open
  open_lem s free = simp (free, K.mutex_trylock_free)

  -- When the test device works and its mutex is free, the ring of the read persistence device is
  -- well formed and has room for 99 requests, every worker is there, and every allocation succeeds,
  -- readProcess of the test program ends, with the mutex free again and 99 requests counted, and
  -- has put behind what was queued a request without a value for each of the instances 1 to 99, in
  -- order.
  pub read_process_lem :
      (s : ReadTest)
      → HasRoom s 99
      → s.device.char_mutex ≡ false
      → Returns (read_process (read_test_fops K succeeds) malloc s) λ s'.
        IsAsked (record s { messages_received = 0 }) s' 1 99 × (s'.device.char_mutex ≡ false)
  unfolding read_process read_test_fops read_test_release
  read_process_lem s ok free =
      rw
        (while_open_lem malloc sized plenty (read_test_fops K succeeds)
          (λ t. write_all (read_test_fops K succeeds) malloc (new_request malloc) t 1 99) s
          (opened s) 0 (open_lem s free))
        (Returns-bind _ _
          (write_all (read_test_fops K succeeds) malloc (new_request malloc) (opened s) 1 99) _
          (requests_lem 99 1 (opened s)
            (record {
              ring = ok.ring;
              works = ok.works;
              room = ok.room;
              pool = ok.pool;
              pool_is = ok.pool_is;
              workers = ok.workers;
              has_workers = ok.has_workers;
            })
            (omega arith))
          λ s' (asked, _). (
            record {
              ring = asked.ring;
              requests = asked.requests;
              queue = asked.queue;
              instances = asked.instances;
              no_values = asked.no_values;
              received = asked.received;
              used = asked.used;
              first = asked.first;
              persists = asked.persists;
            },
            K.mutex_unlock_lem s'.device.char_mutex,
          ))
