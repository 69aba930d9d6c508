-- ===== src/TestClient/Writer.antt =====
-- writeProcess of testekerneldevice.c on the write test device: its loop, and the whole process.
use kernel_paxos_persistence.WritePersistence.Save.{stored}
use kernel_paxos_persistence.WriteTest.Send.{write_is_pushed, write-Keeps}
use kernel_paxos_persistence.TestClient.Values.{
  IsClientMessage, new_value_lem, client_value, client_message_lem,
}
use kernel_paxos_persistence.Types.{buffer_size, accepted_iid}
use kernel_paxos_persistence.Queue.{push}
use kernel_paxos_persistence.TestClient.Requests.{count_from, while_open_lem, write_accepted_lem}
use kernel_paxos_persistence.TestClient.{write_all, write_process, new_value, write_accepted}
use kernel_paxos_persistence.World.{Outcomes}
use kernel_paxos_persistence.Memory.{Bytes}
use kernel_paxos_persistence.Kernel.{Kernel}
use kernel_paxos_persistence.Codec.RoundTrip.{IsPlenty}
use kernel_paxos_persistence.Ring.{IsRing, queued}
use kernel_paxos_persistence.Prelude.{
  ℕ, List, ◌≢◌, length, true, ◌+◌, ◌≡◌, false, ◌≤◌, ◌++◌, map, suc, pos, Returns, ◌^◌, ◌<◌, All, [],
  Returns-bind, some, sym, arith, Returns-map, Returns-inv, ◌∙◌, ap, ap₂, length-append, All-append,
  zero, ◌==◌, refl, Returns-and, ◌∷◌,
}
use kernel_paxos_persistence.Codec.{Malloc, IsMalloc, Accepted}
use kernel_paxos_persistence.WriteTest.{
  WriteTest, write_test_fops, write_test_open, write_test_release, write_test_write,
}
use mathlib.Core.List.{append-nil, append_assoc, map-append}

-- A write test device whose queue has room for `n` messages more.
pub record HasSpace (s : WriteTest) (n : ℕ) : Type 0 where
  pub ring : IsRing s.persistence
  pub works : s.device.working ≢ 0
  pub space : length (queued s.persistence) + n ≤ buffer_size

-- From `s` to `s'`, the client's value is added for the `k` instances from `i` on.
pub record IsWritten (s s' : WriteTest) (i k : ℕ) : Type 0 where
  pub ring : IsRing s'.persistence
  pub messages : List Bytes
  pub queue : queued s'.persistence ≡ queued s.persistence ++ messages
  pub instances : map accepted_iid messages ≡ count_from i k
  pub values : All IsClientMessage messages
  pub persists : s'.persistence.working ≡ s.persistence.working

module _ (malloc : Malloc) (sized : IsMalloc malloc) (plenty : IsPlenty malloc) (K : Kernel)
    (succeeds : Outcomes) where
  -- One message.
  one_value :
      (s : WriteTest) (k i : ℕ)
      → HasSpace s (suc k)
      → i < 2 ^ 32
      → (acc : Accepted) × (s' : WriteTest) × (new_value malloc i ≡ some acc)
        × (write_accepted (write_test_fops K succeeds) malloc s acc ≡ some (pos 104, s'))
        × HasSpace s' k
        × IsWritten s s' i 1
        × (s'.device ≡ s.device)
  unfolding write_test_fops count_from push
  one_value s k i ok small =
      let (acc, e, (acc_ok, iid_eq)) =
        Returns-inv _ (new_value malloc i) (new_value_lem malloc sized plenty i small) in
      let msg = acc.image ++ client_value in
      let there : 104 ≤ length msg =
        omega (arith, length-append acc.image client_value, acc_ok.whole) in
      let (client, iid_kept) = client_message_lem malloc sized plenty acc acc_ok in
      let not_full : (length (queued s.persistence) == buffer_size) ≡ false =
        ground (arith, ok.space) in
      let ((r, s'), written, ((r_eq, ring, pushed), (device_eq, works_eq))) =
        Returns-inv _ (write_test_write K succeeds s msg 104) (
          Returns-and _ _ (write_test_write K succeeds s msg 104)
            (write_is_pushed K succeeds s msg 104 ok.ring ok.works there)
            (write-Keeps K succeeds s msg 104)) in
      let message = stored msg 104 in
      let queue : queued s'.persistence ≡ queued s.persistence ++ (message ∷ []) =
        pushed ∙ rw not_full in
      (
        acc,
        s',
        e,
        write_accepted_lem malloc sized plenty (write_test_fops K succeeds) s acc client_value
              acc_ok
            ∙ written
            ∙ ap (λ t. some (t, s')) r_eq,
        record {
          ring = ring;
          works = λ h. ok.works (ap (λ d. d.working) (sym device_eq) ∙ h);
          space = omega (
            arith,
            ok.space,
            ap length queue,
            length-append (queued s.persistence) (message ∷ []),
          );
        },
        record {
          ring = ring;
          messages = message ∷ [];
          queue = queue;
          instances = ap (λ n. n ∷ []) (iid_kept ∙ iid_eq);
          values = (client, tt);
          persists = works_eq;
        },
        device_eq,
      )

  -- The loop.
  values_lem :
      (k i : ℕ) (s : WriteTest)
      → HasSpace s k
      → i + k ≤ 2 ^ 32
      → Returns
          (write_all (write_test_fops K succeeds) malloc (new_value malloc) s i k)
          λ s'. IsWritten s s' i k
  unfolding write_all count_from
  values_lem zero i s ok small = record {
    ring = ok.ring;
    messages = [];
    queue = sym (append-nil (queued s.persistence));
    instances = refl;
    values = tt;
    persists = refl;
  }
  values_lem (suc k) i s ok small =
      let (acc, s₁, e, written, ok₁, one, _) = one_value s k i ok (omega arith) in
      rw (e, written)
        (Returns-map _ _
          (write_all (write_test_fops K succeeds) malloc (new_value malloc) s₁ (i + 1) k)
          (values_lem k (i + 1) s₁ ok₁ (omega arith))
          λ s' rest. record {
            ring = rest.ring;
            messages = one.messages ++ rest.messages;
            queue =
                rest.queue
                ∙ ap (λ q. q ++ rest.messages) one.queue
                ∙ append_assoc (queued s.persistence) one.messages rest.messages;
            instances =
                map-append accepted_iid one.messages rest.messages
                ∙ ap₂ ◌++◌ one.instances rest.instances;
            values = All-append IsClientMessage one.messages rest.messages one.values rest.values;
            persists = rest.persists ∙ one.persists;
          })

  abbrev opened : WriteTest → WriteTest
  opened s = record s { device = record s.device { char_mutex = true } }

  open_lem :
      (s : WriteTest)
      → s.device.char_mutex ≡ false
      → write_test_open K succeeds s ≡ (pos 0, opened s)
  unfolding write_test_open
  open_lem s free = simp (free, K.mutex_trylock_free)

  -- When the test device works and its mutex is free, the ring of the write persistence device is
  -- well formed and has room for 100 messages, and malloc has memory, writeProcess of the test
  -- program ends, with the mutex free again, and has put behind what was queued one message for
  -- each of the instances 0 to 99, in order, each with the 64 bytes of the client's text as its
  -- value.
  pub write_process_lem :
      (s : WriteTest)
      → HasSpace s 100
      → s.device.char_mutex ≡ false
      → Returns
          (write_process (write_test_fops K succeeds) malloc s)
          λ s'. IsWritten s s' 0 100 × (s'.device.char_mutex ≡ false)
  unfolding write_process write_test_fops write_test_release
  write_process_lem s ok free =
      rw
        (while_open_lem malloc sized plenty (write_test_fops K succeeds)
          (λ t. write_all (write_test_fops K succeeds) malloc (new_value malloc) t 0 100) s
          (opened s) 0 (open_lem s free))
        (Returns-bind _ _
          (write_all (write_test_fops K succeeds) malloc (new_value malloc) (opened s) 0 100) _
          (values_lem 100 0 (opened s)
            (record { ring = ok.ring; works = ok.works; space = ok.space }) (omega arith))
          λ s' written. (
            record {
              ring = written.ring;
              messages = written.messages;
              queue = written.queue;
              instances = written.instances;
              values = written.values;
              persists = written.persists;
            },
            K.mutex_unlock_lem s'.device.char_mutex,
          ))
