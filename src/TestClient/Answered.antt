-- ===== src/TestClient/Answered.antt =====
-- The reader of testekerneldevice.c with the storage process: what it asks for is answered.
use kernel_paxos_persistence.ReadPersistence.{read_persistence_fops}
use kernel_paxos_persistence.System.Received.{IsRequest}
use kernel_paxos_persistence.System.Drain.{drain_lem, asked_iid, answered_as}
use kernel_paxos_persistence.TestClient.Reader.{read_process_lem}
use kernel_paxos_persistence.Ring.{queued, window}
use kernel_paxos_persistence.TestClient.{read_process}
use kernel_paxos_persistence.World.{Outcomes}
use kernel_paxos_persistence.System.Turn.{IsServed, IsAnsweredAt, IsTable}
use kernel_paxos_persistence.System.{StorageThread, thread_rounds}
use kernel_paxos_persistence.Codec.{Malloc}
use kernel_paxos_persistence.ReadTest.{ReadTest, read_test_fops}
use kernel_paxos_persistence.Types.{accepted_iid, buffer_size, sizeof_int, sizeof_accepted}
use kernel_paxos_persistence.Kernel.{Kernel}
use kernel_paxos_persistence.Lmdb.{Lmdb, LmdbLaws}
use kernel_paxos_persistence.Prelude.{
  List, ℕ, get_or, [], map, ◌<◌, ◌≡◌, ◌∷◌, ◌+◌, refl, arith, suc, sym, true, ◌%◌, ◌∙◌, ◌≢◌, zero,
  ap₂, false, none, ◌≤◌, length, Returns, ap, Returns-map, ◌++◌, subst, All,
}
use kernel_paxos_persistence.Memory.{Bytes, load32}
use kernel_paxos_persistence.TestClient.Requests.{count_from, HasRoom, IsAsked}

get_or-count_from : (k i n : ℕ) → k < n → get_or (count_from i n) k 0 ≡ i + k
unfolding count_from
get_or-count_from k i zero h = absurd (omega arith)
get_or-count_from zero i (suc n) h = omega arith
get_or-count_from (suc k) i (suc n) h = get_or-count_from k (i + 1) n (omega arith) ∙ omega arith

get_or-map :
    (f : Bytes → ℕ) (xs : List Bytes) (k : ℕ) → get_or (map f xs) k (f []) ≡ f (get_or xs k [])
get_or-map f [] k = refl
get_or-map f (x ∷ xs) zero = refl
get_or-map f (x ∷ xs) (suc k) = get_or-map f xs k

no_bytes : accepted_iid [] ≡ 0
unfolding load32
no_bytes = refl

-- A request for each of `n` instances from `i` on: the k-th is for `i + k`.
pub nth_instance :
    (requests : List Bytes) (i n k : ℕ)
    → map accepted_iid requests ≡ count_from i n
    → k < n
    → accepted_iid (get_or requests k []) ≡ i + k
nth_instance requests i n k e h =
    sym (get_or-map accepted_iid requests k)
    ∙ ap₂ (λ xs d. get_or xs k d) e no_bytes
    ∙ get_or-count_from k i n h

-- All requests of the reader, in the order in which it sent them, are answered.
pub IsServiced : (M : Lmdb) → LmdbLaws M → ℕ → StorageThread M → StorageThread M → Type 0
IsServiced M L first r r' =
    (r'.device.used_buf ≡ 0)
    × ((k : ℕ)
        → k < 99
        → IsAnsweredAt r'.device ((first + k) % buffer_size) (L.contents r.storage.env (k + 1))
            (k + 1))

module _ (K : Kernel) (M : Lmdb) (L : LmdbLaws M) (malloc : Malloc) (served : IsServed K M L malloc)
    (succeeds : Outcomes) (all : (n : ℕ) → succeeds n ≡ true) where
  open served use {sized, plenty}

  -- The thread, with the device as the reader of the test left it.
  drained_lem :
      (s s' : ReadTest) (r : StorageThread M)
      → s.persistence.used_buf ≡ 0
      → s.persistence.working ≢ 0
      → IsAsked s s' 1 99
      → r.storage.txn ≡ none
      → sizeof_int + sizeof_accepted ≤ length r.recv
      → length r.accepted.image ≡ sizeof_accepted
      → IsTable M L r.storage.env
      → Returns
          (thread_rounds
            (read_persistence_fops K)
            M
            malloc
            true
            99
            (record r { device = s'.persistence }))
          (IsServiced M L s.persistence.first_buf r)
  unfolding IsServiced
  drained_lem s s' r empty works asked idle room whole table =
      let queue : queued s'.persistence ≡ asked.requests =
        asked.queue
        ∙ ap (λ n. window s.persistence.msg_buf s.persistence.first_buf n ++ asked.requests)
            empty in
      Returns-map _ _
        (thread_rounds (read_persistence_fops K) M malloc true 99
          (record r { device = s'.persistence }))
        (drain_lem K M L malloc served 99 (record r { device = s'.persistence })
          (omega (arith, asked.used))
          (record {
            ring = asked.ring;
            works = λ e. works (sym asked.persists ∙ e);
            requests = subst (All IsRequest) (sym queue) asked.no_values;
            no_txn = idle;
            room = room;
            whole = whole;
          })
          table)
        λ r' drained. (
          drained.empty,
          λ k h.
              let iid : asked_iid s'.persistence k ≡ k + 1 =
                ap (λ q. accepted_iid (get_or q k [])) queue
                ∙ nth_instance asked.requests 1 99 k asked.instances h
                ∙ omega arith in
              answered_as r'.device _ _ _ _ _ _ (ap (λ n. (n + k) % buffer_size) (sym asked.first))
                (ap (L.contents r.storage.env) (sym iid)) (sym iid)
                (drained.answered k (omega (arith, asked.used, h))),
        )

  -- The read test.
  pub test_is_answered :
      (s : ReadTest) (r : StorageThread M)
      → HasRoom s 99
      → s.device.char_mutex ≡ false
      → s.persistence.used_buf ≡ 0
      → s.persistence.working ≢ 0
      → r.storage.txn ≡ none
      → sizeof_int + sizeof_accepted ≤ length r.recv
      → length r.accepted.image ≡ sizeof_accepted
      → IsTable M L r.storage.env
      → Returns (read_process (read_test_fops K succeeds) malloc s) λ s'.
        Returns
          (thread_rounds
            (read_persistence_fops K)
            M
            malloc
            true
            99
            (record r { device = s'.persistence }))
          (IsServiced M L s.persistence.first_buf r)
  test_is_answered s r ok free empty works idle room whole table =
      Returns-map _ _ (read_process (read_test_fops K succeeds) malloc s)
        (read_process_lem malloc sized plenty K succeeds all s ok free)
        λ s' (asked, _).
          drained_lem (record s { messages_received = 0 }) s' r empty works asked idle room whole
            table
