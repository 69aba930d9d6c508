-- ===== src/PersistenceMain/EndToEnd.antt =====
-- The whole: the module is loaded, the test program asks for its instances, the storage process serves
-- them.
use kernel_paxos_persistence.TestClient.Recorded.{IsClientRecord, recorded_lem}
use kernel_paxos_persistence.WritePersistence.{write_persistence_fops}
use kernel_paxos_persistence.UserStorage.History.{IsWorking}
use kernel_paxos_persistence.WritePersistence.Run.{IsReliable}
use kernel_paxos_persistence.TestClient.Values.{IsClientMessage}
use kernel_paxos_persistence.Ring.{queued, IsRing, window}
use kernel_paxos_persistence.Types.{accepted_iid, sizeof_accepted}
use kernel_paxos_persistence.WriteTest.{write_test_fops}
use kernel_paxos_persistence.PersistenceMain.Init.{persistence_init_lem}
use kernel_paxos_persistence.TestClient.{write_process}
use kernel_paxos_persistence.System.{StorageThread, thread_rounds}
use kernel_paxos_persistence.Lmdb.{Lmdb, LmdbLaws}
use kernel_paxos_persistence.KernelDevice.Buffers.{IsHeap}
use kernel_paxos_persistence.Codec.RoundTrip.{IsPlenty}
use kernel_paxos_persistence.Ring.Window.{length-window}
use kernel_paxos_persistence.Prelude.{
  ℕ, arith, ◌≡◌, true, Returns, Returns-map, none, map, All, ◌≤◌, length, ◌∙◌, ap, ◌++◌, subst, sym,
  false, ◌<◌, length-map,
}
use kernel_paxos_persistence.TestClient.Writer.{HasSpace, write_process_lem}
use kernel_paxos_persistence.TestClient.Requests.{count_from, length-count_from}
use kernel_paxos_persistence.Codec.{Malloc, IsMalloc}
use kernel_paxos_persistence.PersistenceMain.Boot.{IsBooted, IsInitialised-IsBooted}
use kernel_paxos_persistence.World.{Outcomes}
use kernel_paxos_persistence.Kernel.{Kernel}
use kernel_paxos_persistence.PersistenceMain.{PersistenceModule, write_view, paxos_persistence_init}

booted-HasSpace : (m m' : PersistenceModule) → IsBooted m m' → HasSpace (write_view m') 100
booted-HasSpace m m' ok = record {
  ring = ok.write_persistence.ring;
  works = omega (arith, ok.write_test.works);
  space =
      let d = m'.write_persistence.device in
      omega (arith, ok.write_persistence.empty, length-window d.msg_buf d.first_buf d.used_buf);
}

module _ (K : Kernel) (succeeds registers : Outcomes) (pmalloc : Malloc) (heap : ℕ → ℕ → Malloc)
    (sized : IsMalloc pmalloc) (plenty : IsPlenty pmalloc) (heaps : (id : ℕ) → IsHeap (heap id))
    (all : (n : ℕ) → succeeds n ≡ true) (registered : (n : ℕ) → registers n ≡ true)
    (malloc : Malloc) (m : PersistenceModule) where
  boot_lem :
      Returns
        (paxos_persistence_init K succeeds registers pmalloc heap m)
        λ (e, m'). (e ≡ 0) × IsBooted m m'
  boot_lem =
      Returns-map _ _ (paxos_persistence_init K succeeds registers pmalloc heap m)
        (persistence_init_lem K succeeds registers pmalloc heap sized plenty heaps all m)
        λ (e, m') (e_eq, i). (e_eq, IsInitialised-IsBooted registers m m' registered i)

  -- What the writer leaves in the write persistence device.
  queued_lem :
      IsMalloc malloc
      → IsPlenty malloc
      → Returns (paxos_persistence_init K succeeds registers pmalloc heap m) λ (e, m').
        Returns (write_process (write_test_fops K succeeds) malloc (write_view m')) λ s'.
          (map accepted_iid (queued s'.persistence) ≡ count_from 0 100)
          × All IsClientMessage (queued s'.persistence)
          × IsRing s'.persistence
          × (s'.persistence.working ≡ 1)
  queued_lem client_sized client_plenty =
      Returns-map _ _ (paxos_persistence_init K succeeds registers pmalloc heap m) boot_lem
        λ (e, m') (_, ok).
          Returns-map _ _ (write_process (write_test_fops K succeeds) malloc (write_view m'))
            (write_process_lem malloc client_sized client_plenty K succeeds (write_view m')
              (booted-HasSpace m m' ok) ok.write_test.free)
            λ s' (written, _).
              let d = m'.write_persistence.device in
              let queue : queued s'.persistence ≡ written.messages =
                written.queue
                ∙ ap (λ n. window d.msg_buf d.first_buf n ++ written.messages)
                    ok.write_persistence.empty in
              (
                ap (map accepted_iid) queue ∙ written.instances,
                subst (All IsClientMessage) (sym queue) written.values,
                written.ring,
                written.persists ∙ ok.write_persistence.works,
              )

  -- When every allocation, thread and registration succeeds, copies do not fail, the process's
  -- malloc has memory, all calls of LMDB succeed, no transaction is open, and the buffers of the
  -- process have their sizes, at least 108 bytes for what is read, then paxos_persistence_init
  -- returns, writeProcess of the test program, run on the loaded module, returns, and 100 turns of
  -- the write device's storage thread on the device as it was left return with its queue empty: the
  -- table has under each instance below 100 a structure of 40 bytes of that instance, with the
  -- client's text behind it.
  pub booted_values_are_recorded :
      (M : Lmdb) (L : LmdbLaws M) (r : StorageThread M)
      → IsMalloc malloc
      → IsPlenty malloc
      → IsReliable K
      → IsWorking M
      → r.storage.txn ≡ none
      → 108 ≤ length r.recv
      → length r.accepted.image ≡ sizeof_accepted
      → Returns (paxos_persistence_init K succeeds registers pmalloc heap m) λ (e, m').
        Returns (write_process (write_test_fops K succeeds) malloc (write_view m')) λ s'.
          Returns
            (thread_rounds
              (write_persistence_fops K)
              M
              malloc
              false
              100
              (record r { device = s'.persistence }))
            λ r'.
              (r'.device.used_buf ≡ 0)
              × ((i : ℕ) → i < 100 → IsClientRecord i (L.contents r'.storage.env i))
  booted_values_are_recorded M L r client_sized client_plenty reliable works idle room whole =
      Returns-map _ _ (paxos_persistence_init K succeeds registers pmalloc heap m)
        (queued_lem client_sized client_plenty)
        λ (e, m') sent.
          Returns-map _ _ (write_process (write_test_fops K succeeds) malloc (write_view m')) sent
            λ s' (instances, values, ring, on).
              let d = s'.persistence in
              recorded_lem K M L malloc reliable works client_sized client_plenty d r 100 ring
                (omega (arith, on)) instances values
                (omega (
                  arith,
                  ap length instances,
                  length-map accepted_iid (queued d),
                  length-count_from 0 100,
                  length-window d.msg_buf d.first_buf d.used_buf,
                ))
                idle room whole
