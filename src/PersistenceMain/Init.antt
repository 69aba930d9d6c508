-- ===== src/PersistenceMain/Init.antt =====
-- paxos_persistence_init, for every outcome of its registrations.
use kernel_paxos_persistence.PersistenceMain.Boot.{IsReadyPool, IsInitialised}
use kernel_paxos_persistence.ReadPersistence.{create_read_persistence_device}
use kernel_paxos_persistence.WritePersistence.{create_write_persistence_device}
use kernel_paxos_persistence.KernelDevice.Init.{kdevchar_init_lem, IsStarted}
use kernel_paxos_persistence.WorkersPool.Create.{create_pool_lem}
use kernel_paxos_persistence.WriteTest.{create_write_test_device}
use kernel_paxos_persistence.Memory.{Bytes}
use kernel_paxos_persistence.KernelDevice.{Registry, CharDevice, kdevchar_init}
use kernel_paxos_persistence.KernelDevice.Buffers.{IsHeap}
use kernel_paxos_persistence.Codec.RoundTrip.{IsPlenty}
use kernel_paxos_persistence.ReadTest.{n_threads, create_read_test_device}
use kernel_paxos_persistence.Codec.{Malloc, IsMalloc}
use kernel_paxos_persistence.World.{Outcomes, World}
use kernel_paxos_persistence.WorkersPool.{WorkersPool, create_pool}
use kernel_paxos_persistence.Kernel.{Kernel}
use kernel_paxos_persistence.PersistenceMain.{
  PersistenceModule, init_device, init_write_test, init_read_test, init_write_persistence,
  init_read_persistence, paxos_persistence_init, write_test_name, read_test_name,
  write_persistence_name, read_persistence_name,
}
use kernel_paxos_persistence.Prelude.{
  Option, ℕ, ◌≡◌, some, true, Returns, Returns-bind, Returns-map, arith, Returns-inv, [], refl,
}

module _ (K : Kernel) (succeeds registers : Outcomes) (pmalloc : Malloc) (heap : ℕ → ℕ → Malloc)
    (sized : IsMalloc pmalloc) (plenty : IsPlenty pmalloc) (heaps : (id : ℕ) → IsHeap (heap id))
    (all : (n : ℕ) → succeeds n ≡ true) where
  init_device_lem :
      (r : Registry) (id : ℕ) (name : Bytes) (k : CharDevice)
      → Returns
          (init_device K succeeds registers pmalloc heap r id name k)
          λ (k', r'). (e : ℕ) × IsStarted registers r (e, k', r')
  unfolding init_device
  init_device_lem r id name k =
      Returns-bind _ _ (kdevchar_init registers pmalloc (heap id) r id name k) _
        (kdevchar_init_lem registers pmalloc sized plenty (heap id) (heaps id) id name r k)
        λ (e, k', r') started. (e, started)

  ready_pool : (w : World) → Returns (create_pool succeeds w n_threads) λ (p, w'). IsReadyPool p
  ready_pool w =
      Returns-map _ _ (create_pool succeeds w n_threads)
        (create_pool_lem succeeds all w n_threads (omega arith))
        λ (p, w') (pool, pool_is, (workers, ten, ok), turn). record {
          pool = pool;
          pool_is = pool_is;
          workers = workers;
          ten = ten;
          has_workers = ok;
          turn = turn;
        }

  write_test_lem :
      (m : PersistenceModule)
      → (k : CharDevice) × (pool : Option WorkersPool) × (r : Registry) × (w : World)
        × (init_write_test K succeeds registers pmalloc heap m
            ≡ some (record m { write_test = k; write_pool = pool; registry = r; world = w }))
        × IsReadyPool pool
        × ((e : ℕ) × IsStarted registers m.registry (e, k, r))
  unfolding init_write_test create_write_test_device
  write_test_lem m =
      let ((pool, w), e, ready) =
        Returns-inv _ (create_pool succeeds m.world n_threads) (ready_pool m.world) in
      let k = record m.write_test { device = record m.write_test.device { msg_buf = [] } } in
      let ((k', r), e', started) =
        Returns-inv _ (init_device K succeeds registers pmalloc heap m.registry 0 write_test_name k)
          (init_device_lem m.registry 0 write_test_name k) in
      (k', pool, r, w, rw (e, e'), ready, started)

  read_test_lem :
      (m : PersistenceModule)
      → (k : CharDevice) × (pool : Option WorkersPool) × (r : Registry) × (w : World)
        × (init_read_test K succeeds registers pmalloc heap m
            ≡ some (record m { read_test = k; read_pool = pool; registry = r; world = w }))
        × IsReadyPool pool
        × ((e : ℕ) × IsStarted registers m.registry (e, k, r))
  unfolding init_read_test create_read_test_device
  read_test_lem m =
      let ((pool, w), e, ready) =
        Returns-inv _ (create_pool succeeds m.world n_threads) (ready_pool m.world) in
      let k = record m.read_test { device = record m.read_test.device { msg_buf = [] } } in
      let ((k', r), e', started) =
        Returns-inv _ (init_device K succeeds registers pmalloc heap m.registry 1 read_test_name k)
          (init_device_lem m.registry 1 read_test_name k) in
      (k', pool, r, w, rw (e, e'), ready, started)

  write_persistence_lem :
      (m : PersistenceModule)
      → (k : CharDevice) × (r : Registry) × (init_write_persistence K succeeds registers pmalloc
            heap m
          ≡ some (record m { write_persistence = k; registry = r }))
        × ((e : ℕ) × IsStarted registers m.registry (e, k, r))
  unfolding init_write_persistence create_write_persistence_device
  write_persistence_lem m =
      let k = record m.write_persistence {
        device = record m.write_persistence.device { msg_buf = []; callback_buf = [] };
      } in
      let ((k', r), e, started) =
        Returns-inv _
          (init_device K succeeds registers pmalloc heap m.registry 2 write_persistence_name k)
          (init_device_lem m.registry 2 write_persistence_name k) in
      (k', r, rw e, started)

  read_persistence_lem :
      (m : PersistenceModule)
      → (k : CharDevice) × (r : Registry) × (init_read_persistence K succeeds registers pmalloc heap
            m
          ≡ some (record m { read_persistence = k; registry = r }))
        × ((e : ℕ) × IsStarted registers m.registry (e, k, r))
  unfolding init_read_persistence create_read_persistence_device
  read_persistence_lem m =
      let k = record m.read_persistence {
        device = record m.read_persistence.device { msg_buf = []; callback_buf = [] };
      } in
      let ((k', r), e, started) =
        Returns-inv _
          (init_device K succeeds registers pmalloc heap m.registry 3 read_persistence_name k)
          (init_device_lem m.registry 3 read_persistence_name k) in
      (k', r, rw e, started)

  -- When every allocation and thread succeeds, paxos_persistence_init returns 0 whatever its
  -- registrations do: each of the four devices in turn either is registered and has a well-formed,
  -- empty ring, or has left the registry as it was because a registration failed, which the result
  -- does not show; and both test devices have a pool of ten workers, the first of which is next.
  pub persistence_init_lem :
      (m : PersistenceModule)
      → Returns
          (paxos_persistence_init K succeeds registers pmalloc heap m)
          λ (e, m'). (e ≡ 0) × IsInitialised registers m m'
  unfolding paxos_persistence_init
  persistence_init_lem m =
      let (k₁, p₁, r₁, w₁, eq₁, pool₁, (e₁, s₁)) = write_test_lem m in
      let m₁ = record m { write_test = k₁; write_pool = p₁; registry = r₁; world = w₁ } in
      let (k₂, p₂, r₂, w₂, eq₂, pool₂, (e₂, s₂)) = read_test_lem m₁ in
      let m₂ = record m₁ { read_test = k₂; read_pool = p₂; registry = r₂; world = w₂ } in
      let (k₃, r₃, eq₃, (e₃, s₃)) = write_persistence_lem m₂ in
      let m₃ = record m₂ { write_persistence = k₃; registry = r₃ } in
      let (k₄, r₄, eq₄, (e₄, s₄)) = read_persistence_lem m₃ in
      rw (eq₁, eq₂, eq₃, eq₄)
        (
          refl,
          record {
            e₁ = e₁;
            e₂ = e₂;
            e₃ = e₃;
            e₄ = e₄;
            r₁ = r₁;
            r₂ = r₂;
            r₃ = r₃;
            write_test = s₁;
            read_test = s₂;
            write_persistence = s₃;
            read_persistence = s₄;
            write_pool = pool₁;
            read_pool = pool₂;
          },
        )
