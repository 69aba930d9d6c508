-- ===== src/PersistenceMain/Boot.antt =====
-- What paxos_persistence_init leaves, and what it is when all registrations succeed.
use kernel_paxos_persistence.KernelDevice.Init.{IsStarted, started_lem}
use kernel_paxos_persistence.KernelDevice.{Registry, CharDevice}
use kernel_paxos_persistence.WorkersPool.RoundRobin.{IsPool}
use kernel_paxos_persistence.ReadTest.{n_threads}
use kernel_paxos_persistence.Ring.{IsRing}
use kernel_paxos_persistence.World.{Outcomes}
use kernel_paxos_persistence.WorkersPool.{WorkersPool}
use kernel_paxos_persistence.PersistenceMain.{PersistenceModule}
use kernel_paxos_persistence.Prelude.{
  Option, List, ℕ, ◌≡◌, false, some, length, ◌++◌, true, ◌∷◌, [], refl,
}
use kernel_paxos_persistence.Device.{Device}

-- A device that is open for use: it works, its mutex is free, and its ring is well formed and empty.
pub record IsReadyDevice (d : Device) : Type 0 where
  pub ring : IsRing d
  pub empty : d.used_buf ≡ 0
  pub works : d.working ≡ 1
  pub free : d.char_mutex ≡ false

-- A pool of ten workers, the first of which is next.
pub record IsReadyPool (p : Option WorkersPool) : Type 0 where
  pub pool : WorkersPool
  pub pool_is : p ≡ some pool
  pub workers : List ℕ
  pub ten : length workers ≡ n_threads
  pub has_workers : IsPool pool workers
  pub turn : pool.current_worker ≡ 0

-- The four kdevchar_init, one after the other, from the registry of `m` to that of `m'`, with their
-- results, and the pools of the test devices.
pub record IsInitialised (registers : Outcomes) (m m' : PersistenceModule) : Type 0 where
  pub e₁ : ℕ
  pub e₂ : ℕ
  pub e₃ : ℕ
  pub e₄ : ℕ
  pub r₁ : Registry
  pub r₂ : Registry
  pub r₃ : Registry
  pub write_test : IsStarted registers m.registry (e₁, m'.write_test, r₁)
  pub read_test : IsStarted registers r₁ (e₂, m'.read_test, r₂)
  pub write_persistence : IsStarted registers r₂ (e₃, m'.write_persistence, r₃)
  pub read_persistence : IsStarted registers r₃ (e₄, m'.read_persistence, m'.registry)
  pub write_pool : IsReadyPool m'.write_pool
  pub read_pool : IsReadyPool m'.read_pool

pub record IsBooted (m m' : PersistenceModule) : Type 0 where
  pub write_test : IsReadyDevice m'.write_test.device
  pub read_test : IsReadyDevice m'.read_test.device
  pub write_persistence : IsReadyDevice m'.write_persistence.device
  pub read_persistence : IsReadyDevice m'.read_persistence.device
  pub write_pool : IsReadyPool m'.write_pool
  pub read_pool : IsReadyPool m'.read_pool
  pub majors :
      (majors : List ℕ) × (length majors ≡ 4) × (m'.registry.majors ≡ majors ++ m.registry.majors)

-- A registration that cannot have failed.
ready_lem :
    (registers : Outcomes) (r r' : Registry) (e : ℕ) (k : CharDevice)
    → ((n : ℕ) → registers n ≡ true)
    → IsStarted registers r (e, k, r')
    → IsReadyDevice k.device × ((major : ℕ) × (r'.majors ≡ major ∷ r.majors))
ready_lem registers r r' e k registered started =
    let (_, objects, ring, empty, works, free) =
      started_lem registers r r' e k registered started in
    (
      record { ring = ring; empty = empty; works = works; free = free },
      (objects.major, objects.majors),
    )

pub IsInitialised-IsBooted :
    (registers : Outcomes) (m m' : PersistenceModule)
    → ((n : ℕ) → registers n ≡ true)
    → IsInitialised registers m m'
    → IsBooted m m'
IsInitialised-IsBooted registers m m' registered i =
    let (ok₁, (j₁, majors₁)) =
      ready_lem registers m.registry i.r₁ i.e₁ m'.write_test registered i.write_test in
    let (ok₂, (j₂, majors₂)) =
      ready_lem registers i.r₁ i.r₂ i.e₂ m'.read_test registered i.read_test in
    let (ok₃, (j₃, majors₃)) =
      ready_lem registers i.r₂ i.r₃ i.e₃ m'.write_persistence registered i.write_persistence in
    let (ok₄, (j₄, majors₄)) =
      ready_lem registers i.r₃ m'.registry i.e₄ m'.read_persistence registered i.read_persistence in
    record {
      write_test = ok₁;
      read_test = ok₂;
      write_persistence = ok₃;
      read_persistence = ok₄;
      write_pool = i.write_pool;
      read_pool = i.read_pool;
      majors = (j₄ ∷ j₃ ∷ j₂ ∷ j₁ ∷ [], refl, rw (majors₄, majors₃, majors₂, majors₁));
    }
