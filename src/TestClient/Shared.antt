-- ===== src/TestClient/Shared.antt =====
-- A client of the read test device and the storage thread at the same time: what each of them does to
-- the read persistence device that they share.
use kernel_paxos_persistence.Types.{accepted_iid, buffer_size}
use kernel_paxos_persistence.WorkersPool.RoundRobin.{IsPool}
use kernel_paxos_persistence.ReadPersistence.{read_persistence_fops}
use kernel_paxos_persistence.TestClient.{new_request, write_accepted}
use kernel_paxos_persistence.WorkersPool.{WorkersPool}
use kernel_paxos_persistence.Ring.{queued}
use kernel_paxos_persistence.System.Turn.{IsReading, IsTurn, IsTable}
use kernel_paxos_persistence.Codec.{Malloc}
use kernel_paxos_persistence.Memory.{Bytes}
use kernel_paxos_persistence.World.{Outcomes}
use kernel_paxos_persistence.System.{StorageThread, thread_round}
use kernel_paxos_persistence.ReadTest.{ReadTest, read_test_fops}
use kernel_paxos_persistence.Kernel.{Kernel}
use kernel_paxos_persistence.Prelude.{
  ℕ, ◌<◌, ◌^◌, Option, ◌≢◌, ◌≡◌, ◌++◌, ◌>>=◌, some, ◌∷◌, List, [], true,
}
use kernel_paxos_persistence.Lmdb.{Lmdb, LmdbLaws}

-- The test device with the device that it shares, and the thread.
pub record Running (M : Lmdb) : Type 0 where
  pub test : ReadTest
  pub thread : StorageThread M

abbrev pub thread_of : (M : Lmdb) → Running M → StorageThread M
thread_of M x = record x.thread { device = x.test.persistence }

-- A client asks for an instance, or the thread takes a turn.
pub data Move : Type 0 where
  ask : ℕ → Move
  turn : Move

abbrev pub IsMove : Move → Type 0
IsMove (ask i) = i < 2 ^ 32
IsMove turn = Unit

module _ (K : Kernel) (succeeds : Outcomes) (M : Lmdb) (malloc : Malloc) where
  -- One pass of the loop of readProcess.
  unfoldable pub ask_step : ℕ → Running M → Option (Running M)
  ask_step i x = do
    accepted ← new_request malloc i
    (ret, s) ← write_accepted (read_test_fops K succeeds) malloc x.test accepted
    some (record x { test = s })

  unfoldable pub turn_step : Running M → Option (Running M)
  turn_step x = do
    r ← thread_round (read_persistence_fops K) M malloc true (thread_of M x)
    some (record { test = record x.test { persistence = r.device }; thread = r })

-- Both are ready for whatever comes next.
pub record IsInService (M : Lmdb) (L : LmdbLaws M) (x : Running M) : Type 0 where
  pub reading : IsReading M (thread_of M x)
  pub works : x.test.device.working ≢ 0
  pub pool : WorkersPool
  pub pool_is : x.test.pool ≡ some pool
  pub workers : List ℕ
  pub has_workers : IsPool pool workers
  pub table : IsTable M L x.thread.storage.env

-- A request is queued last, or dropped when there are 1000.
pub data IsEnqueued (M : Lmdb) (x x' : Running M) (i : ℕ) : Type 0 where
  queued_last :
      (request : Bytes)
      → queued x'.test.persistence ≡ queued x.test.persistence ++ (request ∷ [])
      → accepted_iid request ≡ i
      → IsEnqueued M x x' i
  dropped : x.test.persistence.used_buf ≡ buffer_size → x' ≡ x → IsEnqueued M x x' i

-- The oldest request is answered, or there is none.
pub data IsTaken (M : Lmdb) (L : LmdbLaws M) (x x' : Running M) : Type 0 where
  answered : IsTurn M L (thread_of M x) (thread_of M x') → IsTaken M L x x'
  waits :
      x.test.persistence.used_buf ≡ 0
      → x'.test.persistence.used_buf ≡ 0
      → x'.test.persistence.callback_buf ≡ x.test.persistence.callback_buf
      → IsTaken M L x x'
