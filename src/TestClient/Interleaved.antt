-- ===== src/TestClient/Interleaved.antt =====
-- Every interleaving of a client's requests with the turns of the storage thread.
use kernel_paxos_persistence.TestClient.Shared.{
  Running, IsInService, ask_step, turn_step, ask, IsMove, IsTaken, answered, waits,
}
use kernel_paxos_persistence.Prelude.{List, ◌∷◌, Returns, []}
use kernel_paxos_persistence.Codec.{Malloc}
use kernel_paxos_persistence.Lmdb.{Lmdb, LmdbLaws}
use kernel_paxos_persistence.World.{Outcomes}
use kernel_paxos_persistence.Kernel.{Kernel}
use kernel_paxos_persistence.TestClient.Shared.{
  Move, ask, turn, IsMove, IsEnqueued, IsTaken, answered, waits,
}

-- Every step of a run returns, and does what it should.
unfoldable pub IsRun :
    Kernel → Outcomes → (M : Lmdb) → LmdbLaws M → Malloc → List Move → Running M → Type 0
IsRun K succeeds M L malloc [] x = IsInService M L x
IsRun K succeeds M L malloc (ask i ∷ es) x =
    Returns (ask_step K succeeds M malloc i x)
      λ x'. IsEnqueued M x x' i × IsRun K succeeds M L malloc es x'
IsRun K succeeds M L malloc (turn ∷ es) x =
    Returns (turn_step K succeeds M malloc x)
      λ x'. IsTaken M L x x' × IsRun K succeeds M L malloc es x'
