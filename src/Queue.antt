-- ===== src/Queue.antt =====
-- The abstract view of a persistence device: at most BUFFER_SIZE messages, oldest first. A message
-- that comes when the queue is full is lost.
use kernel_paxos_persistence.Prelude.{
  Bool, true, false, List, [], ◌∷◌, ◌++◌, ◌==◌, if◌then◌else◌, length,
}
use kernel_paxos_persistence.Memory.{Bytes}
use kernel_paxos_persistence.Types.{buffer_size}

abbrev pub Queue : Type 0
Queue = List Bytes

unfoldable pub push : Queue → Bytes → Bool × Queue
push q m = if length q == buffer_size then (false, q) else (true, q ++ (m ∷ []))
