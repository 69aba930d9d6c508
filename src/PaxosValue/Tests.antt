-- ===== src/PaxosValue/Tests.antt =====
-- An accepted of one block and a value of three bytes in another.
use kernel_paxos_persistence.KernelDevice.Exit.{kfree}
use kernel_paxos_persistence.Prelude.{some, ◌∷◌, [], ◌≡◌, refl}
use kernel_paxos_persistence.World.{World, vfree, remove}
use kernel_paxos_persistence.PaxosValue.{
  Message, paxos_accepted_free, paxos_accepted_destroy, paxos_value_destroy,
}

abbrev accepted : Message
accepted = record { address = 4; value = record { paxos_value_len = 3; paxos_value_val = some 5 } }

abbrev allocated : World
allocated = record { calls = 6; live = 5 ∷ 4 ∷ 1 ∷ []; running = []; queued_work = [] }

accepted_is_freed :
    paxos_accepted_free allocated accepted ≡ some (record allocated { live = 1 ∷ [] })
unfolding paxos_accepted_free paxos_accepted_destroy paxos_value_destroy kfree vfree remove
accepted_is_freed = refl
