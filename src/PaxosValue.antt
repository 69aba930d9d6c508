-- ===== src/PaxosValue.antt =====
-- paxos/paxos.c: the destructors of the messages, over the account of the kernel's allocator.
pub mod Laws
mod Tests
use kernel_paxos_persistence.World.{World, vfree}
use kernel_paxos_persistence.Prelude.{ℕ, Option, if◌then◌else◌, ◌>>=◌, is_positive, some}
use kernel_paxos_persistence.KernelDevice.Exit.{kfree}

-- struct paxos_value as its destructors read it: the length, an `int` kept as its bit pattern, and the
-- block that `paxos_value_val` points to.
pub record PaxosValue : Type 0 where
  pub paxos_value_len : ℕ
  pub paxos_value_val : Option ℕ

-- A message that was allocated, with its address; paxos_promise, paxos_accept and paxos_accepted end
-- with such a value.
pub record Message : Type 0 where
  pub address : ℕ
  pub value : PaxosValue

-- The value and the structure itself.
unfoldable pub paxos_value_free : World → ℕ → PaxosValue → Option World
paxos_value_free w address v = do w₁ ← kfree w v.paxos_value_val; vfree w₁ address

-- The value, if its length is positive.
unfoldable pub paxos_value_destroy : World → PaxosValue → Option World
paxos_value_destroy w v =
    if is_positive v.paxos_value_len then kfree w v.paxos_value_val else some w

unfoldable pub paxos_promise_destroy : World → Message → Option World
paxos_promise_destroy w p = paxos_value_destroy w p.value

unfoldable pub paxos_accept_destroy : World → Message → Option World
paxos_accept_destroy w p = paxos_value_destroy w p.value

unfoldable pub paxos_accepted_destroy : World → Message → Option World
paxos_accepted_destroy w p = paxos_value_destroy w p.value

unfoldable pub paxos_accepted_free : World → Message → Option World
paxos_accepted_free w a = do w₁ ← paxos_accepted_destroy w a; vfree w₁ a.address
