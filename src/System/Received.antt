-- ===== src/System/Received.antt =====
-- What the thread decodes from its buffer when the device has delivered a request.
use mathlib.Core.List.{append-nil}
use kernel_paxos_persistence.Memory.Laws.{overwrite-split}
use kernel_paxos_persistence.Memory.Fill.{load32-front}
use kernel_paxos_persistence.Codec.RoundTrip.{IsAccepted}
use kernel_paxos_persistence.Prelude.{
  take, ℕ, length, ◌≡◌, arith, none, ◌++◌, [], ◌+◌, sym, length-take, ◌≤◌, ap, drop, ◌∙◌, inl, refl,
  length-drop,
}
use kernel_paxos_persistence.Codec.{Accepted}
use kernel_paxos_persistence.Types.{
  value_len, message_size, sizeof_accepted, slot_size, sizeof_int, value_len_offset,
}
use kernel_paxos_persistence.Ring.Delivery.{delivered}
use kernel_paxos_persistence.Memory.{Bytes, load32, word32}

-- A request asks for an instance and has no value, as the test client sends it.
abbrev pub IsRequest : Bytes → Type 0
IsRequest m = value_len m ≡ 0

pub size_of_request : (m : Bytes) → IsRequest m → message_size m ≡ sizeof_accepted
size_of_request m h = ground arith

-- The structure in a request.
abbrev pub structure_of : Bytes → Accepted
structure_of m = record { image = take sizeof_accepted m; value_val = none }

take_front : (m : Bytes) → take sizeof_accepted m ≡ take sizeof_accepted m ++ []
take_front m = sym (append-nil (take sizeof_accepted m))

-- A word of the structure is that of the request.
pub load32-take :
    (m : Bytes) (i : ℕ)
    → sizeof_accepted ≤ length m
    → i + 4 ≤ sizeof_accepted
    → load32 (take sizeof_accepted m) i ≡ load32 m i
load32-take m i h k = ap (λ t. load32 t i) (take_front m) ∙ load32-front m [] sizeof_accepted i h k

pub structure-IsAccepted :
    (m : Bytes) → length m ≡ slot_size → IsRequest m → IsAccepted (structure_of m) []
structure-IsAccepted m h empty = record {
  whole = omega (arith, length-take sizeof_accepted m);
  len_is = load32-take m value_len_offset (omega arith) (omega arith) ∙ empty;
  small = omega arith;
  there = inl refl;
}

-- What is behind a delivered request.
abbrev pub behind : Bytes → Bytes
behind buffer = drop sizeof_accepted (drop sizeof_int buffer)

-- The buffer after the read: the number, the structure, and what was behind them before.
pub delivered_lem :
    (buffer m : Bytes) (first : ℕ)
    → length m ≡ slot_size
    → IsRequest m
    → sizeof_int + sizeof_accepted ≤ length buffer
    → delivered buffer first m ≡ word32 first ++ ((structure_of m).image ++ ([] ++ behind buffer))
unfolding delivered
delivered_lem buffer m first h empty room = rw (
  size_of_request m empty,
  overwrite-split buffer 0 (word32 first) sizeof_int refl (omega arith),
  overwrite-split (word32 first ++ drop sizeof_int buffer) sizeof_int (take sizeof_accepted m) 44
      (omega (arith, length-take sizeof_accepted m)) (omega (arith, length-drop sizeof_int buffer)),
)
