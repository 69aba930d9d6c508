-- ===== src/Codec/Tests.antt =====
-- The round trip at a concrete value.
use kernel_paxos_persistence.Codec.RoundTrip.{IsSame, buffer_round_trip}
use kernel_paxos_persistence.Memory.{Bytes}
use kernel_paxos_persistence.Sample.Storage.{
  heap, seven, three_bytes, heap-IsMalloc, heap-IsPlenty, seven-IsAccepted,
}
use kernel_paxos_persistence.Codec.{paxos_accepted_to_buffer, buffer_to_paxos_accepted}
use kernel_paxos_persistence.Prelude.{Returns, ◌≡◌, some, length}

buffer_round_trip_example : Returns (paxos_accepted_to_buffer heap seven) λ result.
    (buffer : Bytes) × (result ≡ some buffer)
    × (length buffer ≡ 43)
    × Returns (buffer_to_paxos_accepted heap buffer seven) λ acc'. IsSame seven acc' three_bytes
buffer_round_trip_example =
    buffer_round_trip heap seven seven three_bytes heap-IsMalloc heap-IsPlenty seven-IsAccepted
      seven-IsAccepted.whole
