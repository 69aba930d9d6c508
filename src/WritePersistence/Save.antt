-- ===== src/WritePersistence/Save.antt =====
-- What write_persistence_add_message leaves in a slot.
use kernel_paxos_persistence.Prelude.{
  ℕ, ◌+◌, ◌-◌, ◌%◌, ◌≤◌, ◌≡◌, ◌-◌, ap, ap, ◌∙◌, ◌++◌, some, arith, length, take, All, drop,
  replicate, length-replicate, length-append, length-take, u32_mod, u64_mod, inl, All-append,
  All-take, All-replicate, Returns,
}
use kernel_paxos_persistence.Memory.{Bytes, load32, store32}
use kernel_paxos_persistence.Memory.Laws.{load32-store32, load32-store32_ne, length-store32}
use kernel_paxos_persistence.Memory.Fill.{
  memset_all, memcpy_front, drop-replicate, load32-front, IsByte, store32-load32, zero-IsByte,
}
use kernel_paxos_persistence.Types.{
  sizeof_accepted, slot_size, iid_offset, set_value_len, value_len, value_len_offset, message_size,
  accepted_iid, iid_offset,
}
use kernel_paxos_persistence.WritePersistence.{save_accepted}

-- The first `n` bytes of the message, zeros up to the slot's end, and the length that `n` leaves for
-- the value.
abbrev pub padded : Bytes → ℕ → Bytes
padded msg n = take n msg ++ replicate (slot_size - n) 0

unfoldable pub stored : Bytes → ℕ → Bytes
stored msg n = set_value_len (padded msg n) ((n + u64_mod - sizeof_accepted) % u32_mod)

padded_eq : (msg : Bytes) (n : ℕ) → take n msg ++ drop n (replicate slot_size 0) ≡ padded msg n
padded_eq msg n = ap (λ t. take n msg ++ t) (drop-replicate n slot_size 0)

module _ (msg : Bytes) (n : ℕ) (fits : n ≤ slot_size) (there : n ≤ length msg) where
  pub length-padded : length (padded msg n) ≡ slot_size
  length-padded = omega (
    arith,
    length-append (take n msg) (replicate (slot_size - n) 0),
    length-take n msg,
    length-replicate {A = ℕ} (slot_size - n) 0,
  )

  pub length-stored : length (stored msg n) ≡ slot_size
  unfolding stored
  length-stored = length-store32 (padded msg n) value_len_offset _ ∙ length-padded

  pub save_accepted_lem :
      (slot : Bytes) → length slot ≡ slot_size → save_accepted slot msg n ≡ some (stored msg n)
  unfolding save_accepted stored
  save_accepted_lem slot h = rw (
    memset_all slot slot_size h,
    memcpy_front (replicate slot_size 0) msg n (omega (arith, length-replicate {A = ℕ} slot_size 0))
        there,
    padded_eq msg n,
  )

  -- For a message cut to at most 240 bytes that it has, the size that a reader computes from the
  -- stored slot is the number of bytes that were stored, also below the 40 bytes of the structure,
  -- where the length of the value is negative.
  pub message_size-stored : message_size (stored msg n) ≡ n
  unfolding stored
  message_size-stored = ground (
    arith,
    load32-store32 (padded msg n) value_len_offset ((n + u64_mod - sizeof_accepted) % u32_mod)
        (omega (arith, length-padded)),
  )

  pub accepted_iid-stored : 8 ≤ n → accepted_iid (stored msg n) ≡ accepted_iid msg
  unfolding stored
  accepted_iid-stored h =
      load32-store32_ne (padded msg n) value_len_offset _ iid_offset (inl (omega arith))
      ∙ load32-front msg (replicate (slot_size - n) 0) n iid_offset there h

  -- For a message of bytes cut to between 40 and 240 bytes that it has, and whose own length of the
  -- value is what the cut leaves, the slot holds the message as it is, padded with zeros.
  pub stored-of_consistent :
      All IsByte msg
      → sizeof_accepted ≤ n
      → value_len msg ≡ n - sizeof_accepted
      → stored msg n ≡ padded msg n
  unfolding stored
  stored-of_consistent bytes big e =
      ap (store32 (padded msg n) value_len_offset) same_length
      ∙ store32-load32 (padded msg n) value_len_offset (
          All-append IsByte (take n msg) (replicate (slot_size - n) 0) (All-take IsByte n msg bytes)
            (All-replicate IsByte (slot_size - n) 0 zero-IsByte))
    where
      same_length :
          (n + u64_mod - sizeof_accepted) % u32_mod ≡ load32 (padded msg n) value_len_offset
      same_length = omega (
        arith,
        load32-front msg (replicate (slot_size - n) 0) n value_len_offset there (omega arith),
      )

  -- For a whole slot and a message cut to at most 240 bytes that it has, save_accepted returns a
  -- whole slot from which a reader computes the size that was stored, also below the 40 bytes of
  -- the structure, where the length of the value is negative; and from 8 bytes on it has the
  -- message's instance.
  pub save_accepted_reads_back :
      (slot : Bytes)
      → length slot ≡ slot_size
      → Returns (save_accepted slot msg n) λ saved.
        (length saved ≡ slot_size)
        × (message_size saved ≡ n)
        × (8 ≤ n → accepted_iid saved ≡ accepted_iid msg)
  save_accepted_reads_back slot h =
      rw (save_accepted_lem slot h) (length-stored, message_size-stored, accepted_iid-stored)

  -- For a whole slot and a message of bytes, cut to between 40 and 240 bytes that it has, whose own
  -- length of the value is what the cut leaves, save_accepted returns the message as it is, padded
  -- with zeros.
  pub save_accepted_consistent :
      (slot : Bytes)
      → length slot ≡ slot_size
      → All IsByte msg
      → sizeof_accepted ≤ n
      → value_len msg ≡ n - sizeof_accepted
      → save_accepted slot msg n ≡ some (padded msg n)
  save_accepted_consistent slot h bytes big e =
      save_accepted_lem slot h ∙ ap some (stored-of_consistent bytes big e)
