-- ===== src/ReadPersistence/Save.antt =====
-- What read_persistence_add_message leaves in a slot.
use kernel_paxos_persistence.Memory.Fill.{memcpy_front, load32-front}
use kernel_paxos_persistence.Memory.Laws.{memset_ok, memcpy_out_of_bounds, overwrite-split}
use kernel_paxos_persistence.ReadPersistence.{save_request, accepted_iid, message_size}
use kernel_paxos_persistence.Types.{slot_size, sizeof_accepted, iid_offset, value_len_offset}
use kernel_paxos_persistence.Prelude.{
  ℕ, take, length, ◌++◌, ◌≡◌, drop, replicate, ◌≤◌, arith, some, ◌<◌, length-append, none, ap,
  length-replicate, ◌∙◌, ◌+◌, length-drop, inl, sign_extend, ◌%◌, u64_mod, length-take,
}
use kernel_paxos_persistence.Memory.{Bytes, memset}

-- The request, then zeros up to the end of the structure, then what the slot held before.
unfoldable pub requested : Bytes → Bytes → ℕ → Bytes
requested slot msg n =
    take n msg ++ drop n (replicate sizeof_accepted 0 ++ drop sizeof_accepted slot)

module _ (slot msg : Bytes) (n : ℕ) (whole : length slot ≡ slot_size) where
  cleared_length : length (replicate sizeof_accepted 0 ++ drop sizeof_accepted slot) ≡ slot_size
  cleared_length = omega (
    arith,
    length-append (replicate sizeof_accepted 0) (drop sizeof_accepted slot),
    length-replicate {A = ℕ} sizeof_accepted 0,
    length-drop sizeof_accepted slot,
  )

  cleared_lem :
      memset slot sizeof_accepted ≡ some (replicate sizeof_accepted 0 ++ drop sizeof_accepted slot)
  cleared_lem =
      memset_ok slot sizeof_accepted (omega arith)
      ∙ ap some (
          overwrite-split slot 0 (replicate sizeof_accepted 0) sizeof_accepted
            (omega (arith, length-replicate {A = ℕ} sizeof_accepted 0)) (omega arith))

  pub save_request_lem :
      n ≤ slot_size → n ≤ length msg → save_request slot msg n ≡ some (requested slot msg n)
  unfolding save_request requested
  save_request_lem fits there = rw cleared_lem (
      memcpy_front (replicate sizeof_accepted 0 ++ drop sizeof_accepted slot) msg n
        (omega (arith, cleared_length)) there)

  -- A request longer than a slot runs over its end.
  pub save_request_overflow : slot_size < n → save_request slot msg n ≡ none
  unfolding save_request
  save_request_overflow long = rw cleared_lem (
      memcpy_out_of_bounds (replicate sizeof_accepted 0 ++ drop sizeof_accepted slot) 0 msg n
        (inl (omega (arith, cleared_length))))

  pub length-requested : n ≤ slot_size → n ≤ length msg → length (requested slot msg n) ≡ slot_size
  unfolding requested
  length-requested fits there = omega (
    arith,
    cleared_length,
    length-append (take n msg) (drop n (replicate sizeof_accepted 0 ++ drop sizeof_accepted slot)),
    length-take n msg,
    length-drop n (replicate sizeof_accepted 0 ++ drop sizeof_accepted slot),
  )

  pub accepted_iid-requested :
      8 ≤ n → n ≤ length msg → accepted_iid (requested slot msg n) ≡ accepted_iid msg
  unfolding requested
  accepted_iid-requested h there = load32-front msg _ n iid_offset there h

  -- A request with the whole structure has the size that its length field says.
  pub message_size-requested :
      sizeof_accepted ≤ n → n ≤ length msg → message_size (requested slot msg n) ≡ message_size msg
  unfolding requested
  message_size-requested h there =
      ap (λ v. (sizeof_accepted + sign_extend v) % u64_mod)
        (load32-front msg _ n value_len_offset there (omega arith))
