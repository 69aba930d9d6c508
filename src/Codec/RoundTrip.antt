-- ===== src/Codec/RoundTrip.antt =====
-- paxos_accepted_to_buffer followed by buffer_to_paxos_accepted.
use mathlib.Core.List.{append-nil}
use kernel_paxos_persistence.Memory.Laws.{length-overwrite, load32-overwrite_ne}
use kernel_paxos_persistence.Memory.Fill.{memcpy_front, nil_of_length, memcpy_whole, memcpy_tail}
use kernel_paxos_persistence.Types.{sizeof_accepted, value_len, value_val_offset, value_len_offset}
use kernel_paxos_persistence.Prelude.{
  ℕ, length, ◌≡◌, some, arith, ◌++◌, inl, Returns, ◌+◌, ◌∙◌, ltb, ◌<◌, ◌≤◌, false, take-all, ◌^◌,
  ap, drop, ◌⊎◌, length-drop, length-append, sym, Bool-cases, inr, is_positive, drop-append, refl,
  [], Returns-inv, Option, none,
}
use kernel_paxos_persistence.Memory.{Bytes, load32, overwrite}
use kernel_paxos_persistence.Codec.{
  Accepted, Malloc, Block, size_of_value, accepted_size, append_value, fill_accepted,
  paxos_accepted_to_buffer, buffer_to_paxos_accepted, IsMalloc, read_value, null_bytes,
}

-- A structure whose length is that of `value`, with that block behind its pointer if there is a value.
pub record IsAccepted (acc : Accepted) (value : Bytes) : Type 0 where
  pub whole : length acc.image ≡ sizeof_accepted
  pub len_is : value_len acc.image ≡ length value
  pub small : length value < 2 ^ 31
  pub there : (length value ≡ 0) ⊎ (acc.value_val ≡ some value)

-- An accepted that went through its buffer: the value, and every word before the pointer, are kept.
pub record IsSame (acc acc' : Accepted) (value : Bytes) : Type 0 where
  pub kept : IsAccepted acc' value
  pub words : (i : ℕ) → i + 4 ≤ value_val_offset → load32 acc'.image i ≡ load32 acc.image i

-- Every call of malloc has memory.
abbrev pub IsPlenty : Malloc → Type 0
IsPlenty malloc = (n : ℕ) → (b : Block) × (malloc n ≡ some b)

module _ (acc : Accepted) (value : Bytes) (ok : IsAccepted acc value) where
  pub size_of_value_lem : size_of_value acc ≡ length value
  size_of_value_lem = ground (arith, ok.len_is, ok.small)

  pub accepted_size_lem : accepted_size acc ≡ sizeof_accepted + length value
  accepted_size_lem = omega (arith, size_of_value_lem, ok.small)

  append_lem :
      (rest : Bytes)
      → length rest ≡ length value
      → append_value (acc.image ++ rest) acc ≡ some (acc.image ++ value)
  unfolding append_value
  append_lem rest h = elim ok.there [
    | inl none_there ↦
        let off : ltb 0 (size_of_value acc) ≡ false = ground (arith, size_of_value_lem) in
        rw off (
          ap (λ t. some (acc.image ++ t))
            (nil_of_length rest (omega arith) ∙ sym (nil_of_length value none_there)))
    | inr there ↦ elim (Bool-cases (ltb 0 (size_of_value acc))) [
      | inl on ↦
          rw (on, there, size_of_value_lem)
            (memcpy_tail acc.image rest value sizeof_accepted (length value) ok.whole h refl)
      | inr off ↦
          let no_value : length value ≡ 0 = ground (arith, size_of_value_lem) in
          rw off (
            ap (λ t. some (acc.image ++ t))
              (nil_of_length rest (omega arith) ∙ sym (nil_of_length value no_value)))
    ]
  ]

  -- The buffer is the structure with the value behind it.
  pub fill_lem :
      (buffer : Bytes)
      → length buffer ≡ sizeof_accepted + length value
      → fill_accepted buffer acc ≡ some (acc.image ++ value)
  unfolding fill_accepted
  fill_lem buffer h =
      rw
        (
          memcpy_front buffer acc.image sizeof_accepted (omega arith) (omega (arith, ok.whole)),
          take-all sizeof_accepted acc.image (omega (arith, ok.whole)),
        )
        (append_lem (drop sizeof_accepted buffer)
          (omega (arith, length-drop sizeof_accepted buffer)))

  pub to_buffer_lem :
      (malloc : Malloc)
      → IsMalloc malloc
      → IsPlenty malloc
      → paxos_accepted_to_buffer malloc acc ≡ some (some (acc.image ++ value))
  unfolding paxos_accepted_to_buffer
  to_buffer_lem malloc sized plenty =
      let (block, e) = plenty (accepted_size acc) in
      rw (
        paxos_accepted_to_buffer,
        e,
        fill_lem block.bytes ((sized (accepted_size acc) block e).0 ∙ accepted_size_lem),
      )

  -- Only the pointer changes.
  pointer_lem :
      (address : Bytes) (block : Option Bytes)
      → (length value ≡ 0) ⊎ (block ≡ some value)
      → IsSame acc
          (record { image = overwrite acc.image value_val_offset address; value_val = block })
          value
  pointer_lem address block there = record {
    kept = record {
      whole = length-overwrite acc.image value_val_offset address ∙ ok.whole;
      len_is =
          load32-overwrite_ne acc.image value_val_offset address value_len_offset
            (inl (omega arith))
          ∙ ok.len_is;
      small = ok.small;
      there = there;
    };
    words = λ i h. load32-overwrite_ne acc.image value_val_offset address i (inl h);
  }

  -- Reading a buffer that begins so.
  pub of_buffer_lem :
      (malloc : Malloc) (out : Accepted) (rest : Bytes)
      → IsMalloc malloc
      → IsPlenty malloc
      → length out.image ≡ sizeof_accepted
      → Returns
          (buffer_to_paxos_accepted malloc (acc.image ++ (value ++ rest)) out)
          λ acc'. IsSame acc acc' value
  unfolding buffer_to_paxos_accepted read_value
  of_buffer_lem malloc out rest sized plenty whole =
      rw (memcpy_whole out.image acc.image (value ++ rest) sizeof_accepted whole ok.whole)
        (elim (Bool-cases (is_positive (value_len acc.image))) [
          | inl some_value ↦
              let (block, e) = plenty (value_len acc.image) in
              let (block_len, _) = sized (value_len acc.image) block e in
              rw
                (
                  some_value,
                  e,
                  drop-append sizeof_accepted acc.image (value ++ rest) ok.whole,
                  memcpy_whole block.bytes value rest (value_len acc.image) block_len
                      (sym ok.len_is),
                )
                (pointer_lem block.address (some value) (inr refl))
          | inr no_value ↦
              rw no_value (pointer_lem null_bytes none (inl (ground (arith, ok.len_is, ok.small))))
        ])

pub decode_lem :
    (acc : Accepted) (value : Bytes) (ok : IsAccepted acc value) (malloc : Malloc) (out : Accepted)
    → IsMalloc malloc
    → IsPlenty malloc
    → length out.image ≡ sizeof_accepted
    → (acc' : Accepted) × (buffer_to_paxos_accepted malloc (acc.image ++ value) out ≡ some acc')
      × IsSame acc acc' value
decode_lem acc value ok malloc out sized plenty whole =
    let (acc', e, same) =
      Returns-inv (λ acc'. IsSame acc acc' value) _
        (of_buffer_lem acc value ok malloc out [] sized plenty whole) in
    (
      acc',
      ap (λ t. buffer_to_paxos_accepted malloc (acc.image ++ t) out) (sym (append-nil value)) ∙ e,
      same,
    )

-- When malloc has memory, paxos_accepted_to_buffer of a whole accepted value gives a buffer of 40
-- bytes and the value's length, and buffer_to_paxos_accepted of that buffer returns a whole
-- accepted with the same value and the same words before the pointer.
pub buffer_round_trip :
    (malloc : Malloc) (acc out : Accepted) (value : Bytes)
    → IsMalloc malloc
    → IsPlenty malloc
    → IsAccepted acc value
    → length out.image ≡ sizeof_accepted
    → Returns (paxos_accepted_to_buffer malloc acc) λ result.
      (buffer : Bytes) × (result ≡ some buffer)
      × (length buffer ≡ sizeof_accepted + length value)
      × Returns (buffer_to_paxos_accepted malloc buffer out) λ acc'. IsSame acc acc' value
buffer_round_trip malloc acc out value sized plenty ok whole =
    let (acc', e, same) = decode_lem acc value ok malloc out sized plenty whole in
    rw (to_buffer_lem acc value ok malloc sized plenty)
      (acc.image ++ value, refl, omega (arith, length-append acc.image value, ok.whole), rw e same)
