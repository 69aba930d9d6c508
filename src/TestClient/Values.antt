-- ===== src/TestClient/Values.antt =====
-- The messages of writeProcess of testekerneldevice.c, and the slots that they are stored in.
use kernel_paxos_persistence.Memory.Append.{load32-append_left}
use kernel_paxos_persistence.Memory.Fill.{memcpy_whole}
use kernel_paxos_persistence.Memory.Laws.{
  length-store32, length-overwrite, load32-overwrite_ne, load32-store32, load32-store32_ne,
}
use kernel_paxos_persistence.Memory.Slice.{drop-store32}
use kernel_paxos_persistence.Codec.RoundTrip.{IsPlenty, IsAccepted}
use kernel_paxos_persistence.Prelude.{
  length, ◌++◌, ◌≡◌, ◌∷◌, [], ℕ, ◌+◌, replicate, ◌<◌, ◌^◌, ◌≤◌, Returns, arith, ◌-◌, ap,
  length-append, take, ◌∙◌, u64_mod, ◌%◌, u32_mod, drop, take-all, inl, inr, drop-append, refl,
  take-append,
}
use kernel_paxos_persistence.Types.{
  sizeof_accepted, accepted_iid, slot_size, iid_offset, value_len_offset, value_val_offset,
  value_len,
}
use kernel_paxos_persistence.TestClient.{client_msg, new_value, msg_len}
use kernel_paxos_persistence.WritePersistence.Save.{
  stored, accepted_iid-stored, padded, length-padded,
}
use kernel_paxos_persistence.Memory.{Bytes, slice, store32}
use kernel_paxos_persistence.Codec.{Malloc, IsMalloc, Accepted}
use mathlib.Core.List.{append_assoc}
use native.Mathlib.Nat.{mod-eq_of_lt}

-- CLIENT_MSG with its end.
abbrev pub client_value : Bytes
client_value = client_msg ++ (0 ∷ [])

-- A slot that holds the client's value for an instance.
pub record IsClientMessage (m : Bytes) : Type 0 where
  pub len : value_len m ≡ msg_len
  pub value : slice m sizeof_accepted msg_len ≡ client_value

stored_value :
    (image value : Bytes)
    → length image ≡ sizeof_accepted
    → slice
        (stored (image ++ value) (sizeof_accepted + length value))
        sizeof_accepted
        (length value)
      ≡ value
unfolding stored
stored_value image value h =
    let n = sizeof_accepted + length value in
    let zeros : Bytes = replicate (slot_size - n) 0 in
    ap (take (length value)) (
      drop-store32 (padded (image ++ value) n) value_len_offset
        ((n + u64_mod - sizeof_accepted) % u32_mod) sizeof_accepted (omega arith)
      ∙ ap (λ t. drop sizeof_accepted (t ++ zeros))
          (take-all n (image ++ value) (omega (arith, length-append image value)))
      ∙ ap (drop sizeof_accepted) (append_assoc image value zeros)
      ∙ drop-append sizeof_accepted image (value ++ zeros) h)
    ∙ take-append (length value) value zeros refl

stored_len : (msg : Bytes) → 104 ≤ length msg → value_len (stored msg 104) ≡ msg_len
unfolding stored
stored_len msg there =
    load32-store32 (padded msg 104) value_len_offset ((104 + u64_mod - sizeof_accepted) % u32_mod)
      (omega (arith, length-padded msg 104 (omega arith) there))
    ∙ omega arith

module _ (malloc : Malloc) (sized : IsMalloc malloc) (plenty : IsPlenty malloc) where
  pub new_value_lem :
      (i : ℕ)
      → i < 2 ^ 32
      → Returns
          (new_value malloc i)
          λ acc. IsAccepted acc client_value × (accepted_iid acc.image ≡ i)
  unfolding new_value
  new_value_lem i small =
      let (b, e) = plenty sizeof_accepted in
      let (v, e') = plenty msg_len in
      let whole = (sized sizeof_accepted b e).0 in
      let with_iid : Bytes = store32 b.bytes iid_offset i in
      let with_len : Bytes = store32 with_iid value_len_offset msg_len in
      let iid_length = length-store32 b.bytes iid_offset i in
      rw (e, e', memcpy_whole v.bytes client_value [] msg_len (sized msg_len v e').0 refl)
        (
          record {
            whole =
                length-overwrite with_len value_val_offset v.address
                ∙ length-store32 with_iid value_len_offset msg_len
                ∙ iid_length
                ∙ whole;
            len_is =
                load32-overwrite_ne with_len value_val_offset v.address value_len_offset
                  (inl (omega arith))
                ∙ load32-store32 with_iid value_len_offset msg_len (omega (arith, iid_length));
            small = omega arith;
            there = inr refl;
          },
          load32-overwrite_ne with_len value_val_offset v.address iid_offset (inl (omega arith))
              ∙ load32-store32_ne with_iid value_len_offset msg_len iid_offset (inl (omega arith))
              ∙ load32-store32 b.bytes iid_offset i (omega arith)
              ∙ mod-eq_of_lt small,
        )

  -- What is stored of such a message.
  pub client_message_lem :
      (acc : Accepted)
      → IsAccepted acc client_value
      → IsClientMessage (stored (acc.image ++ client_value) 104)
        × (accepted_iid (stored (acc.image ++ client_value) 104) ≡ accepted_iid acc.image)
  client_message_lem acc ok =
      let there : 104 ≤ length (acc.image ++ client_value) =
        omega (arith, length-append acc.image client_value, ok.whole) in
      (
        record {
          len = stored_len (acc.image ++ client_value) there;
          value = stored_value acc.image client_value ok.whole;
        },
        accepted_iid-stored (acc.image ++ client_value) 104 (omega arith) there (omega arith)
            ∙ load32-append_left acc.image client_value iid_offset (omega (arith, ok.whole)),
      )
