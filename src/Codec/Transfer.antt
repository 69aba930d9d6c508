-- ===== src/Codec/Transfer.antt =====
-- The buffer of a client_value (client_value_to_buffer), and what the read device finds in it.
use mathlib.Core.List.{append_assoc}
use kernel_paxos_persistence.Memory.Fill.{memcpy_front, memcpy_mid}
use kernel_paxos_persistence.Memory.Laws.{load32-word32}
use kernel_paxos_persistence.Memory.Append.{load32-append_right, load32-append_left}
use kernel_paxos_persistence.Types.{
  buffer_size, max_paxos_value_size, accepted_iid, sizeof_client_value, value_len_offset,
  sizeof_int, iid_offset, sizeof_accepted,
}
use kernel_paxos_persistence.ReadPersistence.Answer.{
  sent_id, sent_iid, IsAnswer, sent_len, sent_value,
}
use kernel_paxos_persistence.Prelude.{
  ℕ, ◌<◌, ◌++◌, ◌≡◌, length, ◌%◌, ◌^◌, ◌≤◌, some, arith, length-append, ◌+◌, u64_mod, ◌∙◌, drop,
  length-drop, ap, refl, take, drop-append, take-append,
}
use kernel_paxos_persistence.Codec.RoundTrip.{
  IsAccepted, IsPlenty, accepted_size_lem, to_buffer_lem,
}
use kernel_paxos_persistence.Memory.{Bytes, word32, slice}
use kernel_paxos_persistence.Codec.{
  Accepted, ClientValue, client_value_to_buffer, fill_client_value, append_accepted, Malloc,
  IsMalloc, accepted_size,
}

module _ (acc : Accepted) (value : Bytes) (ok : IsAccepted acc value) (id : ℕ) where
  abbrev client : ClientValue
  client = record { buffer_id = id; value = acc }

  -- The number, the structure and the value, in a buffer that is twelve bytes longer.
  pub client_value_lem :
      (malloc : Malloc)
      → IsMalloc malloc
      → IsPlenty malloc
      → (rest : Bytes) × (length rest ≡ 12)
        × (client_value_to_buffer malloc client
            ≡ some (some (word32 id ++ (acc.image ++ (value ++ rest)))))
  unfolding client_value_to_buffer fill_client_value append_accepted
  client_value_lem malloc sized plenty =
      let size = (sizeof_client_value + accepted_size acc) % u64_mod in
      let (block, e) = plenty size in
      let (block_len, _) = sized size block e in
      let len_eq : length block.bytes ≡ 56 + length value =
        omega (arith, accepted_size_lem acc value ok, ok.small) in
      let tail = drop sizeof_int block.bytes in
      let tail_len = length-drop sizeof_int block.bytes in
      let n = accepted_size acc in
      (
        drop n tail,
        omega (arith, length-drop n tail, accepted_size_lem acc value ok),
        rw
            (
              client_value_to_buffer,
              e,
              to_buffer_lem acc value ok malloc sized plenty,
              memcpy_front block.bytes (word32 id) sizeof_int (omega arith) (omega arith),
              memcpy_mid (word32 id) tail (acc.image ++ value) sizeof_int n refl
                  (omega (arith, accepted_size_lem acc value ok))
                  (omega (
                    arith,
                    accepted_size_lem acc value ok,
                    length-append acc.image value,
                    ok.whole,
                  )),
            )
            (ap (λ t. some (some (word32 id ++ t))) (append_assoc acc.image value (drop n tail))),
      )

module _ (acc : Accepted) (value : Bytes) (ok : IsAccepted acc value) (id : ℕ) (rest : Bytes) where
  abbrev pub image_of : Bytes
  image_of = word32 id ++ (acc.image ++ (value ++ rest))

  -- What the device reads in it.
  pub sent_lem :
      (sent_id image_of ≡ id % 2 ^ 32)
      × (sent_iid image_of ≡ accepted_iid acc.image)
      × (sent_len image_of ≡ length value)
      × (sent_value image_of ≡ value)
  sent_lem =
      let behind = acc.image ++ (value ++ rest) in
      let len_eq : sent_len image_of ≡ length value =
        load32-append_right (word32 id) behind value_len_offset (sizeof_int + value_len_offset) refl
        ∙ load32-append_left acc.image (value ++ rest) value_len_offset (omega (arith, ok.whole))
        ∙ ok.len_is in
      (
        load32-append_left (word32 id) behind 0 (omega arith) ∙ load32-word32 id,
        load32-append_right (word32 id) behind iid_offset (sizeof_int + iid_offset) refl
            ∙ load32-append_left acc.image (value ++ rest) iid_offset (omega (arith, ok.whole)),
        len_eq,
        ap (λ n. slice image_of (sizeof_int + sizeof_accepted) n) len_eq
            ∙ ap (take (length value))
                (drop-append sizeof_accepted acc.image (value ++ rest) ok.whole)
            ∙ take-append (length value) value rest refl,
      )

  pub image-IsAnswer : id < buffer_size → length value ≤ max_paxos_value_size → IsAnswer image_of
  image-IsAnswer named fits =
      let (id_eq, _, len_eq, _) = sent_lem in
      record {
        names_slot = omega (arith, id_eq);
        value_fits = omega (arith, len_eq);
        complete = omega (
          arith,
          len_eq,
          length-append acc.image (value ++ rest),
          length-append value rest,
          ok.whole,
        );
      }
