-- ===== src/System/Entry.antt =====
-- What the thread decodes from its buffer when the write device has delivered a message.
use kernel_paxos_persistence.Memory.Laws.{overwrite-split, length-overwrite}
use mathlib.Core.List.{append_assoc}
use kernel_paxos_persistence.System.Received.{load32-take}
use kernel_paxos_persistence.Ring.Delivery.{delivered}
use kernel_paxos_persistence.Codec.RoundTrip.{IsAccepted}
use kernel_paxos_persistence.Memory.Slice.{length-slice}
use kernel_paxos_persistence.UserStorage.Loop.{Incoming}
use kernel_paxos_persistence.Codec.{Accepted}
use kernel_paxos_persistence.Types.{
  value_len, sizeof_accepted, max_paxos_value_size, slot_size, sizeof_int, message_size,
  value_len_offset,
}
use kernel_paxos_persistence.Memory.{Bytes, slice, word32, overwrite}
use kernel_paxos_persistence.Prelude.{
  [], ℕ, take, length, ◌≤◌, ◌+◌, ◌≡◌, some, ◌++◌, drop, suc, arith, ◌∷◌, length-take, ap, zero, ◌∙◌,
  refl, sym, inr, length-drop,
}

-- A message whose value fits into its slot, and which fits into a buffer of `room` bytes.
pub record IsEntry (room : ℕ) (m : Bytes) : Type 0 where
  pub fits : value_len m ≤ max_paxos_value_size
  pub received : sizeof_int + sizeof_accepted + value_len m ≤ room

-- The value and the structure in a message.
abbrev pub value_of : Bytes → Bytes
value_of m = slice m sizeof_accepted (value_len m)

abbrev pub entry_of : Bytes → Accepted
entry_of m = record { image = take sizeof_accepted m; value_val = some (value_of m) }

-- The message as the loop of the thread takes it.
abbrev pub incoming : ℕ → Bytes → Bytes → Incoming
incoming first m rest = record {
  id = first;
  acc = entry_of m;
  value = value_of m;
  rest = rest;
  read_result = 0;
}

take_split : (n a b : ℕ) (m : Bytes) → n ≡ a + b → take n m ≡ take a m ++ take b (drop a m)
take_split n zero b m e = ap (λ k. take k m) (omega arith)
take_split zero (suc a) b m e = absurd (omega arith)
take_split (suc n) (suc a) zero [] e = refl
take_split (suc n) (suc a) (suc b) [] e = refl
take_split (suc n) (suc a) b (x ∷ m) e = ap (λ t. x ∷ t) (take_split n a b m (omega arith))

module _ (room : ℕ) (m : Bytes) (whole : length m ≡ slot_size) (ok : IsEntry room m) where
  pub size_lem : message_size m ≡ sizeof_accepted + value_len m
  size_lem = ground (arith, ok.fits)

  pub length-value_of : length (value_of m) ≡ value_len m
  length-value_of = length-slice m sizeof_accepted (value_len m) (omega (arith, ok.fits))

  pub entry-IsAccepted : IsAccepted (entry_of m) (value_of m)
  entry-IsAccepted = record {
    whole = omega (arith, length-take sizeof_accepted m);
    len_is = load32-take m value_len_offset (omega arith) (omega arith) ∙ sym length-value_of;
    small = omega (arith, length-value_of, ok.fits);
    there = inr refl;
  }

  -- The buffer after the read.
  pub delivered_entry :
      (buffer : Bytes) (first : ℕ)
      → length buffer ≡ room
      → (rest : Bytes) × (delivered buffer first m
          ≡ word32 first ++ ((entry_of m).image ++ (value_of m ++ rest)))
        × (length (delivered buffer first m) ≡ room)
  unfolding delivered
  delivered_entry buffer first size =
      let n = message_size m in
      let k = sizeof_int + n in
      let rest = drop k (word32 first ++ drop sizeof_int buffer) in
      (
        rest,
        ap (λ t. overwrite t sizeof_int (take n m))
              (overwrite-split buffer 0 (word32 first) sizeof_int refl (omega (arith, ok.received)))
            ∙ overwrite-split (word32 first ++ drop sizeof_int buffer) sizeof_int (take n m) k
                (omega (arith, size_lem, length-take n m, ok.fits))
                (omega (arith, size_lem, length-drop sizeof_int buffer, ok.received))
            ∙ ap (λ t. word32 first ++ (t ++ rest))
                (take_split n sizeof_accepted (value_len m) m size_lem)
            ∙ ap (λ t. word32 first ++ t) (append_assoc (take sizeof_accepted m) (value_of m) rest),
        length-overwrite (overwrite buffer 0 (word32 first)) sizeof_int (take n m)
            ∙ length-overwrite buffer 0 (word32 first)
            ∙ size,
      )
