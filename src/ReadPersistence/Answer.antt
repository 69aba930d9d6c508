-- ===== src/ReadPersistence/Answer.antt =====
-- The copies of read_persistence_write: the structure and its value.
use kernel_paxos_persistence.Memory.Slice.{length-slice, load32-slice}
use kernel_paxos_persistence.Memory.Fill.{overwrite_all, drop-replicate}
use kernel_paxos_persistence.Memory.Laws.{
  length-store32, length-overwrite, load32-overwrite_ne, load32-overwrite_at, overwrite-split,
}
use kernel_paxos_persistence.ReadPersistence.{
  copy_header, sizeof_int, buffer_size, sizeof_accepted, value_len, value_val_offset,
  restore_value_val, copy_value,
}
use kernel_paxos_persistence.Ring.{IsResponse}
use kernel_paxos_persistence.Types.{
  accepted_iid, iid_offset, value_len_offset, max_paxos_value_size, ballot_offset,
  promise_iid_offset,
}
use kernel_paxos_persistence.Prelude.{
  ℕ, ◌<◌, ◌+◌, ◌≡◌, replicate, ◌≤◌, length, ◌++◌, ◌∙◌, arith, ◌-◌, length-replicate, some, inl,
  Bool-cases, ap, is_positive, leb, true, inr, refl, drop,
}
use kernel_paxos_persistence.Device.{Response, clear_paxos_accepted}
use kernel_paxos_persistence.Kernel.{Kernel}
use kernel_paxos_persistence.Memory.{Bytes, slice, load32}

-- The number of the slot, and the value's length, in what the user wrote.
abbrev pub sent_id : Bytes → ℕ
sent_id buffer = load32 buffer 0

abbrev pub sent_iid : Bytes → ℕ
sent_iid buffer = load32 buffer (sizeof_int + iid_offset)

abbrev pub sent_len : Bytes → ℕ
sent_len buffer = load32 buffer (sizeof_int + value_len_offset)

abbrev pub sent_value : Bytes → Bytes
sent_value buffer = slice buffer (sizeof_int + sizeof_accepted) (sent_len buffer)

-- Copies from a buffer that is there do not fail.
abbrev pub IsReadable : Kernel → Type 0
IsReadable K =
    (to from : Bytes) (off n : ℕ) → off + n ≤ length from → (K.copy_from_user to from off n).0 ≡ 0

-- The user wrote a number, a structure, and a value that fits into a response.
pub record IsAnswer (buffer : Bytes) : Type 0 where
  pub names_slot : sent_id buffer < buffer_size
  pub value_fits : sent_len buffer ≤ max_paxos_value_size
  pub complete : sizeof_int + sizeof_accepted + sent_len buffer ≤ length buffer

-- What the waiter finds in its response.
pub record IsAnswered (r : Response) (buffer : Bytes) : Type 0 where
  pub iid_sent : accepted_iid r.header ≡ sent_iid buffer
  pub len_sent : value_len r.header ≡ sent_len buffer
  pub value_sent :
      r.value ≡ sent_value buffer ++ replicate (max_paxos_value_size - sent_len buffer) 0
  pub well_formed : IsResponse r

pub clear-IsResponse : (r : Response) → IsResponse r → IsResponse (clear_paxos_accepted r)
unfolding clear_paxos_accepted
clear-IsResponse r (h, v) = (
  length-store32 _ value_len_offset 0
      ∙ length-store32 _ ballot_offset 0
      ∙ length-store32 _ promise_iid_offset 0
      ∙ length-store32 r.header iid_offset 0
      ∙ h,
  length-overwrite r.value 0 (replicate max_paxos_value_size 0) ∙ v,
)

value-clear :
    (r : Response)
    → IsResponse r
    → (clear_paxos_accepted r).value ≡ replicate max_paxos_value_size 0
unfolding clear_paxos_accepted
value-clear r (h, v) =
    overwrite_all r.value (replicate max_paxos_value_size 0)
      (omega (arith, length-replicate {A = ℕ} max_paxos_value_size 0))

module _ (K : Kernel) (reads : IsReadable K) (buffer : Bytes) (answer : IsAnswer buffer) where
  open K use {copy_from_user, copy_from_user_done, copy_from_user_length}
  open answer use {names_slot, value_fits, complete}

  -- A word of the copied structure before the pointer.
  word_lem :
      (old : Bytes) (i : ℕ)
      → length old ≡ sizeof_accepted
      → i + 4 ≤ value_val_offset
      → load32 (restore_value_val old (copy_from_user old buffer sizeof_int sizeof_accepted).1) i
        ≡ load32 buffer (sizeof_int + i)
  word_lem old i h k =
      load32-overwrite_ne _ value_val_offset _ i (inl k)
      ∙ ap (λ t. load32 t i)
          (copy_from_user_done old buffer sizeof_int sizeof_accepted
            (reads old buffer sizeof_int sizeof_accepted (omega arith)))
      ∙ load32-overwrite_at old 0 (slice buffer sizeof_int sizeof_accepted) i i (omega arith)
          (omega arith)
          (omega (arith, length-slice buffer sizeof_int sizeof_accepted (omega arith)))
      ∙ load32-slice buffer sizeof_int sizeof_accepted (sizeof_int + i) i refl (omega arith)

  -- The copied structure, its pointer put back.
  pub header_lem :
      (r : Response)
      → IsResponse r
      → ((copy_header K r buffer).0 ≡ 0)
        × IsResponse (copy_header K r buffer).1
        × (accepted_iid (copy_header K r buffer).1.header ≡ sent_iid buffer)
        × (value_len (copy_header K r buffer).1.header ≡ sent_len buffer)
        × ((copy_header K r buffer).1.value ≡ replicate max_paxos_value_size 0)
  unfolding copy_header
  header_lem r ok =
      let c = clear_paxos_accepted r in
      let (ch, cv) = clear-IsResponse r ok in
      let done = reads c.header buffer sizeof_int sizeof_accepted (omega arith) in
      let n = copy_from_user_length c.header buffer sizeof_int sizeof_accepted in
      (
        done,
        (length-overwrite _ value_val_offset _ ∙ n ∙ ch, cv),
        word_lem c.header iid_offset ch (omega arith),
        word_lem c.header value_len_offset ch (omega arith),
        value-clear r ok,
      )

  -- The value behind it.
  pub value_lem :
      (r : Response)
      → IsResponse r
      → value_len r.header ≡ sent_len buffer
      → accepted_iid r.header ≡ sent_iid buffer
      → r.value ≡ replicate max_paxos_value_size 0
      → (r' : Response) × (copy_value K r buffer ≡ some (0, r')) × IsAnswered r' buffer
  unfolding copy_value
  value_lem r (h, v) len_eq iid_eq zeros = elim (Bool-cases (is_positive (sent_len buffer))) [
    | inl some_value ↦
        let n = sent_len buffer in
        let done = reads r.value buffer (sizeof_int + sizeof_accepted) n complete in
        let inside : leb n (length r.value) ≡ true = ground arith in
        let r' : Response = record r {
          value = (copy_from_user r.value buffer (sizeof_int + sizeof_accepted) n).1;
        } in
        (
          r',
          rw (len_eq, some_value, inside, done),
          record {
            iid_sent = iid_eq;
            len_sent = len_eq;
            value_sent =
                copy_from_user_done r.value buffer (sizeof_int + sizeof_accepted) n done
                ∙ overwrite-split r.value 0 (sent_value buffer) n
                    (omega (arith, length-slice buffer (sizeof_int + sizeof_accepted) n complete))
                    (omega arith)
                ∙ ap (λ t. sent_value buffer ++ t)
                    (ap (drop n) zeros ∙ drop-replicate n max_paxos_value_size 0);
            well_formed =
                (h, copy_from_user_length r.value buffer (sizeof_int + sizeof_accepted) n ∙ v);
          },
        )
    | inr no_value ↦
        let zero_len : sent_len buffer ≡ 0 = ground arith in
        (
          r,
          rw (len_eq, no_value),
          record {
            iid_sent = iid_eq;
            len_sent = len_eq;
            value_sent = rw zero_len zeros;
            well_formed = (h, v);
          },
        )
  ]
