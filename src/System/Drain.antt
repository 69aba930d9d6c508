-- ===== src/System/Drain.antt =====
-- The thread of the read device over a whole ring of requests.
use kernel_paxos_persistence.ReadPersistence.{read_persistence_fops}
use kernel_paxos_persistence.Ring.Delivery.{head_slot}
use kernel_paxos_persistence.System.Lookup.{IsRecord}
use kernel_paxos_persistence.System.Round.{round_lem}
use kernel_paxos_persistence.Ring.{queued}
use kernel_paxos_persistence.Memory.{Bytes}
use kernel_paxos_persistence.Codec.{Malloc}
use kernel_paxos_persistence.System.{StorageThread, thread_rounds, thread_round}
use kernel_paxos_persistence.Types.{accepted_iid, buffer_size}
use kernel_paxos_persistence.Prelude.{
  ℕ, Option, ◌+◌, get_or, ◌%◌, get_elem?, ◌≡◌, [], suc, ◌<◌, ◌∙◌, arith, Returns, ◌≢◌, ap,
  Returns-inv, subst, zero, Returns-map, sym, refl, true,
}
use kernel_paxos_persistence.Kernel.{Kernel}
use kernel_paxos_persistence.System.Turn.{IsAnsweredAt, IsReading, IsServed, IsTurn, IsTable}
use kernel_paxos_persistence.Lmdb.{Lmdb, LmdbLaws}
use kernel_paxos_persistence.Device.{Device}

-- The instance that the k-th queued request asks for.
abbrev pub asked_iid : Device → ℕ → ℕ
asked_iid d k = accepted_iid (get_or (queued d) k [])

-- The number of the slot that the k-th queued request waits in.
abbrev pub slot_of : Device → ℕ → ℕ
slot_of d k = (d.first_buf + k) % buffer_size

-- From `r` to `r'`, when every request that was queued in `r` is answered.
pub record IsDrained (M : Lmdb) (L : LmdbLaws M) (r r' : StorageThread M) : Type 0 where
  pub reading : IsReading M r'
  pub empty : r'.device.used_buf ≡ 0
  pub answered :
      (k : ℕ)
      → k < r.device.used_buf
      → IsAnsweredAt r'.device
          (slot_of r.device k)
          (L.contents r.storage.env (asked_iid r.device k))
          (asked_iid r.device k)
  pub others :
      (i : ℕ)
      → ((k : ℕ) → k < r.device.used_buf → slot_of r.device k ≢ i)
      → get_elem? r'.device.callback_buf i ≡ get_elem? r.device.callback_buf i
  pub kept : (i : ℕ) → L.contents r'.storage.env i ≡ L.contents r.storage.env i

-- A callback that stays is still answered.
still_answered :
    (d d' : Device) (i : ℕ) (found : Option Bytes) (iid : ℕ)
    → get_elem? d'.callback_buf i ≡ get_elem? d.callback_buf i
    → IsAnsweredAt d i found iid
    → IsAnsweredAt d' i found iid
unfolding IsAnsweredAt
still_answered d d' i found iid e (c, response, at, said) = (c, response, e ∙ at, said)

-- The same answer, of the same slot, record and instance.
pub answered_as :
    (d : Device) (i i' : ℕ) (found found' : Option Bytes) (iid iid' : ℕ)
    → i' ≡ i
    → found' ≡ found
    → iid' ≡ iid
    → IsAnsweredAt d i found iid
    → IsAnsweredAt d i' found' iid'
answered_as d i i' found found' iid iid' i_eq found_eq iid_eq h = rw (i_eq, found_eq, iid_eq) h

module _ (K : Kernel) (M : Lmdb) (L : LmdbLaws M) (malloc : Malloc)
    (served : IsServed K M L malloc) where
  -- The first turn and the ones after it.
  after_turn :
      (r r₁ r₂ : StorageThread M)
      → IsReading M r
      → IsTurn M L r r₁
      → IsDrained M L r₁ r₂
      → IsDrained M L r r₂
  after_turn r r₁ r₂ ok turn rest = record {
    reading = rest.reading;
    empty = rest.empty;
    answered = answered;
    others = λ i apart.
        rest.others i (λ k h.
          subst (λ t. t ≢ i) (slot_after k) (apart (suc k) (omega (arith, h, turn.one_less))))
        ∙ turn.others i
            (λ e. apart 0 (omega (arith, turn.one_less)) (omega (arith, e, ok.ring.first_in)));
    kept = λ i. rest.kept i ∙ turn.kept i;
  }
    where
      slot_after : (k : ℕ) → slot_of r.device (suc k) ≡ slot_of r₁.device k
      slot_after k = omega (arith, turn.moved)

      asked_after : (k : ℕ) → asked_iid r.device (suc k) ≡ asked_iid r₁.device k
      asked_after k = ap (λ q. accepted_iid (get_or q (suc k) [])) turn.taken

      asked_first : asked_iid r.device 0 ≡ accepted_iid (head_slot r.device)
      asked_first = ap (λ q. accepted_iid (get_or q 0 [])) turn.taken

      answered :
          (k : ℕ)
          → k < r.device.used_buf
          → IsAnsweredAt r₂.device
              (slot_of r.device k)
              (L.contents r.storage.env (asked_iid r.device k))
              (asked_iid r.device k)
      answered zero h =
          answered_as r₂.device r.device.first_buf (slot_of r.device 0) _ _ _ _
            (omega (arith, ok.ring.first_in)) (ap (L.contents r.storage.env) asked_first)
            asked_first
            (still_answered r₁.device r₂.device r.device.first_buf _ _
              (rest.others r.device.first_buf λ k h'.
                (omega (arith, h', turn.one_less, turn.moved, ok.ring.first_in, ok.ring.used_in)))
              turn.answered)
      answered (suc k) h =
          answered_as r₂.device (slot_of r₁.device k) (slot_of r.device (suc k)) _ _ _ _
            (slot_after k)
            (ap (L.contents r.storage.env) (asked_after k)
              ∙ sym (turn.kept (asked_iid r₁.device k)))
            (asked_after k) (rest.answered k (omega (arith, h, turn.one_less)))

  pub drain_lem :
      (n : ℕ) (r : StorageThread M)
      → n ≡ r.device.used_buf
      → IsReading M r
      → IsTable M L r.storage.env
      → Returns (thread_rounds (read_persistence_fops K) M malloc true n r) (IsDrained M L r)
  unfolding thread_rounds
  drain_lem zero r e ok table = record {
    reading = ok;
    empty = omega arith;
    answered = λ k h. absurd (omega arith);
    others = λ i apart. refl;
    kept = λ i. refl;
  }
  drain_lem (suc n) r e ok table =
      let (r₁, first, turn) =
        Returns-inv _ (thread_round (read_persistence_fops K) M malloc true r)
          (round_lem K M L malloc served r ok (omega arith) table) in
      rw first (
        Returns-map _ _ (thread_rounds (read_persistence_fops K) M malloc true n r₁)
          (drain_lem n r₁ (omega (arith, turn.one_less)) turn.reading
            (λ i. subst (λ f. IsRecord f i) (sym (turn.kept i)) (table i)))
          λ r₂ rest. after_turn r r₁ r₂ ok turn rest)
