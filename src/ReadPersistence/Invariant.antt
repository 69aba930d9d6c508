-- ===== src/ReadPersistence/Invariant.antt =====
-- The ring after read_persistence_write.
use kernel_paxos_persistence.ReadPersistence.Complete.{answered-IsCallback}
use kernel_paxos_persistence.Ring.Step.{drop_slot-IsRing, set_callback-IsRing, drop_slot}
use kernel_paxos_persistence.Memory.Laws.{length-overwrite}
use kernel_paxos_persistence.Prelude.{
  ◌≡◌, ◌≢◌, arith, ◌+◌, ◌∙◌, Bool-cases, ◌==◌, inl, inr, List, Keeps, All, Keeps-bind, get_elem?,
  replicate, ◌∷◌, suc, [], zero, subst, sym,
}
use kernel_paxos_persistence.ReadPersistence.Answer.{clear-IsResponse}
use kernel_paxos_persistence.Ring.{IsResponse, IsRing, IsCallback}
use kernel_paxos_persistence.ReadPersistence.{
  copy_header, copy_value, finish_answer, read_persistence_answer, Response, Device, Bytes, ℕ,
  Callback, clear_paxos_accepted, value_val_offset, sizeof_int, sizeof_accepted, value_len,
  read_persistence_write, load32,
}
use kernel_paxos_persistence.Kernel.{Kernel}

Keeps-get_elem? :
    {A : Type 0} (P : A → Type 0) (xs : List A) (i : ℕ) → All P xs → Keeps P (get_elem? xs i)
Keeps-get_elem? P [] i h = tt
Keeps-get_elem? P (x ∷ xs) zero h = h.0
Keeps-get_elem? P (x ∷ xs) (suc i) h = Keeps-get_elem? P xs i h.1

response-IsResponse : (c : Callback) → IsCallback c → Keeps IsResponse c.response
response-IsResponse c ok =
    let (r, r_eq, r_ok) = ok.has_response in subst (Keeps IsResponse) (sym r_eq) r_ok

module _ (K : Kernel) where
  copy_header-IsResponse :
      (r : Response) (buffer : Bytes) → IsResponse r → IsResponse (copy_header K r buffer).1
  unfolding copy_header
  copy_header-IsResponse r buffer ok =
      let (h, v) = clear-IsResponse r ok in
      let c = clear_paxos_accepted r in
      (
        length-overwrite _ value_val_offset _
            ∙ K.copy_from_user_length c.header buffer sizeof_int sizeof_accepted
            ∙ h,
        v,
      )

  copy_value-IsResponse :
      (r : Response) (buffer : Bytes)
      → IsResponse r
      → Keeps (λ s. IsResponse s.1) (copy_value K r buffer)
  unfolding copy_value
  copy_value-IsResponse r buffer (h, v) = ground (
    arith,
    K.copy_from_user_length r.value buffer (sizeof_int + sizeof_accepted) (value_len r.header),
  )

  finish-IsRing :
      (d : Device) (id : ℕ) (c : Callback) (e len : ℕ)
      → IsRing d
      → d.used_buf ≢ 0
      → IsCallback c
      → IsRing (finish_answer K d id c e len).1
  unfolding finish_answer
  finish-IsRing d id c e len ring nonempty ok =
      let used = K.atomic_dec d.used_buf in
      let one_less : d.used_buf ≡ used + 1 =
        omega (arith, K.atomic_dec_lem d.used_buf, ring.used_in) in
      let dropped = drop_slot-IsRing d used ring one_less in
      elim (Bool-cases (e == 0)) [
        | inl done ↦ elim (Bool-cases (c.is_done == 0)) [
          | inl waits ↦
              rw (done, waits)
                (set_callback-IsRing (drop_slot d used) id _ dropped
                  (record { has_response = ok.has_response }))
          | inr gone ↦ rw (done, gone) (set_callback-IsRing (drop_slot d used) id c dropped ok)
        ]
        | inr failed ↦ rw failed (set_callback-IsRing (drop_slot d used) id c dropped ok)
      ]

  answer-IsRing :
      (d : Device) (id : ℕ) (c : Callback) (r : Response) (buffer : Bytes) (len : ℕ)
      → IsRing d
      → d.used_buf ≢ 0
      → IsResponse r
      → Keeps (λ s. IsRing s.1) (read_persistence_answer K d id c r buffer len)
  unfolding read_persistence_answer
  answer-IsRing d id c r buffer len ring nonempty ok =
      let r₁ = (copy_header K r buffer).1 in
      let ok₁ = copy_header-IsResponse r buffer ok in
      elim (Bool-cases ((copy_header K r buffer).0 == 0)) [
        | inl copied ↦ rw copied (
            Keeps-bind _ _ (copy_value K r₁ buffer) _ (copy_value-IsResponse r₁ buffer ok₁)
              λ (e, r₂) ok₂.
                finish-IsRing d id _ e len ring nonempty (answered-IsCallback c r₂ ok₂))
        | inr failed ↦ rw failed (set_callback-IsRing d id _ ring (answered-IsCallback c r₁ ok₁))
      ]

  -- If read_persistence_write returns on a device with a well-formed ring that is not empty, the
  -- ring is well formed afterwards, whatever was written and whatever the copies returned.
  pub write-IsRing :
      (d : Device) (buffer : Bytes) (len : ℕ)
      → IsRing d
      → d.used_buf ≢ 0
      → Keeps (λ s. IsRing s.1) (read_persistence_write K d buffer len)
  unfolding read_persistence_write
  write-IsRing d buffer len ring nonempty =
      let id = load32 (K.copy_from_user (replicate sizeof_int 0) buffer 0 sizeof_int).1 0 in
      elim (Bool-cases (d.working == 0)) [
        | inl off ↦ rw off ring
        | inr on ↦
            elim (Bool-cases
              ((K.copy_from_user (replicate sizeof_int 0) buffer 0 sizeof_int).0 == 0)) [
                | inl copied ↦
                    rw (on, copied)
                      (Keeps-bind _ _ (get_elem? d.callback_buf id) _
                        (Keeps-get_elem? IsCallback d.callback_buf id ring.responses)
                        λ c c_ok.
                          Keeps-bind IsResponse _ c.response _ (response-IsResponse c c_ok)
                            λ r r_ok. answer-IsRing d id c r buffer len ring nonempty r_ok)
                | inr failed ↦ rw (on, failed) ring
              ]
      ]
