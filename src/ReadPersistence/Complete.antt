-- ===== src/ReadPersistence/Complete.antt =====
-- read_persistence_write as a whole, when the storage sends a well-formed answer.
use kernel_paxos_persistence.Ring.Step.{
  drop_slot, set_callback-IsRing, drop_slot-IsRing, queued-drop_slot,
}
use kernel_paxos_persistence.Memory.Slice.{length-slice, load32-slice}
use kernel_paxos_persistence.Memory.Laws.{load32-overwrite_at}
use kernel_paxos_persistence.Ring.Delivery.{head_slot}
use kernel_paxos_persistence.ReadPersistence.{
  read_persistence_write, sizeof_int, read_persistence_answer, finish_answer, copy_header,
}
use kernel_paxos_persistence.Ring.{IsRing, queued, IsCallback, IsResponse}
use kernel_paxos_persistence.Prelude.{
  ℕ, ◌≢◌, replicate, ◌≡◌, Returns, to_ssize, arith, ap, ◌∙◌, ◌∷◌, get_elem?, some, if◌then◌else◌,
  ◌==◌, false, ◌≤◌, ◌+◌, Bool-cases, length, refl, inl, All-get_elem?, inr, get_elem?-set_self,
  get_elem?-set_ne,
}
use kernel_paxos_persistence.Memory.{Bytes, load32, slice}
use kernel_paxos_persistence.Device.{Device, Callback, Response, wake_up, set_callback}
use kernel_paxos_persistence.ReadPersistence.Answer.{
  IsReadable, IsAnswer, sent_id, IsAnswered, header_lem, value_lem,
}
use kernel_paxos_persistence.Kernel.{Kernel}

-- The callback after its waiter, if it still waits, has been woken.
abbrev pub woken : Callback → Callback
woken c = if c.is_done == 0 then record c { response_wait = wake_up ∷ c.response_wait } else c

pub woken-IsCallback : (c : Callback) → IsCallback c → IsCallback (woken c)
woken-IsCallback c ok = elim (Bool-cases (c.is_done == 0)) [
  | inl waits ↦ rw waits (record { has_response = ok.has_response })
  | inr done ↦ rw done ok
]

pub answered-IsCallback :
    (c : Callback) (r : Response) → IsResponse r → IsCallback (record c { response = some r })
answered-IsCallback c r ok = record { has_response = (r, refl, ok) }

finish_lem :
    (K : Kernel) (d : Device) (id : ℕ) (c : Callback) (len : ℕ)
    → finish_answer K d id c 0 len
      ≡ (to_ssize len, set_callback (drop_slot d (K.atomic_dec d.used_buf)) id (woken c))
unfolding finish_answer
finish_lem K d id c len = ground arith

-- The number that the handler reads is the one that the user wrote.
pub id_lem :
    (K : Kernel) (buffer : Bytes)
    → IsReadable K
    → sizeof_int ≤ length buffer
    → ((K.copy_from_user (replicate sizeof_int 0) buffer 0 sizeof_int).0 ≡ 0)
      × (load32 (K.copy_from_user (replicate sizeof_int 0) buffer 0 sizeof_int).1 0
          ≡ sent_id buffer)
id_lem K buffer reads h =
    let zeros : Bytes = replicate sizeof_int 0 in
    let done = reads zeros buffer 0 sizeof_int h in
    (
      done,
      ap (λ t. load32 t 0) (K.copy_from_user_done zeros buffer 0 sizeof_int done)
          ∙ load32-overwrite_at zeros 0 (slice buffer 0 sizeof_int) 0 0 (omega arith) (omega arith)
              (omega (arith, length-slice buffer 0 sizeof_int h))
          ∙ load32-slice buffer 0 sizeof_int 0 0 (omega arith) (omega arith),
    )

module _ (K : Kernel) (reads : IsReadable K) (d : Device) (buffer : Bytes) (len : ℕ) (c : Callback)
    (ring : IsRing d) (works : d.working ≢ 0) (answer : IsAnswer buffer)
    (c_eq : get_elem? d.callback_buf (sent_id buffer) ≡ some c) where
  -- The handler in one step: the response is filled, the queue moves on, the waiter is woken.
  pub answer_steps :
      (r' : Response) × IsAnswered r' buffer
      × (read_persistence_write K d buffer len
          ≡ some (
            to_ssize len,
            set_callback
                (drop_slot d (K.atomic_dec d.used_buf))
                (sent_id buffer)
                (woken (record c { response = some r' })),
          ))
  unfolding read_persistence_write read_persistence_answer
  answer_steps =
      let c_ok = All-get_elem? IsCallback d.callback_buf (sent_id buffer) ring.responses c_eq in
      let (response, r_eq, r_ok) = c_ok.has_response in
      let (e_eq, h_ok, iid_eq, len_eq, zeros) = header_lem K reads buffer answer response r_ok in
      let (r', v_eq, answered) =
        value_lem K reads buffer answer (copy_header K response buffer).1 h_ok len_eq iid_eq
          zeros in
      let on : (d.working == 0) ≡ false = ground arith in
      let (id_ok, id_eq) = id_lem K buffer reads (omega (arith, answer.complete)) in
      (
        r',
        answered,
        rw (on, id_ok, id_eq, c_eq, r_eq, e_eq, v_eq)
            (ap some (finish_lem K d (sent_id buffer) (record c { response = some r' }) len)),
      )

  -- When copies from a user buffer that is there succeed, the device works, its ring is well formed
  -- and not empty, and the buffer is a whole answer (a slot below 1000, a value of at most 200
  -- bytes, all its bytes there), read_persistence_write returns the length, keeps the ring well
  -- formed, takes the oldest request from the queue, puts the answer into the callback of the slot,
  -- wakes its waiter unless it is done, and changes no other callback.
  pub answer_completes :
      d.used_buf ≢ 0
      → Returns (read_persistence_write K d buffer len) λ (r, d').
        (r ≡ to_ssize len)
        × IsRing d'
        × (queued d ≡ head_slot d ∷ queued d')
        × ((response : Response) × IsAnswered response buffer
            × (get_elem? d'.callback_buf (sent_id buffer)
                ≡ some (woken (record c { response = some response }))))
        × ((i : ℕ) → sent_id buffer ≢ i → get_elem? d'.callback_buf i ≡ get_elem? d.callback_buf i)
  answer_completes nonempty =
      let (r', answered, e) = answer_steps in
      let c' = woken (record c { response = some r' }) in
      let used = K.atomic_dec d.used_buf in
      let one_less : d.used_buf ≡ used + 1 =
        omega (arith, K.atomic_dec_lem d.used_buf, ring.used_in) in
      rw e (
        refl,
        set_callback-IsRing (drop_slot d used) (sent_id buffer) c'
            (drop_slot-IsRing d used ring one_less)
            (woken-IsCallback _ (answered-IsCallback c r' answered.well_formed)),
        queued-drop_slot d used ring one_less,
        (
          r',
          answered,
          get_elem?-set_self d.callback_buf (sent_id buffer) c'
              (omega (arith, ring.callbacks, answer.names_slot)),
        ),
        (λ i ne. get_elem?-set_ne d.callback_buf c' ne),
      )
