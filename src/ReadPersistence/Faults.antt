-- ===== src/ReadPersistence/Faults.antt =====
-- Where the read device trusts what it is sent, and where its order of steps matters.
use kernel_paxos_persistence.ReadPersistence.Complete.{id_lem, answer_steps}
use kernel_paxos_persistence.Ring.Step.{some_callback}
use kernel_paxos_persistence.Prelude.{
  ◌≢◌, ◌≤◌, ◌≡◌, length, Returns, to_ssize, none, u32_mod, ◌==◌, ◌-◌, false, arith, get_elem?-past,
  refl,
}
use kernel_paxos_persistence.Ring.{IsRing}
use kernel_paxos_persistence.ReadPersistence.Answer.{IsReadable, IsAnswer, sent_id}
use kernel_paxos_persistence.ReadPersistence.{
  read_persistence_write, read_persistence_poll, Kernel, Device, Bytes, ℕ, sizeof_int, buffer_size,
}

-- With copies from the user that succeed, a working device and a well-formed ring, an answer that
-- names a slot from 1000 on indexes behind the array of callbacks: the number is not tested.
pub answer_bad_slot :
    (K : Kernel) (d : Device) (buffer : Bytes) (len : ℕ)
    → IsReadable K
    → IsRing d
    → d.working ≢ 0
    → sizeof_int ≤ length buffer
    → buffer_size ≤ sent_id buffer
    → read_persistence_write K d buffer len ≡ none
unfolding read_persistence_write
answer_bad_slot K d buffer len reads ring works there far =
    let on : (d.working == 0) ≡ false = ground arith in
    let (id_ok, id_eq) = id_lem K buffer reads there in
    rw (
      on,
      id_ok,
      id_eq,
      get_elem?-past d.callback_buf (sent_id buffer) (omega (arith, ring.callbacks)),
    )

-- With copies from the user that succeed, a working device and a well-formed ring that is empty, a
-- whole answer drives the counter to 2^32 - 1, which is -1: the ring is not well formed any more,
-- and after the next request has been counted poll does not announce it.
pub answer_unasked :
    (K : Kernel) (d : Device) (buffer : Bytes) (len : ℕ)
    → IsReadable K
    → IsRing d
    → d.working ≢ 0
    → IsAnswer buffer
    → d.used_buf ≡ 0
    → Returns (read_persistence_write K d buffer len) λ (r, d').
      (r ≡ to_ssize len)
      × (d'.used_buf ≡ u32_mod - 1)
      × ((read_persistence_poll K (record d' { used_buf = K.atomic_inc d'.used_buf })).0 ≡ 0)
      × ¬ IsRing d'
unfolding read_persistence_poll
answer_unasked K d buffer len reads ring works answer empty =
    let (c, c_eq, c_ok) =
      some_callback d.callback_buf (sent_id buffer)
        (omega (arith, ring.callbacks, answer.names_slot)) ring.responses in
    let (r', answered, e) = answer_steps K reads d buffer len c ring works answer c_eq in
    let minus_one : K.atomic_dec d.used_buf ≡ u32_mod - 1 =
      omega (arith, K.atomic_dec_lem d.used_buf) in
    let none_left : K.atomic_inc (u32_mod - 1) ≡ 0 =
      omega (arith, K.atomic_inc_lem (u32_mod - 1)) in
    rw (e, minus_one, none_left) (refl, refl, refl, λ bad. omega (arith, bad.used_in))
