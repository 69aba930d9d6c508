-- ===== src/ReadTest/Wait.antt =====
-- wait_response: what it waits for, and what it counts.
use kernel_paxos_persistence.Types.{max_paxos_value_size}
use kernel_paxos_persistence.ReadPersistence.Complete.{answer_completes, woken}
use kernel_paxos_persistence.ReadPersistence.{read_persistence_write}
use kernel_paxos_persistence.Ring.{IsRing}
use kernel_paxos_persistence.ReadPersistence.Answer.{
  IsReadable, IsAnswer, sent_id, sent_iid, sent_len,
}
use kernel_paxos_persistence.Prelude.{
  ◌≡◌, some, if◌then◌else◌, ◌+◌, ◌∙◌, Bool-cases, ◌==◌, inl, inr, ℕ, ◌≢◌, Returns, Returns-map,
  true, arith, refl, ◌≤◌,
}
use kernel_paxos_persistence.ReadTest.{
  ReadTest, Work, Callback, Response, get_elem?, wait_response, World, finish_wait, vfree, is_found,
  set_callback, count_found, Kernel, Bytes, accepted_iid, value_len,
}

-- The callback that a work waits on, and its response.
module _ (s : ReadTest) (work : Work) (c : Callback) (r : Response)
    (c_eq : get_elem? s.persistence.callback_buf work.param ≡ some c)
    (r_eq : c.response ≡ some r) where
  pub wait_does_not_wait :
      (sleep : ReadTest → ReadTest) → wait_response sleep s work ≡ finish_wait s c work
  unfolding wait_response
  wait_does_not_wait sleep = simp (c_eq, r_eq)

  -- When the callback of a work and its response are there and the work is allocated, wait_response
  -- returns: the count of found messages goes up exactly if the callback is not done and the
  -- response has the instance of the work and a value that is not empty; the callback is done, and
  -- the work is freed.
  pub wait_counts :
      (sleep : ReadTest → ReadTest) (w : World)
      → vfree s.world work.address ≡ some w
      → wait_response sleep s work
        ≡ some (record s {
          messages_found = if is_found c r work then s.messages_found + 1 else s.messages_found;
          persistence = set_callback s.persistence work.param (record c { is_done = 1 });
          world = w;
        })
  unfolding finish_wait count_found
  wait_counts sleep w freed = wait_does_not_wait sleep ∙ elim (Bool-cases (c.is_done == 0)) [
    | inl waits ↦ simp (waits, r_eq, freed)
    | inr gone ↦ simp (gone, freed)
  ]

is_found_lem :
    (c : Callback) (r : Response) (work : Work)
    → c.is_done ≡ 0
    → accepted_iid r.header ≡ work.iid
    → value_len r.header ≢ 0
    → value_len r.header ≤ max_paxos_value_size
    → is_found (woken (record c { response = some r })) r work ≡ true
is_found_lem c r work waits same_iid has_value fits = ground arith

-- When the storage's answer (whole, not empty, for the slot and the instance of a work whose
-- callback is not done) is written while a request is queued in a well-formed ring of a working
-- device, and copies from the user succeed, then wait_response, run after it for that work,
-- returns, counts the message as found and frees the work.
pub answer_then_wait :
    (K : Kernel) (reads : IsReadable K) (s : ReadTest) (work : Work) (c : Callback) (w : World)
    (buffer : Bytes) (len : ℕ) (sleep : ReadTest → ReadTest)
    → IsRing s.persistence
    → s.persistence.working ≢ 0
    → s.persistence.used_buf ≢ 0
    → IsAnswer buffer
    → get_elem? s.persistence.callback_buf (sent_id buffer) ≡ some c
    → c.is_done ≡ 0
    → sent_id buffer ≡ work.param
    → sent_iid buffer ≡ work.iid
    → sent_len buffer ≢ 0
    → vfree s.world work.address ≡ some w
    → Returns (read_persistence_write K s.persistence buffer len) λ (r, d).
      Returns
        (wait_response sleep (record s { persistence = d }) work)
        λ s'. (s'.messages_found ≡ s.messages_found + 1) × (s'.world ≡ w)
answer_then_wait K reads s work c w buffer len sleep ring works nonempty answer c_eq waits same_id
      same_iid has_value freed =
    Returns-map _ _ (read_persistence_write K s.persistence buffer len)
      (answer_completes K reads s.persistence buffer len c ring works answer c_eq nonempty)
      λ (n, d) (_, _, _, (r, answered, at_id), _).
        let c' = woken (record c { response = some r }) in
        let still : (c.is_done == 0) ≡ true = ground arith in
        let c'_eq : get_elem? d.callback_buf work.param ≡ some c' = rw (← same_id) at_id in
        let r_eq : c'.response ≡ some r = rw still in
        let found : is_found c' r work ≡ true =
          is_found_lem c r work waits (answered.iid_sent ∙ same_iid)
            (omega (arith, answered.len_sent, answer.value_fits))
            (omega (arith, answered.len_sent, answer.value_fits)) in
        rw (wait_counts (record s { persistence = d }) work c' r c'_eq r_eq sleep w freed, found)
          (refl, refl)
