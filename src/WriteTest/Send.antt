-- ===== src/WriteTest/Send.antt =====
-- write_test_write, and the queue of the write persistence device.
use kernel_paxos_persistence.Device.{Device}
use kernel_paxos_persistence.WritePersistence.Add.{add_message_room, add_message_full}
use kernel_paxos_persistence.Ring.Window.{length-window}
use kernel_paxos_persistence.Types.{buffer_size}
use native.Mathlib.Decide.{dec_lt}
use kernel_paxos_persistence.WritePersistence.Save.{stored}
use kernel_paxos_persistence.WritePersistence.{
  truncated, write_persistence_add_message, save_accepted,
}
use kernel_paxos_persistence.Queue.{push}
use kernel_paxos_persistence.Ring.{IsRing, queued}
use kernel_paxos_persistence.Prelude.{
  ℕ, ◌≢◌, ◌≤◌, length, Returns, ◌≡◌, to_ssize, ◌==◌, false, arith, Returns-bind, true, refl, Keeps,
  Bool-cases, inl, inr, Keeps-intro, Keeps-bind, at_least, get_elem?,
}
use kernel_paxos_persistence.Memory.{Bytes}
use kernel_paxos_persistence.WriteTest.{WriteTest, write_test_write}
use kernel_paxos_persistence.World.{Outcomes}
use kernel_paxos_persistence.Kernel.{Kernel}

module _ (K : Kernel) (succeeds : Outcomes) (s : WriteTest) (buffer : Bytes) (len : ℕ)
    (ring : IsRing s.persistence) (works : s.device.working ≢ 0) where
  -- With a working device, a well-formed ring and a message that has the bytes that are copied,
  -- write_test_write returns the length, keeps the ring well formed, and the queue of the write
  -- persistence device becomes what the abstract queue makes of it: the stored message is at its
  -- end, or dropped if there are 1000 already.
  pub write_is_pushed :
      truncated len ≤ length buffer
      → Returns (write_test_write K succeeds s buffer len) λ (r, s').
        (r ≡ to_ssize len)
        × IsRing s'.persistence
        × (queued s'.persistence ≡ (push (queued s.persistence) (stored buffer (truncated len))).1)
  unfolding write_test_write push
  write_is_pushed there =
      let on : (s.device.working == 0) ≡ false = ground arith in
      elim (dec_lt s.persistence.used_buf buffer_size) [
        | yes room ↦
            let not_full : (length (queued s.persistence) == buffer_size) ≡ false = ground (
              arith,
              length-window s.persistence.msg_buf s.persistence.first_buf s.persistence.used_buf,
            ) in
            rw (on, not_full)
              (Returns-bind _ _ (write_persistence_add_message K s.persistence buffer len) _
                (add_message_room K s.persistence buffer len ring room there)
                λ (callback, d) (r_eq, ring', _, q'). (refl, ring', q'))
        | no no_room ↦
            let full : s.persistence.used_buf ≡ buffer_size = omega (arith, ring.used_in) in
            let is_full : (length (queued s.persistence) == buffer_size) ≡ true = ground (
              arith,
              length-window s.persistence.msg_buf s.persistence.first_buf s.persistence.used_buf,
            ) in
            rw (on, is_full, add_message_full K s.persistence buffer len ring full)
              (refl, ring, refl)
      ]

-- The test device itself, and whether the other one works, stay as they are.
add_message-Keeps :
    (K : Kernel) (d : Device) (msg : Bytes) (size : ℕ)
    → Keeps (λ (r, d'). d'.working ≡ d.working) (write_persistence_add_message K d msg size)
unfolding write_persistence_add_message
add_message-Keeps K d msg size = elim (Bool-cases (at_least buffer_size d.used_buf)) [
  | inl full ↦ rw full refl
  | inr room ↦ rw room (
      Keeps-intro _ (get_elem? d.msg_buf d.current_buf) _ λ slot.
        Keeps-intro _ (save_accepted slot msg (truncated size)) _
          λ saved. Keeps-intro _ (get_elem? d.callback_buf d.current_buf) _ λ c. refl)
]

pub write-Keeps :
    (K : Kernel) (succeeds : Outcomes) (s : WriteTest) (buffer : Bytes) (len : ℕ)
    → Keeps
        (λ (r, s'). (s'.device ≡ s.device) × (s'.persistence.working ≡ s.persistence.working))
        (write_test_write K succeeds s buffer len)
unfolding write_test_write
write-Keeps K succeeds s buffer len = elim (Bool-cases (s.device.working == 0)) [
  | inl off ↦ rw off (refl, refl)
  | inr on ↦ rw on (
      Keeps-bind _ _ (write_persistence_add_message K s.persistence buffer len) _
        (add_message-Keeps K s.persistence buffer len) λ (callback, d) works. (refl, works))
]
