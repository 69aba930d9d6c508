-- ===== src/Ring/Step.antt =====
-- The invariant of a ring after a message is put into it, and after one is taken from it.
use kernel_paxos_persistence.Ring.Window.{window-set}
use kernel_paxos_persistence.Device.{WaitQueue, set_callback}
use kernel_paxos_persistence.Prelude.{
  ◌<◌, get_elem?, length, ◌+◌, ◌≡◌, set, length-set, arith, get_or, some, All, ◌++◌, ◌%◌, [],
  get_elem?-eq-get_or, ◌∷◌, ◌∙◌, All-set, ap, All-get_elem?, suc, zero, refl, Bool,
}
use kernel_paxos_persistence.Ring.{
  IsRing, IsSlot, IsCallback, queued, Device, List, Bytes, ℕ, Callback, buffer_size, window,
  slot_size,
}

-- A message and its callback put into the slot `current_buf`.
abbrev pub put_slot : Device → Bytes → Callback → ℕ → WaitQueue → Device
put_slot d slot callback used wait = record d {
  used_buf = used;
  msg_buf = set d.msg_buf d.current_buf slot;
  callback_buf = set d.callback_buf d.current_buf callback;
  current_buf = (d.current_buf + 1) % buffer_size;
  access_wait = wait;
}

module _ (d : Device) (slot : Bytes) (callback : Callback) (used : ℕ) (wait : WaitQueue)
    (ring : IsRing d) (room : d.used_buf < buffer_size) (one_more : used ≡ d.used_buf + 1) where
  pub put_slot-IsRing :
      IsSlot slot → IsCallback callback → IsRing (put_slot d slot callback used wait)
  put_slot-IsRing s c = record {
    slots = length-set d.msg_buf d.current_buf slot ∙ ring.slots;
    slot_sizes = All-set IsSlot d.msg_buf d.current_buf slot ring.slot_sizes s;
    callbacks = length-set d.callback_buf d.current_buf callback ∙ ring.callbacks;
    responses = All-set IsCallback d.callback_buf d.current_buf callback ring.responses c;
    first_in = ring.first_in;
    used_in = omega arith;
    current_at = omega (arith, ring.current_at);
  }

  pub queued-put_slot : queued (put_slot d slot callback used wait) ≡ queued d ++ (slot ∷ [])
  queued-put_slot =
      ap (window (set d.msg_buf d.current_buf slot) d.first_buf) {y = suc d.used_buf} (omega arith)
      ∙ window-set d.msg_buf slot d.used_buf d.first_buf d.current_buf ring.slots ring.first_in room
          ring.current_at

-- `first_buf` moved on.
abbrev pub drop_slot : Device → ℕ → Device
drop_slot d used = record d { first_buf = (d.first_buf + 1) % buffer_size; used_buf = used }

module _ (d : Device) (used : ℕ) (ring : IsRing d) (one_less : d.used_buf ≡ used + 1) where
  pub drop_slot-IsRing : IsRing (drop_slot d used)
  drop_slot-IsRing = record {
    slots = ring.slots;
    slot_sizes = ring.slot_sizes;
    callbacks = ring.callbacks;
    responses = ring.responses;
    first_in = omega arith;
    used_in = omega (arith, ring.used_in);
    current_at = omega (arith, ring.current_at);
  }

  pub queued-drop_slot : queued d ≡ get_or d.msg_buf d.first_buf [] ∷ queued (drop_slot d used)
  queued-drop_slot = ap (window d.msg_buf d.first_buf) {y = suc used} (omega arith)

-- The mutex and the wait queue are no part of the ring.
pub others-IsRing :
    (d : Device) (m : Bool) (w : WaitQueue)
    → IsRing d
    → IsRing (record d { char_mutex = m; access_wait = w })
others-IsRing d m w ring = record {
  slots = ring.slots;
  slot_sizes = ring.slot_sizes;
  callbacks = ring.callbacks;
  responses = ring.responses;
  first_in = ring.first_in;
  used_in = ring.used_in;
  current_at = ring.current_at;
}

-- A callback changed in its place.
pub set_callback-IsRing :
    (d : Device) (i : ℕ) (c : Callback) → IsRing d → IsCallback c → IsRing (set_callback d i c)
set_callback-IsRing d i c ring ok = record {
  slots = ring.slots;
  slot_sizes = ring.slot_sizes;
  callbacks = length-set d.callback_buf i c ∙ ring.callbacks;
  responses = All-set IsCallback d.callback_buf i c ring.responses ok;
  first_in = ring.first_in;
  used_in = ring.used_in;
  current_at = ring.current_at;
}

-- The slots that a ring uses are there.
module _ (d : Device) (ring : IsRing d) where
  pub current_in : d.current_buf < buffer_size
  current_in = omega (arith, ring.current_at)

  pub first_slot : get_elem? d.msg_buf d.first_buf ≡ some (get_or d.msg_buf d.first_buf [])
  first_slot =
      get_elem?-eq-get_or d.msg_buf d.first_buf [] (omega (arith, ring.slots, ring.first_in))

  pub current_slot_eq : get_elem? d.msg_buf d.current_buf ≡ some (get_or d.msg_buf d.current_buf [])
  current_slot_eq =
      get_elem?-eq-get_or d.msg_buf d.current_buf [] (omega (arith, ring.slots, current_in))

  pub current_length : length (get_or d.msg_buf d.current_buf []) ≡ slot_size
  current_length = All-get_elem? IsSlot d.msg_buf d.current_buf ring.slot_sizes current_slot_eq

-- The callback of a slot.
pub some_callback :
    (callbacks : List Callback) (i : ℕ)
    → i < length callbacks
    → All IsCallback callbacks
    → (c : Callback) × (get_elem? callbacks i ≡ some c) × IsCallback c
some_callback [] i h all = absurd (omega arith)
some_callback (c ∷ cs) zero h all = (c, refl, all.0)
some_callback (c ∷ cs) (suc i) h all = some_callback cs i (omega arith) all.1
