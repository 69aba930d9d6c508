-- ===== src/Sample.antt =====
-- Concrete values for the tests: kernels whose copies work and fail, a device as kdevchar_init
-- leaves it, and messages.
pub mod Storage
pub mod Process
use kernel_paxos_persistence.Memory.Laws.{length-overwrite}
use kernel_paxos_persistence.Types.{slot_size, sizeof_accepted, buffer_size, max_paxos_value_size}
use kernel_paxos_persistence.Ring.{IsCallback, IsRing, IsSlot}
use kernel_paxos_persistence.Device.{Response, Callback, Device}
use kernel_paxos_persistence.Memory.{Bytes, overwrite, slice}
use kernel_paxos_persistence.Kernel.{Kernel}
use kernel_paxos_persistence.Prelude.{
  ℕ, suc, replicate, [], false, length-replicate, if◌then◌else◌, leb, take, some, All-replicate,
  ◌+◌, refl, length, arith, ◌%◌, u32_mod, ◌-◌, true,
}
use native.Mathlib.Nat.{suc-ne-zero}

module _ (off n : ℕ) (to from : Bytes) where
  abbrev error_of : ℕ
  error_of = if leb (off + n) (length to) then 0 else n

-- Copies of memory that is there succeed.
abbrev pub plain : Kernel
plain = record {
  copy_to_user = λ to off from n. (error_of off n to from, overwrite to off (take n from));
  copy_to_user_done = λ to off from n e. refl;
  copy_to_user_length = λ to off from n. length-overwrite to off (take n from);
  copy_from_user = λ to from off n. (error_of off n from to, overwrite to 0 (slice from off n));
  copy_from_user_done = λ to from off n e. refl;
  copy_from_user_length = λ to from off n. length-overwrite to 0 (slice from off n);
  atomic_inc = λ u. (u + 1) % u32_mod;
  atomic_inc_lem = λ u. refl;
  atomic_dec = λ u. (u + u32_mod - 1) % u32_mod;
  atomic_dec_lem = λ u. refl;
  mutex_trylock = λ m. if m then (0, true) else (1, true);
  mutex_trylock_free = refl;
  mutex_trylock_held = refl;
  mutex_unlock = λ m. false;
  mutex_unlock_lem = λ m. refl;
}

-- Nothing is copied to the user.
abbrev pub failing : Kernel
failing = record plain {
  copy_to_user = λ to off from n. (suc n, to);
  copy_to_user_done = λ to off from n e. absurd (suc-ne-zero n e);
  copy_to_user_length = λ to off from n. refl;
}

abbrev pub zero_slot : Bytes
zero_slot = replicate slot_size 0

abbrev pub zero_response : Response
zero_response = record {
  header = replicate sizeof_accepted 0;
  value = replicate max_paxos_value_size 0;
}

abbrev pub zero_callback : Callback
zero_callback = record {
  response_wait = [];
  response = some zero_response;
  buffer_id = 0;
  is_done = 0;
  iid = 0;
}

abbrev pub fresh : Device
fresh = record {
  char_mutex = false;
  access_wait = [];
  working = 1;
  current_buf = 0;
  first_buf = 0;
  msg_buf = replicate buffer_size zero_slot;
  callback_buf = replicate buffer_size zero_callback;
  used_buf = 0;
}

zero_callback-IsCallback : IsCallback zero_callback
zero_callback-IsCallback = record {
  has_response = (
    zero_response,
    refl,
    (length-replicate {A = ℕ} sizeof_accepted 0, length-replicate {A = ℕ} max_paxos_value_size 0),
  );
}

pub fresh-IsRing : IsRing fresh
fresh-IsRing = record {
  slots = length-replicate buffer_size zero_slot;
  slot_sizes = All-replicate IsSlot buffer_size zero_slot (length-replicate {A = ℕ} slot_size 0);
  callbacks = length-replicate buffer_size zero_callback;
  responses = All-replicate IsCallback buffer_size zero_callback zero_callback-IsCallback;
  first_in = omega arith;
  used_in = omega arith;
  current_at = omega arith;
}
