-- ===== src/Device.antt =====
-- struct paxos_kernel_device (kpaxos/include/kernel_device.h) as the file operations use it, struct
-- kernel_device_callback (paxos/include/paxos.h), and clearPaxosAccepted (paxos/paxos.c).
use kernel_paxos_persistence.Prelude.{ℕ, Bool, Option, List, set, replicate, ℤ}
use kernel_paxos_persistence.Memory.{Bytes, overwrite, store32}
use kernel_paxos_persistence.Types.{
  max_paxos_value_size, iid_offset, promise_iid_offset, ballot_offset, value_len_offset,
}

-- What is done to a wait queue, newest first.
pub data WaitEvent : Type 0 where
  poll_wait wake_up : WaitEvent

abbrev pub WaitQueue : Type 0
WaitQueue = List WaitEvent

-- The `paxos_accepted` that `response` points to, and the block that its `paxos_value_val` points
-- to.
pub record Response : Type 0 where
  pub header : Bytes
  pub value : Bytes

-- `response` is `none` for NULL.
pub record Callback : Type 0 where
  pub response_wait : WaitQueue
  pub response : Option Response
  pub buffer_id : ℕ
  pub is_done : ℕ
  pub iid : ℕ

-- An array that is NULL has no element.
pub record Device : Type 0 where
  pub char_mutex : Bool
  pub access_wait : WaitQueue
  pub working : ℕ
  pub current_buf : ℕ
  pub first_buf : ℕ
  pub msg_buf : List Bytes
  pub callback_buf : List Callback
  pub used_buf : ℕ

-- struct file_operations, for handlers whose state is `S`. `none` is undefined behaviour.
pub record FileOperations (S : Type 0) : Type 0 where
  pub on_open : S → ℤ × S
  pub on_read : S → Bytes → ℕ → Option (ℤ × Bytes × S)
  pub on_write : S → Bytes → ℕ → Option (ℤ × S)
  pub on_poll : S → ℕ × S
  pub on_release : S → ℤ × S

-- POLLIN
abbrev pub pollin : ℕ
pollin = 1

-- EBUSY - 1, so that `negsuc ebusy` is -EBUSY
abbrev pub ebusy : ℕ
ebusy = 15

abbrev pub set_callback : Device → ℕ → Callback → Device
set_callback d i callback = record d { callback_buf = set d.callback_buf i callback }

-- clearPaxosAccepted: `aid` and `value_ballot` stay.
unfoldable pub clear_paxos_accepted : Response → Response
clear_paxos_accepted r = record {
  header =
      store32
        (store32 (store32 (store32 r.header iid_offset 0) promise_iid_offset 0) ballot_offset 0)
        value_len_offset 0;
  value = overwrite r.value 0 (replicate max_paxos_value_size 0);
}
