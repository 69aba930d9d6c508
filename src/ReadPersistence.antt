-- ===== src/ReadPersistence.antt =====
-- kpaxos/read_persistence_device_operations.c: the queue of the reads on their way to the storage,
-- and the answers on their way back.
pub mod Save
pub mod Add
pub mod Peek
pub mod Answer
pub mod Complete
pub mod Faults
pub mod Invariant
pub mod Steps
mod Tests
use kernel_paxos_persistence.Prelude.{
  ℕ, ◌+◌, ◌%◌, ◌&&◌, Option, none, some, [], ◌∷◌, ℤ, pos, negsuc, leb, ◌==◌, if◌then◌else◌, ◌>>=◌,
  length, get_elem?, set, replicate, at_least, is_positive, to_ssize, u64_mod,
}
use kernel_paxos_persistence.Memory.{Bytes, overwrite, slice, memcpy, memset, word32, load32}
use kernel_paxos_persistence.Types.{
  buffer_size, sizeof_int, sizeof_accepted, value_val_offset, accepted_iid, value_len, message_size,
}
use kernel_paxos_persistence.Kernel.{Kernel}
use kernel_paxos_persistence.Device.{
  Response, Callback, Device, FileOperations, poll_wait, wake_up, pollin, ebusy, set_callback,
  clear_paxos_accepted,
}

-- The slot after memset and memcpy. Only the structure is cleared, and `size` is not tested.
unfoldable pub save_request : Bytes → Bytes → ℕ → Option Bytes
save_request slot msg size = do cleared ← memset slot sizeof_accepted; memcpy cleared 0 msg size

unfoldable pub request_callback : Device → Bytes → Callback → Callback
request_callback d slot callback = record callback {
  buffer_id = d.current_buf;
  iid = accepted_iid slot;
  is_done = 0;
}

-- The eight bytes of the pointer `paxos_value_val`, kept across the copy of the structure.
abbrev pub restore_value_val : Bytes → Bytes → Bytes
restore_value_val old header = overwrite header value_val_offset (slice old value_val_offset 8)

module _ (K : Kernel) where
  open K use {copy_to_user, copy_from_user, atomic_inc, atomic_dec, mutex_trylock, mutex_unlock}

  unfoldable pub read_persistence_open : Device → ℤ × Device
  read_persistence_open d =
      let (taken, m) = mutex_trylock d.char_mutex in
      if taken == 0
      then (negsuc ebusy, record d { char_mutex = m })
      else (pos 0, record d { char_mutex = m })

  -- The rest of the read, for the message in the slot `first_buf`.
  unfoldable pub read_persistence_send : Device → Bytes → Bytes → Option (ℤ × Bytes × Device)
  read_persistence_send d accepted buffer =
      let llen = message_size accepted in
      let (error_count_buffer_id, buffer₁) =
        copy_to_user buffer 0 (word32 d.first_buf) sizeof_int in
      let (error_count_accepted, buffer₂) = copy_to_user buffer₁ sizeof_int accepted llen in
      if leb llen (length accepted)
      then if error_count_accepted == 0 && error_count_buffer_id == 0
        then some (to_ssize ((llen + sizeof_int) % u64_mod), buffer₂, d)
        else some (negsuc 0, buffer₂, d)
      else none

  -- A read leaves the message in the queue.
  unfoldable pub read_persistence_read : Device → Bytes → ℕ → Option (ℤ × Bytes × Device)
  read_persistence_read d buffer len =
      if d.working == 0
      then some (pos 0, buffer, d)
      else do accepted ← get_elem? d.msg_buf d.first_buf; read_persistence_send d accepted buffer

  -- `first_buf` and `used_buf` move on, and the waiter of a callback that is not done is woken.
  unfoldable pub finish_answer : Device → ℕ → Callback → ℕ → ℕ → ℤ × Device
  finish_answer d buffer_id callback error_count_value len =
      let d' = record d {
        first_buf = (d.first_buf + 1) % buffer_size;
        used_buf = atomic_dec d.used_buf;
      } in
      let woken = record callback { response_wait = wake_up ∷ callback.response_wait } in
      if error_count_value == 0
      then if callback.is_done == 0
        then (to_ssize len, set_callback d' buffer_id woken)
        else (to_ssize len, set_callback d' buffer_id callback)
      else (negsuc 0, set_callback d' buffer_id callback)

  -- The value behind the structure goes to the block of `paxos_value_val`, whose size is not tested.
  unfoldable pub copy_value : Response → Bytes → Option (ℕ × Response)
  copy_value accepted buffer =
      let n = value_len accepted.header in
      let (error_count_value, value') =
        copy_from_user accepted.value buffer (sizeof_int + sizeof_accepted) n in
      if is_positive n
      then if leb n (length accepted.value)
        then some (error_count_value, record accepted { value = value' })
        else none
      else some (0, accepted)

  -- The structure goes to the cleared response; its pointer is put back.
  unfoldable pub copy_header : Response → Bytes → ℕ × Response
  copy_header accepted buffer =
      let cleared = clear_paxos_accepted accepted in
      let (error_count_accepted, header') =
        copy_from_user cleared.header buffer sizeof_int sizeof_accepted in
      (error_count_accepted, record cleared { header = restore_value_val cleared.header header' })

  -- The rest of the write, once the callback is known.
  unfoldable pub read_persistence_answer :
      Device → ℕ → Callback → Response → Bytes → ℕ → Option (ℤ × Device)
  read_persistence_answer d buffer_id callback response buffer len =
      let (error_count_accepted, accepted) = copy_header response buffer in
      if error_count_accepted == 0
      then (copy_value accepted buffer >>= λ (error_count_value, accepted'). some (
          finish_answer d buffer_id (record callback { response = some accepted' })
            error_count_value len))
      else some (negsuc 0, set_callback d buffer_id (record callback { response = some accepted }))

  -- The number of the slot is what the user sends. The local variable that receives it is not read
  -- before it has been written.
  unfoldable pub read_persistence_write : Device → Bytes → ℕ → Option (ℤ × Device)
  read_persistence_write d buffer len =
      let (error_count_buffer_id, local) =
        copy_from_user (replicate sizeof_int 0) buffer 0 sizeof_int in
      let buffer_id = load32 local 0 in
      if d.working == 0
      then some (negsuc 0, d)
      else if error_count_buffer_id == 0
      then (do
        callback ← get_elem? d.callback_buf buffer_id
        response ← callback.response
        read_persistence_answer d buffer_id callback response buffer len)
      else some (negsuc 0, d)

  unfoldable pub read_persistence_poll : Device → ℕ × Device
  read_persistence_poll d =
      let d' = record d { access_wait = poll_wait ∷ d.access_wait } in
      if is_positive d.used_buf then (pollin, d') else (0, d')

  -- The mutex is released before the queue is emptied: two steps that others can come between.
  unfoldable pub release_unlock : Device → Device
  release_unlock d = record d { char_mutex = mutex_unlock d.char_mutex }

  unfoldable pub release_reset : Device → Device
  release_reset d = record d { used_buf = 0; current_buf = 0; first_buf = 0 }

  unfoldable pub read_persistence_release : Device → ℤ × Device
  unfolding release_unlock release_reset
  read_persistence_release d = (pos 0, release_reset (release_unlock d))

  -- The request put into the slot `current_buf`. The result names the callback by its index.
  unfoldable pub read_persistence_add_message : Device → Bytes → ℕ → Option (Option ℕ × Device)
  read_persistence_add_message d msg size =
      if at_least buffer_size d.used_buf then some (none, d) else do
        slot ← get_elem? d.msg_buf d.current_buf
        saved ← save_request slot msg size
        callback ← get_elem? d.callback_buf d.current_buf
        some (
          some d.current_buf,
          record d {
            used_buf = atomic_inc d.used_buf;
            msg_buf = set d.msg_buf d.current_buf saved;
            callback_buf = set d.callback_buf d.current_buf (request_callback d saved callback);
            current_buf = (d.current_buf + 1) % buffer_size;
            access_wait = wake_up ∷ d.access_wait;
          },
        )

  unfoldable pub read_persistence_fops : FileOperations Device
  read_persistence_fops = record {
    on_open = read_persistence_open;
    on_read = read_persistence_read;
    on_write = read_persistence_write;
    on_poll = read_persistence_poll;
    on_release = read_persistence_release;
  }

  unfoldable pub create_read_persistence_device : Device → Device × FileOperations Device
  unfolding read_persistence_fops
  create_read_persistence_device d =
      (record d { msg_buf = []; callback_buf = [] }, read_persistence_fops)
