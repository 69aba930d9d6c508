-- ===== src/WritePersistence.antt =====
-- kpaxos/write_persistence_device_operations.c: the queue of values on their way to the storage.
pub mod Save
pub mod Add
pub mod Take
pub mod Run
pub mod Fifo
mod Tests
use kernel_paxos_persistence.Prelude.{
  ℕ, ◌+◌, ◌-◌, ◌%◌, ◌&&◌, Option, none, some, [], ◌∷◌, ℤ, pos, negsuc, leb, ltb, ◌==◌,
  if◌then◌else◌, ◌>>=◌, length, get_elem?, set, at_least, is_positive, to_ssize, u32_mod, u64_mod,
}
use kernel_paxos_persistence.Memory.{Bytes, memcpy, memset, word32}
use kernel_paxos_persistence.Types.{
  buffer_size, sizeof_int, sizeof_accepted, slot_size, accepted_iid, set_value_len, message_size,
}
use kernel_paxos_persistence.Kernel.{Kernel}
use kernel_paxos_persistence.Device.{
  Callback, Device, FileOperations, poll_wait, wake_up, pollin, ebusy,
}

-- min(size, sizeof(paxos_accepted) + MAX_PAXOS_VALUE_SIZE): "Data will be truncated."
abbrev pub truncated : ℕ → ℕ
truncated size = if ltb slot_size size then slot_size else size

-- The slot after memset, memcpy and the assignment of the value's length, a `size_t` put into an
-- `int`.
unfoldable pub save_accepted : Bytes → Bytes → ℕ → Option Bytes
save_accepted slot msg size = do
  cleared ← memset slot slot_size
  copied ← memcpy cleared 0 msg size
  some (set_value_len copied ((size + u64_mod - sizeof_accepted) % u32_mod))

unfoldable pub file_callback : Device → Bytes → Callback → Callback
file_callback d slot callback = record callback {
  buffer_id = d.current_buf;
  iid = accepted_iid slot;
  is_done = 0;
}

module _ (K : Kernel) where
  open K use {copy_to_user, atomic_inc, atomic_dec, mutex_trylock, mutex_unlock}

  unfoldable pub write_persistence_open : Device → ℤ × Device
  write_persistence_open d =
      let (taken, m) = mutex_trylock d.char_mutex in
      if taken == 0
      then (negsuc ebusy, record d { char_mutex = m })
      else (pos 0, record d { char_mutex = m })

  -- The rest of the read, for the message in the slot `first_buf`.
  unfoldable pub write_persistence_send : Device → Bytes → Bytes → Option (ℤ × Bytes × Device)
  write_persistence_send d accepted buffer =
      let llen = message_size accepted in
      let (error_count_buffer_id, buffer₁) =
        copy_to_user buffer 0 (word32 d.first_buf) sizeof_int in
      let (error_count, buffer₂) = copy_to_user buffer₁ sizeof_int accepted llen in
      let d' = record d { used_buf = atomic_dec d.used_buf } in
      if leb llen (length accepted)
      then if error_count == 0 && error_count_buffer_id == 0
        then some
            (to_ssize llen, buffer₂, record d' { first_buf = (d.first_buf + 1) % buffer_size })
        else some (negsuc 0, buffer₂, d')
      else none

  unfoldable pub write_persistence_read : Device → Bytes → ℕ → Option (ℤ × Bytes × Device)
  write_persistence_read d buffer len =
      if d.working == 0
      then some (pos 0, buffer, d)
      else do accepted ← get_elem? d.msg_buf d.first_buf; write_persistence_send d accepted buffer

  unfoldable pub write_persistence_write : Device → Bytes → ℕ → Option (ℤ × Device)
  write_persistence_write d buffer len =
      if d.working == 0 then some (negsuc 0, d) else some (to_ssize len, d)

  unfoldable pub write_persistence_poll : Device → ℕ × Device
  write_persistence_poll d =
      let d' = record d { access_wait = poll_wait ∷ d.access_wait } in
      if is_positive d.used_buf then (pollin, d') else (0, d')

  unfoldable pub write_persistence_release : Device → ℤ × Device
  write_persistence_release d = (
    pos 0,
    record d {
      used_buf = 0;
      current_buf = 0;
      first_buf = 0;
      char_mutex = mutex_unlock d.char_mutex;
    },
  )

  -- The message put into the slot `current_buf`. The result names the callback by its index.
  unfoldable pub write_persistence_add_message : Device → Bytes → ℕ → Option (Option ℕ × Device)
  write_persistence_add_message d msg size =
      if at_least buffer_size d.used_buf then some (none, d) else do
        slot ← get_elem? d.msg_buf d.current_buf
        saved ← save_accepted slot msg (truncated size)
        callback ← get_elem? d.callback_buf d.current_buf
        some (
          some d.current_buf,
          record d {
            used_buf = atomic_inc d.used_buf;
            msg_buf = set d.msg_buf d.current_buf saved;
            callback_buf = set d.callback_buf d.current_buf (file_callback d saved callback);
            current_buf = (d.current_buf + 1) % buffer_size;
            access_wait = wake_up ∷ d.access_wait;
          },
        )

  unfoldable pub write_persistence_fops : FileOperations Device
  write_persistence_fops = record {
    on_open = write_persistence_open;
    on_read = write_persistence_read;
    on_write = write_persistence_write;
    on_poll = write_persistence_poll;
    on_release = write_persistence_release;
  }

  -- The device is static; its arrays stay NULL until `kdevchar_init`.
  unfoldable pub create_write_persistence_device : Device → Device × FileOperations Device
  unfolding write_persistence_fops
  create_write_persistence_device d =
      (record d { msg_buf = []; callback_buf = [] }, write_persistence_fops)
