-- ===== src/ReadTest.antt =====
-- kpaxos/read_test_device_operations.c: the device through which reads are asked for, and the work
-- that waits for their answers. Its state is its own, with that of the read persistence device, which
-- it calls, and the account of the kernel's allocator.
pub mod Wait
pub mod Request
mod Tests
use kernel_paxos_persistence.ReadPersistence.{read_persistence_add_message}
use kernel_paxos_persistence.Types.{accepted_iid, value_len}
use kernel_paxos_persistence.Memory.{Bytes}
use kernel_paxos_persistence.WorkersPool.{
  WorkersPool, create_persistence_work, create_pool, add_work,
}
use kernel_paxos_persistence.Kernel.{Kernel}
use kernel_paxos_persistence.World.{Work, Outcomes, vfree, World}
use kernel_paxos_persistence.Prelude.{
  ℕ, Option, Bool, ℤ, ◌>>=◌, some, get_elem?, pos, ◌==◌, if◌then◌else◌, negsuc, [], ◌&&◌, to_ssize,
  ◌+◌, is_positive, none,
}
use kernel_paxos_persistence.Device.{
  Device, Callback, Response, FileOperations, set_callback, ebusy,
}

pub record ReadTest : Type 0 where
  pub device : Device
  pub pool : Option WorkersPool
  pub messages_received : ℕ
  pub messages_found : ℕ
  pub persistence : Device
  pub world : World

-- N_THREADS
abbrev pub n_threads : ℕ
n_threads = 10

-- The last test of wait_response, on the response that the callback has.
abbrev pub is_found : Callback → Response → Work → Bool
is_found callback response work =
    callback.is_done == 0
    && (accepted_iid response.header == work.iid && is_positive (value_len response.header))

-- `messages_found` after that test: the response is read only if the callback is not done.
unfoldable pub count_found : ReadTest → Callback → Work → Option ℕ
count_found s callback work =
    if callback.is_done == 0
    then (callback.response >>= λ response.
        some (if is_found callback response work then s.messages_found + 1 else s.messages_found))
    else some s.messages_found

-- The end of wait_response.
unfoldable pub finish_wait : ReadTest → Callback → Work → Option ReadTest
finish_wait s callback work = do
  found ← count_found s callback work
  w ← vfree s.world work.address
  some (record s {
    messages_found = found;
    persistence = set_callback s.persistence work.param (record callback { is_done = 1 });
    world = w;
  })

-- wait_event_timeout returns at once if its condition, `response != NULL`, is true. Otherwise others
-- go on while it sleeps: `sleep` is what they do until the condition is true or the time is over.
unfoldable pub after_wait : (ReadTest → ReadTest) → ReadTest → Option Response → ReadTest
after_wait sleep s none = sleep s
after_wait sleep s (some response) = s

unfoldable pub wait_response : (ReadTest → ReadTest) → ReadTest → Work → Option ReadTest
unfolding after_wait
wait_response sleep s work = do
  callback ← get_elem? s.persistence.callback_buf work.param
  let s' = after_wait sleep s callback.response
  callback' ← get_elem? s'.persistence.callback_buf work.param
  finish_wait s' callback' work

-- The end of read_test_write, with the result of createPersistenceWork.
unfoldable pub queue_created : ReadTest → ℕ → Option Work × World → Option (ℤ × ReadTest)
queue_created s len (none, w) = some (to_ssize len, record s { world = w })
queue_created s len (some work, w) = add_work w s.pool work >>= λ (pool, w'). some (
  to_ssize len,
  record s { pool = pool; world = w'; messages_received = s.messages_received + 1 },
)

module _ (K : Kernel) (succeeds : Outcomes) where
  unfoldable pub read_test_open : ReadTest → ℤ × ReadTest
  read_test_open s =
      let (taken, m) = K.mutex_trylock s.device.char_mutex in
      let s' = record s { device = record s.device { char_mutex = m } } in
      if taken == 0
      then (negsuc ebusy, s')
      else (pos 0, record s' { messages_found = 0; messages_received = 0 })

  unfoldable pub read_test_read : ReadTest → Bytes → ℕ → Option (ℤ × Bytes × ReadTest)
  read_test_read s buffer len =
      if s.device.working == 0 then some (negsuc 0, buffer, s) else some (to_ssize len, buffer, s)

  -- The work for the callback of the request.
  unfoldable pub queue_wait : ReadTest → ℕ → Callback → ℕ → Option (ℤ × ReadTest)
  unfolding queue_created
  queue_wait s i callback len =
      queue_created s len (create_persistence_work succeeds s.world i callback.iid)

  unfoldable pub read_test_write : ReadTest → Bytes → ℕ → Option (ℤ × ReadTest)
  read_test_write s buffer len =
      if s.device.working == 0
      then some (negsuc 0, s)
      else (read_persistence_add_message K s.persistence buffer len >>= λ (callback, d).
          let s' = record s { persistence = d } in
          elim callback [
            | none ↦ some (to_ssize len, s')
            | some i ↦ get_elem? d.callback_buf i >>= λ c. queue_wait s' i c len
          ])

  unfoldable pub read_test_poll : ReadTest → ℕ × ReadTest
  read_test_poll s = (0, s)

  unfoldable pub read_test_release : ReadTest → ℤ × ReadTest
  read_test_release s = (
    pos 0,
    record s { device = record s.device { char_mutex = K.mutex_unlock s.device.char_mutex } },
  )

  unfoldable pub read_test_fops : FileOperations ReadTest
  read_test_fops = record {
    on_open = read_test_open;
    on_read = read_test_read;
    on_write = read_test_write;
    on_poll = read_test_poll;
    on_release = read_test_release;
  }

  -- A pool that cannot be created leaves NULL, which add_work reports and ignores.
  unfoldable pub create_read_test_device : ReadTest → Option (ReadTest × FileOperations ReadTest)
  unfolding read_test_fops
  create_read_test_device s = create_pool succeeds s.world n_threads >>= λ (pool, w). some (
    record s { device = record s.device { msg_buf = [] }; pool = pool; world = w },
    read_test_fops,
  )
