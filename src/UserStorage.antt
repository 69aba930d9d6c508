-- ===== src/UserStorage.antt =====
-- kpaxos/user_storage.c: the storage process. A thread reads messages from one of the two devices; for
-- the write device it stores the accepted value, for the read device it looks the instance up and
-- writes the answer back. The structure of the storage is passed by value, so only what LMDB keeps
-- is changed by a call.
pub mod Get
pub mod Put
pub mod Answer
pub mod Thread
pub mod History
pub mod Loop
pub mod Deliver
mod Tests
use kernel_paxos_persistence.Prelude.{pos, negsuc, zero, suc, List, [], ◌∷◌, ℤ}
use kernel_paxos_persistence.Types.{sizeof_accepted, accepted_iid, sizeof_int, sizeof_client_value}
use kernel_paxos_persistence.Memory.{Bytes, memset, load32}
use kernel_paxos_persistence.Lmdb.{
  Lmdb, LmdbStorage, lmdb_storage_tx_begin, lmdb_storage_get, lmdb_storage_tx_commit,
  lmdb_storage_tx_abort, lmdb_storage_put,
}
use kernel_paxos_persistence.Codec.{
  Malloc, Accepted, ClientValue, buffer_to_paxos_accepted, client_value_to_buffer, accepted_size,
}
use kernel_paxos_persistence.Prelude.{
  true, false, Option, ℕ, some, Bool, if◌then◌else◌, ◌>>=◌, ◌==◌, none, drop, ◌+◌, ◌%◌, true,
  u64_mod,
}

-- A call of write(): the buffer, or NULL if there was no memory for it, and the count.
pub record Written : Type 0 where
  pub buffer : Option Bytes
  pub count : ℕ

-- An iteration of the loop of generic_storage_thread: poll without POLLIN, or with it, and then what
-- read() returned and left in `recv`.
pub data Event : Type 0 where
  no_event : Event
  readable : ℤ → Bytes → Event

-- The bytes of a block after memset(..., 0, sizeof(paxos_accepted)); its pointer is NULL.
unfoldable pub zeroed : Malloc → Option Accepted
zeroed malloc = do
  out ← malloc sizeof_accepted
  image ← memset out.bytes sizeof_accepted
  some (record { image = image; value_val = none })

module _ (M : Lmdb) (malloc : Malloc) where
  -- The end of storage_get. What the commit says is only printed.
  unfoldable pub finish_get : LmdbStorage M → ℕ × Accepted → Option (Option Accepted × M.Db)
  finish_get s (found, out) =
      if found == 1
      then (lmdb_storage_tx_commit M s >>= λ (code, s'). some (some out, s'.env))
      else some (none, (lmdb_storage_tx_abort M s).env)

  -- It goes on when no transaction could be opened.
  unfoldable pub storage_get : LmdbStorage M → ℕ → Option (Option Accepted × M.Db)
  unfolding finish_get
  storage_get s id = do
    (code, s₁) ← lmdb_storage_tx_begin M s
    out ← zeroed malloc
    result ← lmdb_storage_get M malloc s₁ id out
    finish_get s₁ result

  -- The end of storage_put; the commit comes also after the abort.
  unfoldable pub finish_put : ℕ × LmdbStorage M → Option (ℕ × M.Db)
  finish_put (code, s) =
      let s' = if code == 0 then s else lmdb_storage_tx_abort M s in
      lmdb_storage_tx_commit M s' >>= λ (code', s''). some (if code' == 0 then 0 else 1, s''.env)

  unfoldable pub storage_put : LmdbStorage M → Accepted → Option (ℕ × M.Db)
  unfolding finish_put
  storage_put s accepted = lmdb_storage_tx_begin M s >>= λ (code, s₁).
      if code == 0 then (lmdb_storage_put M malloc s₁ accepted >>= finish_put) else some (1, s₁.env)

  unfoldable pub process_write_message : LmdbStorage M → ClientValue → Option M.Db
  process_write_message s message = storage_put s message.value >>= λ (code, db). some db

  -- The value that was found, or a structure of zeros.
  unfoldable pub answer_value : Option Accepted → Option Accepted
  answer_value none = zeroed malloc
  answer_value (some out) = some out

  unfoldable pub process_read_message : LmdbStorage M → ClientValue → Option (Written × M.Db)
  unfolding answer_value
  process_read_message s message = do
    (out, db) ← storage_get s (accepted_iid message.value.image)
    value ← answer_value out
    msg ← client_value_to_buffer malloc (record { buffer_id = message.buffer_id; value = value })
    some (record { buffer = msg; count = (sizeof_int + accepted_size value) % u64_mod }, db)

  -- The part of generic_storage_thread from the message that was read on: `recv` is the buffer,
  -- `accepted` the structure that all messages are decoded into.
  unfoldable pub handle_message :
      LmdbStorage M → Bool → Bytes → Accepted → Option (Option Written × M.Db × Accepted)
  handle_message s is_read recv accepted = do
    decoded ← buffer_to_paxos_accepted malloc (drop sizeof_int recv) accepted
    message_block ← malloc sizeof_client_value
    let message : ClientValue = record { buffer_id = load32 recv 0; value = decoded }
    elim is_read [
      | true ↦ process_read_message s message >>= λ (w, db). some (some w, db, decoded)
      | false ↦ process_write_message s message >>= λ db. some (none, db, decoded)
    ]

  -- The messages that were written, in order.
  abbrev pub add_written : Option Written → List Written → List Written
  add_written none ws = ws
  add_written (some w) ws = w ∷ ws

  -- The loop of generic_storage_thread, until `stop`: what is written, the table, and
  -- `countMessages`. A read that fails is handled as a message.
  unfoldable pub thread_loop :
      LmdbStorage M → Bool → Accepted → ℕ → List Event → Option (List Written × M.Db × ℕ)
  thread_loop s is_read accepted n [] = some ([], s.env, n)
  thread_loop s is_read accepted n (no_event ∷ es) = thread_loop s is_read accepted n es
  thread_loop s is_read accepted n (readable (pos zero) recv ∷ es) =
      thread_loop s is_read accepted n es
  thread_loop s is_read accepted n (readable (pos (suc k)) recv ∷ es) = do
    (w, db, decoded) ← handle_message s is_read recv accepted
    (ws, db', n') ← thread_loop (record s { env = db }) is_read decoded (n + 1) es
    some (add_written w ws, db', n')
  thread_loop s is_read accepted n (readable (negsuc k) recv ∷ es) = do
    (w, db, decoded) ← handle_message s is_read recv accepted
    (ws, db', n') ← thread_loop (record s { env = db }) is_read decoded (n + 1) es
    some (add_written w ws, db', n')
