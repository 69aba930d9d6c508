-- ===== src/System/Turn.antt =====
-- The thread of the read device at the head of its loop, and one turn of it.

use kernel_paxos_persistence.Codec.RoundTrip.{IsPlenty}
use kernel_paxos_persistence.ReadPersistence.Complete.{woken}
use kernel_paxos_persistence.System.Received.{IsRequest}
use kernel_paxos_persistence.Ring.Delivery.{head_slot}
use kernel_paxos_persistence.Types.{
  accepted_iid, value_len, sizeof_int, sizeof_accepted, buffer_size, max_paxos_value_size,
}
use kernel_paxos_persistence.System.Lookup.{IsLookup, IsRecord}
use kernel_paxos_persistence.Codec.{Malloc, IsMalloc}
use kernel_paxos_persistence.ReadPersistence.Answer.{IsReadable}
use kernel_paxos_persistence.Ring.{IsRing, queued}
use kernel_paxos_persistence.WritePersistence.Run.{IsReliable}
use kernel_paxos_persistence.Memory.{Bytes}
use kernel_paxos_persistence.System.{StorageThread}
use kernel_paxos_persistence.Kernel.{Kernel}
use kernel_paxos_persistence.Device.{Device, Response, Callback}
use kernel_paxos_persistence.Prelude.{
  Option, ℕ, get_elem?, ◌≢◌, ◌≡◌, All, some, ◌∷◌, none, length, ◌+◌, ◌++◌, ◌%◌, replicate, ◌≤◌, ◌-◌,
}
use kernel_paxos_persistence.Lmdb.{Lmdb, LmdbLaws}

-- The thread at the head of its loop: the device works, every queued request is one of the test
-- client's, and the buffers have their sizes.
pub record IsReading (M : Lmdb) (r : StorageThread M) : Type 0 where
  pub ring : IsRing r.device
  pub works : r.device.working ≢ 0
  pub requests : All IsRequest (queued r.device)
  pub no_txn : r.storage.txn ≡ none
  pub room : sizeof_int + sizeof_accepted ≤ length r.recv
  pub whole : length r.accepted.image ≡ sizeof_accepted

-- What the response of a callback says: the value of the record that the table has, or nothing.
pub record IsResponseTo (found : Option Bytes) (iid : ℕ) (response : Response) : Type 0 where
  pub value : Bytes
  pub looked_up : IsLookup found iid (accepted_iid response.header) value
  pub len_is : value_len response.header ≡ length value
  pub value_is : response.value ≡ value ++ replicate (max_paxos_value_size - length value) 0

-- The callback of a slot, answered.
unfoldable pub IsAnsweredAt : Device → ℕ → Option Bytes → ℕ → Type 0
IsAnsweredAt d i found iid =
    (c : Callback) × (response : Response) × (get_elem? d.callback_buf i
      ≡ some (woken (record c { response = some response })))
    × IsResponseTo found iid response

-- One turn from `r` to `r'`, for the request at the head of the ring.
pub record IsTurn (M : Lmdb) (L : LmdbLaws M) (r r' : StorageThread M) : Type 0 where
  pub reading : IsReading M r'
  pub taken : queued r.device ≡ head_slot r.device ∷ queued r'.device
  pub one_less : r.device.used_buf ≡ r'.device.used_buf + 1
  pub moved : r'.device.first_buf ≡ (r.device.first_buf + 1) % buffer_size
  pub answered :
      IsAnsweredAt r'.device r.device.first_buf
        (L.contents r.storage.env (accepted_iid (head_slot r.device)))
        (accepted_iid (head_slot r.device))
  pub others :
      (i : ℕ)
      → r.device.first_buf ≢ i
      → get_elem? r'.device.callback_buf i ≡ get_elem? r.device.callback_buf i
  pub kept : (i : ℕ) → L.contents r'.storage.env i ≡ L.contents r.storage.env i

-- What a turn needs besides: copies and memory that do not fail, a transaction that can be opened,
-- and a table of whole records.
pub record IsServed (K : Kernel) (M : Lmdb) (L : LmdbLaws M) (malloc : Malloc) : Type 0 where
  pub reliable : IsReliable K
  pub reads : IsReadable K
  pub sized : IsMalloc malloc
  pub plenty : IsPlenty malloc
  pub begins : (db : M.Db) → (M.mdb_txn_begin db).0 ≡ 0

abbrev pub IsTable : (M : Lmdb) → LmdbLaws M → M.Db → Type 0
IsTable M L db = (i : ℕ) → IsRecord (L.contents db i) i
