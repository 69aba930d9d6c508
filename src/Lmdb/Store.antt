-- ===== src/Lmdb/Store.antt =====
-- lmdb_storage_put and lmdb_storage_get on an open transaction, for an accepted value that is whole.
use kernel_paxos_persistence.Types.{sizeof_accepted, accepted_iid, iid_offset}
use kernel_paxos_persistence.Prelude.{
  length, ◌≡◌, some, ◌++◌, ap, take-all, ◌==◌, true, arith, length-append,
}
use kernel_paxos_persistence.Memory.{Bytes}
use kernel_paxos_persistence.Codec.RoundTrip.{
  IsPlenty, IsAccepted, to_buffer_lem, IsSame, decode_lem, accepted_size_lem,
}
use kernel_paxos_persistence.Codec.{Malloc, IsMalloc, Accepted, accepted_size}
use kernel_paxos_persistence.Lmdb.{
  Lmdb, lmdb_storage_put, lmdb_storage_get, LmdbStorage, put_data, get_data,
}

module _ (M : Lmdb) (malloc : Malloc) (sized : IsMalloc malloc) (plenty : IsPlenty malloc)
    (acc : Accepted) (value : Bytes) (ok : IsAccepted acc value) where
  -- What is stored is the structure and the value, under the instance.
  pub lmdb_put_lem :
      (s : LmdbStorage M)
      → lmdb_storage_put M malloc s acc
        ≡ some (put_data M s (accepted_iid acc.image) (acc.image ++ value))
  unfolding lmdb_storage_put
  lmdb_put_lem s = rw (to_buffer_lem acc value ok malloc sized plenty) (
      ap (λ t. some (put_data M s (accepted_iid acc.image) t))
        (take-all (accepted_size acc) (acc.image ++ value)
          (omega (arith, length-append acc.image value, accepted_size_lem acc value ok, ok.whole))))

  -- A record that was stored so is decoded to the same value.
  pub lmdb_get_lem :
      (s : LmdbStorage M) (out : Accepted)
      → length out.image ≡ sizeof_accepted
      → get_data M s (accepted_iid acc.image) ≡ (0, acc.image ++ value)
      → (acc' : Accepted) × (lmdb_storage_get M malloc s (accepted_iid acc.image) out
          ≡ some (1, acc'))
        × IsSame acc acc' value
  unfolding lmdb_storage_get
  lmdb_get_lem s out whole found =
      let (acc', e, same_acc) = decode_lem acc value ok malloc out sized plenty whole in
      let same : (accepted_iid acc.image == accepted_iid acc'.image) ≡ true =
        ground (arith, same_acc.words iid_offset (omega arith)) in
      (acc', rw (lmdb_storage_get, found, e, same), same_acc)
