-- ===== src/Sample/Storage.antt =====
-- Concrete values for the tests of the storage: a heap with memory, a table in place of LMDB, one
-- whose transactions are full, and an accepted value.
use mathlib.Core.Option.{some-injective}
use kernel_paxos_persistence.Types.{sizeof_accepted, iid_offset, value_len_offset}
use kernel_paxos_persistence.Memory.{Bytes, overwrite, load32, word32}
use kernel_paxos_persistence.Lmdb.{Lmdb, LmdbLaws}
use kernel_paxos_persistence.Prelude.{
  ℕ, Option, none, some, replicate, [], arith, if◌then◌else◌, ◌≡◌, ◌≢◌, ◌∷◌, refl, ◌==◌, inr,
  length-replicate,
}
use kernel_paxos_persistence.Codec.RoundTrip.{IsPlenty, IsAccepted}
use kernel_paxos_persistence.Codec.{Malloc, IsMalloc, Accepted, ClientValue}

abbrev pub heap : Malloc
heap n = some (record { address = replicate 8 0; bytes = replicate n 0 })

pub heap-IsMalloc : IsMalloc heap
heap-IsMalloc n b e = rw (← e_block) (length-replicate {A = ℕ} n 0, refl)
  where
    e_block : record { address = replicate 8 0; bytes = replicate n 0 } ≡ b
    e_block = some-injective _ _ e

pub heap-IsPlenty : IsPlenty heap
heap-IsPlenty n = (record { address = replicate 8 0; bytes = replicate n 0 }, refl)

abbrev pub Table : Type 0
Table = ℕ → Option Bytes

unfoldable pub insert : Table → ℕ → Bytes → Table
insert t k b i = if k == i then some b else t i

unfoldable pub lookup : Option Bytes → ℕ × Bytes
lookup none = (1, [])
lookup (some b) = (0, b)

abbrev pub table : Lmdb
table = record {
  Db = Table;
  Txn = Table;
  mdb_txn_begin = λ db. (0, some db);
  mdb_txn_commit = λ db t. (0, t);
  mdb_txn_abort = λ db t. db;
  mdb_put = λ t k b. (0, insert t k b);
  mdb_get = λ t k. lookup (t k);
}

pub lookup_found : (o : Option Bytes) (b : Bytes) → o ≡ some b → lookup o ≡ (0, b)
unfolding lookup
lookup_found o b e = rw e

pub lookup_missing : (o : Option Bytes) → o ≡ none → (lookup o).0 ≢ 0
unfolding lookup
lookup_missing o e = rw e (λ h. omega arith)

pub insert_self : (t : Table) (k : ℕ) (b : Bytes) → insert t k b k ≡ some b
unfolding insert
insert_self t k b = ground arith

pub insert_ne : (t : Table) (k i : ℕ) (b : Bytes) → k ≢ i → insert t k b i ≡ t i
unfolding insert
insert_ne t k i b ne = ground arith

abbrev pub table_laws : LmdbLaws table
table_laws = record {
  contents = λ db. db;
  view = λ t. t;
  begin_done = λ db e. (db, refl, λ k. refl);
  begin_failed = λ db e. absurd (e refl);
  commit_done = λ db t e k. refl;
  commit_failed = λ db t e k. absurd (e refl);
  abort_lem = λ db t k. refl;
  put_self = λ t k b e. insert_self t k b;
  put_ne = λ t k i b e ne. insert_ne t k i b ne;
  get_found = λ t k b e. lookup_found (t k) b e;
  get_missing = λ t k e. lookup_missing (t k) e;
}

-- MDB_MAP_FULL at every put
abbrev pub full_table : Lmdb
full_table = record table { mdb_put = λ t k b. (1, t) }

abbrev pub full_laws : LmdbLaws full_table
full_laws = record {
  contents = λ db. db;
  view = λ t. t;
  begin_done = λ db e. (db, refl, λ k. refl);
  begin_failed = λ db e. absurd (e refl);
  commit_done = λ db t e k. refl;
  commit_failed = λ db t e k. absurd (e refl);
  abort_lem = λ db t k. refl;
  put_self = λ t k b e. absurd (omega arith);
  put_ne = λ t k i b e ne. absurd (omega arith);
  get_found = λ t k b e. lookup_found (t k) b e;
  get_missing = λ t k e. lookup_missing (t k) e;
}

abbrev pub no_records : Table
no_records i = none

-- Instance 7, with a value of three bytes.
abbrev pub three_bytes : Bytes
three_bytes = 1 ∷ 2 ∷ 3 ∷ []

abbrev pub seven : Accepted
seven = record {
  image =
      overwrite (overwrite (replicate sizeof_accepted 0) iid_offset (word32 7)) value_len_offset
        (word32 3);
  value_val = some three_bytes;
}

pub seven-IsAccepted : IsAccepted seven three_bytes
unfolding overwrite load32
seven-IsAccepted = record { whole = refl; len_is = refl; small = omega arith; there = inr refl }

-- A request of the slot 0 for it.
abbrev pub for_seven : ClientValue
for_seven = record { buffer_id = 0; value = seven }
