-- ===== src/Lmdb/Order.antt =====
-- The order of the keys of the table: lmdb_compare_iid on the keys that lmdb_storage_put and
-- lmdb_storage_get use.
use kernel_paxos_persistence.Memory.Laws.{load32-word32}
use kernel_paxos_persistence.Memory.{word32}
use kernel_paxos_persistence.Lmdb.{lmdb_compare_iid}
use kernel_paxos_persistence.Prelude.{ℤ, negsuc, ℕ, pos, ◌<◌, ◌^◌, ◌≡◌, some, ◌∙◌, arith}
use Prim.Native.Nat.{compare, Ordering}
use native.Mathlib.Nat.{mod-eq_of_lt}

-- The sign that a comparison function returns.
abbrev pub sign : Ordering → ℤ
sign Ordering.lt = negsuc 0
sign Ordering.eq = pos 0
sign Ordering.gt = pos 1

-- For instances below 2^32, lmdb_compare_iid of the keys that they are stored under has the sign of
-- the comparison of the numbers, although the bytes stand with the least significant first.
pub compare_iid_lem :
    (a b : ℕ)
    → a < 2 ^ 32
    → b < 2 ^ 32
    → lmdb_compare_iid (word32 a) (word32 b) ≡ some (sign (compare a b))
unfolding lmdb_compare_iid
compare_iid_lem a b ha hb =
    rw (load32-word32 a ∙ mod-eq_of_lt ha, load32-word32 b ∙ mod-eq_of_lt hb) (ground arith)
