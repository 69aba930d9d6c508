-- ===== src/Lmdb/Tests.antt =====
-- Keys whose bytes, as LMDB itself compares them, have the other order.
use kernel_paxos_persistence.Lmdb.Order.{compare_iid_lem}
use kernel_paxos_persistence.Prelude.{◌≡◌, some, negsuc, arith}
use kernel_paxos_persistence.Memory.{word32}
use kernel_paxos_persistence.Lmdb.{lmdb_compare_iid}

compare_iid_lem_example : lmdb_compare_iid (word32 255) (word32 256) ≡ some (negsuc 0)
compare_iid_lem_example = compare_iid_lem 255 256 (omega arith) (omega arith)
