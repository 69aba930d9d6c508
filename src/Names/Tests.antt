-- ===== src/Names/Tests.antt =====
-- The names of the device "read" with the number 3.
use kernel_paxos_persistence.Names.Laws.{allocate_name_folder_lem}
use kernel_paxos_persistence.Sample.Storage.{heap, heap-IsMalloc, heap-IsPlenty}
use kernel_paxos_persistence.Prelude.{◌∷◌, [], ◌≡◌, some, ◌++◌}
use kernel_paxos_persistence.Names.{allocate_name_folder, folder, slash}
use kernel_paxos_persistence.Memory.{Bytes}

abbrev read_name : Bytes
read_name = 114 ∷ 101 ∷ 97 ∷ 100 ∷ []

allocate_name_folder_lem_example :
    allocate_name_folder heap read_name 3 ≡ some (folder ++ (slash ∷ (read_name ++ (51 ∷ 0 ∷ []))))
allocate_name_folder_lem_example =
    allocate_name_folder_lem heap heap-IsMalloc heap-IsPlenty read_name 3
