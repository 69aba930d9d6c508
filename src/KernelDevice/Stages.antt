-- ===== src/KernelDevice/Stages.antt =====
-- The three registrations of kdevchar_init, each when it succeeds and when it fails.
use kernel_paxos_persistence.Names.{folder, digit_zero, slash}
use kernel_paxos_persistence.Names.Laws.{allocate_name_lem, allocate_name_folder_lem}
use kernel_paxos_persistence.World.{remove, Outcomes}
use kernel_paxos_persistence.Memory.{Bytes}
use kernel_paxos_persistence.Codec.RoundTrip.{IsPlenty}
use kernel_paxos_persistence.KernelDevice.{
  Registry, CharDevice, reg_char_class, device_create, class_destroy, unregister_chrdev,
  reg_dev_class, major_number, class_create, register_chrdev,
}
use kernel_paxos_persistence.Codec.{Malloc, IsMalloc}
use kernel_paxos_persistence.Prelude.{
  ℕ, ◌≡◌, some, ◌+◌, [], List, ◌∷◌, false, ◌==◌, true, arith, none, ◌++◌, ◌%◌,
}

pub remove_head : (x : ℕ) (xs : List ℕ) → remove x (x ∷ xs) ≡ some xs
unfolding remove
remove_head x xs = let same : (x == x) ≡ true = ground arith in rw same

module _ (succeeds : Outcomes) (r : Registry) (k : CharDevice) where
  pub device_made :
      (class major : ℕ)
      → k.char_class ≡ some class
      → k.major ≡ some major
      → succeeds r.calls ≡ true
      → reg_char_class succeeds r k
        ≡ some (
          0,
          record k { char_device = some r.calls },
          record r { calls = r.calls + 1; nodes = (class, major) ∷ r.nodes },
        )
  unfolding reg_char_class device_create
  device_made class major e f made = simp (e, f, made)

  pub device_failed :
      (class major : ℕ) (classes majors : List ℕ)
      → k.char_class ≡ some class
      → k.major ≡ some major
      → r.classes ≡ class ∷ classes
      → r.majors ≡ major ∷ majors
      → succeeds r.calls ≡ false
      → reg_char_class succeeds r k
        ≡ some (
          1,
          record k { char_device = none },
          record r { calls = r.calls + 1; classes = classes; majors = majors },
        )
  unfolding reg_char_class device_create class_destroy unregister_chrdev
  device_failed class major classes majors e f g h failed =
      simp (e, f, g, h, failed, remove_head class classes, remove_head major majors)

  module _ (pmalloc : Malloc) (sized : IsMalloc pmalloc) (plenty : IsPlenty pmalloc) (id : ℕ)
      (name : Bytes) where
    abbrev pub class_named : CharDevice
    class_named = record k { clas_name = name ++ (((id + digit_zero) % 256) ∷ 0 ∷ []) }

    pub class_made :
        succeeds r.calls ≡ true
        → reg_dev_class succeeds pmalloc r id name k
          ≡ some (
            0,
            record class_named { char_class = some r.calls },
            record r { calls = r.calls + 1; classes = r.calls ∷ r.classes },
          )
    unfolding reg_dev_class class_create
    class_made made = simp (allocate_name_lem pmalloc sized plenty name id, made)

    pub class_failed :
        (major : ℕ) (majors : List ℕ)
        → k.major ≡ some major
        → r.majors ≡ major ∷ majors
        → succeeds r.calls ≡ false
        → reg_dev_class succeeds pmalloc r id name k
          ≡ some (
            1,
            record class_named { char_class = none },
            record r { calls = r.calls + 1; majors = majors },
          )
    unfolding reg_dev_class class_create unregister_chrdev
    class_failed major majors f h failed =
        simp
          (allocate_name_lem pmalloc sized plenty name id, failed, f, h, remove_head major majors)

    abbrev pub device_named : CharDevice
    device_named = record k {
      de_name = folder ++ (slash ∷ (name ++ (((id + digit_zero) % 256) ∷ 0 ∷ [])));
    }

    pub major_made :
        succeeds r.calls ≡ true
        → major_number succeeds pmalloc r id name k
          ≡ some (
            0,
            record device_named { major = some r.calls },
            record r { calls = r.calls + 1; majors = r.calls ∷ r.majors },
          )
    unfolding major_number register_chrdev
    major_made made = simp (allocate_name_folder_lem pmalloc sized plenty name id, made)

    pub major_failed :
        succeeds r.calls ≡ false
        → major_number succeeds pmalloc r id name k
          ≡ some (1, record device_named { major = none }, record r { calls = r.calls + 1 })
    unfolding major_number register_chrdev
    major_failed failed = simp (allocate_name_folder_lem pmalloc sized plenty name id, failed)
