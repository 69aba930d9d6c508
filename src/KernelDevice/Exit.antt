-- ===== src/KernelDevice/Exit.antt =====
-- kpaxos/kernel_device.c: kdevchar_exit and persistence_device_destroy, and the account of the blocks
-- that kdevchar_init allocates for the buffers. kmalloc and vmalloc share the account.
use kernel_paxos_persistence.Device.{wake_up}
use kernel_paxos_persistence.Types.{buffer_size}
use kernel_paxos_persistence.WorkersPool.{WorkersPool, free_pool}
use kernel_paxos_persistence.Kernel.{Kernel}
use kernel_paxos_persistence.KernelDevice.{Registry, CharDevice, class_destroy, unregister_chrdev}
use kernel_paxos_persistence.World.{Outcomes, World, vmalloc, vfree, remove}
use kernel_paxos_persistence.Prelude.{
  Option, ℕ, List, some, ◌>>=◌, none, [], ◌∷◌, suc, if◌then◌else◌, ◌==◌, zero, ◌&&◌,
}

-- The blocks of the slot `i`: msg_buf[i], which may be NULL, callback_buf[i], its response, and the
-- response's value.
pub record SlotBlocks : Type 0 where
  pub message : Option ℕ
  pub callback : ℕ
  pub response : ℕ
  pub value : ℕ

-- The two arrays, which may be NULL, their slots, and the names.
pub record DeviceBlocks : Type 0 where
  pub msg_buf : Option ℕ
  pub callback_buf : Option ℕ
  pub slots : List SlotBlocks
  pub de_name : Option ℕ
  pub clas_name : Option ℕ

module _ (succeeds : Outcomes) where
  -- The loop of kdevchar_init: what is written to at once must be there.
  unfoldable pub alloc_slot : World → Option (SlotBlocks × World)
  alloc_slot w = do
    let (message, w₁) = vmalloc succeeds w
    let (p, w₂) = vmalloc succeeds w₁
    callback ← p
    let (q, w₃) = vmalloc succeeds w₂
    response ← q
    let (v, w₄) = vmalloc succeeds w₃
    value ← v
    some (record { message = message; callback = callback; response = response; value = value }, w₄)

  unfoldable pub alloc_slots : World → ℕ → Option (List SlotBlocks × World)
  alloc_slots w zero = some ([], w)
  alloc_slots w (suc k) = do (b, w₁) ← alloc_slot w; (bs, w₂) ← alloc_slots w₁ k; some (b ∷ bs, w₂)

  -- The arrays are not tested before the loop indexes them.
  unfoldable pub alloc_buffers : World → Option (DeviceBlocks × World)
  alloc_buffers w = do
    let (p, w₁) = vmalloc succeeds w
    let (q, w₂) = vmalloc succeeds w₁
    msg_buf ← p
    callback_buf ← q
    (slots, w₃) ← alloc_slots w₂ buffer_size
    some (
      record {
        msg_buf = some msg_buf;
        callback_buf = some callback_buf;
        slots = slots;
        de_name = none;
        clas_name = none;
      },
      w₃,
    )

-- kfree of NULL does nothing.
unfoldable pub kfree : World → Option ℕ → Option World
kfree w none = some w
kfree w (some p) = vfree w p

unfoldable pub free_slot : World → SlotBlocks → Option World
free_slot w b = do
  w₁ ← kfree w b.message
  w₂ ← vfree w₁ b.value
  w₃ ← vfree w₂ b.response
  vfree w₃ b.callback

unfoldable pub free_slots : World → List SlotBlocks → Option World
free_slots w [] = some w
free_slots w (b ∷ bs) = do w' ← free_slot w b; free_slots w' bs

-- `if (kernel_device -> msg_buf && kernel_device -> callback_buf)`
unfoldable pub free_buffers : World → DeviceBlocks → Option World
free_buffers w b = elim b.msg_buf [
  | none ↦ some w
  | some msg_buf ↦ elim b.callback_buf [
    | none ↦ some w
    | some callback_buf ↦ do w₁ ← free_slots w b.slots; w₂ ← vfree w₁ msg_buf; vfree w₂ callback_buf
  ]
]

-- The kernel's device_destroy ignores a device that it does not find.
unfoldable pub remove_node : ℕ × ℕ → List (ℕ × ℕ) → List (ℕ × ℕ)
remove_node (class, major) [] = []
remove_node (class, major) ((c, m) ∷ nodes) =
    let rest = remove_node (class, major) nodes in
    if c == class && m == major then nodes else (c, m) ∷ rest

unfoldable pub device_destroy : Registry → ℕ → ℕ → Registry
device_destroy r class major = record r { nodes = remove_node (class, major) r.nodes }

-- A class that is not registered cannot be unregistered.
unfoldable pub class_unregister : Registry → ℕ → Option Registry
class_unregister r class = do
  classes ← remove class r.classes
  some (record r { classes = classes })

-- The device stops, and who sleeps on it is woken; then the registrations and the memory are given
-- back, in this order.
unfoldable pub kdevchar_exit :
    Kernel → Registry → World → CharDevice → DeviceBlocks → Option (CharDevice × Registry × World)
kdevchar_exit K r w k b = do
  let stopped = record k {
    device = record k.device {
      working = 0;
      used_buf = K.atomic_inc k.device.used_buf;
      access_wait = wake_up ∷ k.device.access_wait;
    };
  }
  class ← k.char_class
  major ← k.major
  let r₁ = device_destroy r class major
  r₂ ← class_unregister r₁ class
  r₃ ← class_destroy r₂ class
  w₁ ← free_buffers w b
  w₂ ← kfree w₁ b.de_name
  w₃ ← kfree w₂ b.clas_name
  r₄ ← unregister_chrdev r₃ major
  some (stopped, r₄, w₃)

unfoldable pub persistence_device_destroy : World → Option WorkersPool → Option World
persistence_device_destroy w pool = free_pool w pool
