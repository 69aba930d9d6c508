-- ===== src/KernelDevice.antt =====
-- kpaxos/kernel_device.c: a device is registered with the kernel, and its buffers are allocated. Which
-- registrations succeed is a parameter, from the number of the call; the kernel's objects are named
-- by that number.
pub mod Buffers
pub mod Stages
pub mod Init
pub mod Exit
pub mod Account
pub mod Released
pub mod Unregister
mod Tests
use kernel_paxos_persistence.Names.{allocate_name_folder, allocate_name}
use kernel_paxos_persistence.Device.{Device, Callback, clear_paxos_accepted}
use kernel_paxos_persistence.Types.{
  slot_size, sizeof_callback, buffer_size, sizeof_accepted, max_paxos_value_size,
  callback_id_offset, callback_iid_offset,
}
use kernel_paxos_persistence.Codec.{Malloc}
use kernel_paxos_persistence.World.{Outcomes, remove}
use kernel_paxos_persistence.Memory.{Bytes, load32}
use kernel_paxos_persistence.Prelude.{
  ℕ, List, Option, ◌+◌, ◌>>=◌, none, some, [], if◌then◌else◌, suc, false, ◌∷◌, zero, ◌==◌,
}

-- What is registered with the kernel: major numbers, classes, and devices of a class.
pub record Registry : Type 0 where
  pub calls : ℕ
  pub majors : List ℕ
  pub classes : List ℕ
  pub nodes : List (ℕ × ℕ)

-- struct paxos_kernel_device, with the fields that the file operations do not use. `none` is an
-- ERR_PTR, or the negative number of a failed registration.
pub record CharDevice : Type 0 where
  pub de_name : Bytes
  pub clas_name : Bytes
  pub char_class : Option ℕ
  pub char_device : Option ℕ
  pub major : Option ℕ
  pub device : Device

-- To unregister what is not registered is undefined.
unfoldable pub unregister_chrdev : Registry → ℕ → Option Registry
unregister_chrdev r major = do majors ← remove major r.majors; some (record r { majors = majors })

unfoldable pub class_destroy : Registry → ℕ → Option Registry
class_destroy r class = do classes ← remove class r.classes; some (record r { classes = classes })

module _ (succeeds : Outcomes) where
  unfoldable pub register_chrdev : Registry → Option ℕ × Registry
  register_chrdev r =
      let r' = record r { calls = r.calls + 1 } in
      if succeeds r.calls
      then (some r.calls, record r' { majors = r.calls ∷ r.majors })
      else (none, r')

  unfoldable pub class_create : Registry → Option ℕ × Registry
  class_create r =
      let r' = record r { calls = r.calls + 1 } in
      if succeeds r.calls
      then (some r.calls, record r' { classes = r.calls ∷ r.classes })
      else (none, r')

  unfoldable pub device_create : Registry → ℕ → ℕ → Option ℕ × Registry
  device_create r class major =
      let r' = record r { calls = r.calls + 1 } in
      if succeeds r.calls
      then (some r.calls, record r' { nodes = (class, major) ∷ r.nodes })
      else (none, r')

  unfoldable pub reg_char_class : Registry → CharDevice → Option (ℕ × CharDevice × Registry)
  reg_char_class r k = do
    class ← k.char_class
    major ← k.major
    let (node, r') = device_create r class major
    let k' = record k { char_device = node }
    elim node [
      | some n ↦ some (0, k', r')
      | none ↦ do r₁ ← class_destroy r' class; r₂ ← unregister_chrdev r₁ major; some (1, k', r₂)
    ]

  module _ (pmalloc : Malloc) where
    -- 0, or 1 for the negative number of an error
    unfoldable pub major_number :
        Registry → ℕ → Bytes → CharDevice → Option (ℕ × CharDevice × Registry)
    major_number r id name k = do
      de_name ← allocate_name_folder pmalloc name id
      let (major, r') = register_chrdev r
      let k' = record k { de_name = de_name; major = major }
      some (elim major [ none ↦ 1 | some m ↦ 0 ], k', r')

    unfoldable pub reg_dev_class :
        Registry → ℕ → Bytes → CharDevice → Option (ℕ × CharDevice × Registry)
    reg_dev_class r id name k = do
      clas_name ← allocate_name pmalloc name id
      let (class, r') = class_create r
      let k' = record k { clas_name = clas_name; char_class = class }
      elim class [
        | some c ↦ some (0, k', r')
        | none ↦ do major ← k.major; r'' ← unregister_chrdev r' major; some (1, k', r'')
      ]

-- The loop of kdevchar_init: the slot `i` and its callback, `k` of them to go. `heap` gives what the
-- allocator gives for the slot. A message block that is NULL is stored as one of no bytes; the
-- callback, its response and its value are written to at once. What a callback's block holds
-- besides is left as it is.
unfoldable pub new_callback : Malloc → Option Callback
new_callback heap = do
  block ← heap sizeof_callback
  response ← heap sizeof_accepted
  value ← heap max_paxos_value_size
  some (record {
    response_wait = [];
    response =
        some (clear_paxos_accepted (record { header = response.bytes; value = value.bytes }));
    buffer_id = load32 block.bytes callback_id_offset;
    is_done = 0;
    iid = load32 block.bytes callback_iid_offset;
  })

abbrev pub new_slot : Malloc → Bytes
new_slot heap = elim (heap slot_size) [ none ↦ [] | some block ↦ block.bytes ]

unfoldable pub new_slots : (ℕ → Malloc) → ℕ → ℕ → Option (List Bytes × List Callback)
new_slots heap i zero = some ([], [])
new_slots heap i (suc k) = do
  callback ← new_callback (heap i)
  (slots, callbacks) ← new_slots heap (i + 1) k
  some (new_slot (heap i) ∷ slots, callback ∷ callbacks)

-- The part of kdevchar_init after the registrations.
unfoldable pub init_buffers : (ℕ → Malloc) → CharDevice → Option CharDevice
init_buffers heap k = do
  (slots, callbacks) ← new_slots heap 0 buffer_size
  some (record k {
    device = record k.device {
      msg_buf = slots;
      callback_buf = callbacks;
      current_buf = 0;
      first_buf = 0;
      char_mutex = false;
      access_wait = [];
      used_buf = 0;
    };
  })

module _ (succeeds : Outcomes) where
  -- kdevchar_init from the registration of the class on, and from that of the device on. 1 is for -1.
  unfoldable pub init_node :
      (ℕ → Malloc) → Registry → CharDevice → Option (ℕ × CharDevice × Registry)
  init_node heap r k = do
    (e, k', r') ← reg_char_class succeeds r k
    if e == 1 then some (1, k', r') else (init_buffers heap k' >>= λ k''. some (0, k'', r'))

  unfoldable pub init_class :
      Malloc → (ℕ → Malloc) → Registry → ℕ → Bytes → CharDevice → Option (ℕ × CharDevice × Registry)
  init_class pmalloc heap r id name k = do
    (e, k', r') ← reg_dev_class succeeds pmalloc r id name k
    if e == 1 then some (1, k', r') else init_node heap r' k'

  -- The name and the device are not NULL.
  unfoldable pub kdevchar_init :
      Malloc → (ℕ → Malloc) → Registry → ℕ → Bytes → CharDevice → Option (ℕ × CharDevice × Registry)
  kdevchar_init pmalloc heap r id name k = do
    let started = record k { device = record k.device { working = 1 } }
    (e₁, k₁, r₁) ← major_number succeeds pmalloc r id name started
    if e₁ == 1 then some (1, k₁, r₁) else init_class pmalloc heap r₁ id name k₁
