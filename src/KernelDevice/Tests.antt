-- ===== src/KernelDevice/Tests.antt =====
-- A device is initialised, in a registry in which nothing is registered.
use kernel_paxos_persistence.KernelDevice.Unregister.{exit_is_undefined}
use kernel_paxos_persistence.KernelDevice.Released.{buffers_are_released}
use kernel_paxos_persistence.World.Count.{IsPermuted}
use kernel_paxos_persistence.KernelDevice.Exit.{
  alloc_buffers, DeviceBlocks, kdevchar_exit, free_buffers,
}
use kernel_paxos_persistence.KernelDevice.Init.{IsStarted, kdevchar_init_lem}
use kernel_paxos_persistence.Sample.{fresh, plain}
use kernel_paxos_persistence.Sample.Storage.{heap, heap-IsMalloc, heap-IsPlenty}
use kernel_paxos_persistence.Prelude.{
  Returns, [], if◌then◌else◌, none, ◌==◌, false, ◌∷◌, true, some, ◌≡◌, refl,
}
use kernel_paxos_persistence.World.{Outcomes, World}
use kernel_paxos_persistence.KernelDevice.{Registry, CharDevice, kdevchar_init}

abbrev no_registry : Registry
no_registry = record { calls = 0; majors = []; classes = []; nodes = [] }

abbrev no_device : CharDevice
no_device = record {
  de_name = [];
  clas_name = [];
  char_class = none;
  char_device = none;
  major = none;
  device = fresh;
}

-- All registrations succeed but the third.
abbrev no_node : Outcomes
no_node n = if n == 2 then false else true

kdevchar_init_lem_example :
    Returns
      (kdevchar_init no_node heap (λ i. heap) no_registry 3 (114 ∷ []) no_device)
      (IsStarted no_node no_registry)
kdevchar_init_lem_example =
    kdevchar_init_lem no_node heap heap-IsMalloc heap-IsPlenty (λ i. heap)
      (λ i. (heap-IsMalloc, heap-IsPlenty)) 3 (114 ∷ []) no_registry no_device

abbrev nothing : World
nothing = record { calls = 0; live = []; running = []; queued_work = [] }

buffers_are_released_example :
    Returns
      (alloc_buffers (λ n. true) nothing)
      λ (b, w'). Returns (free_buffers w' b) λ w''. IsPermuted w''.live [] × (w''.running ≡ [])
buffers_are_released_example = buffers_are_released (λ n. true) (λ n. refl) nothing

-- A device with the class 1 and the major number 0.
abbrev registered : CharDevice
registered = record no_device { major = some 0; char_class = some 1; char_device = some 2 }

abbrev one_device : Registry
one_device = record { calls = 3; majors = 0 ∷ []; classes = 1 ∷ []; nodes = (1, 0) ∷ [] }

abbrev no_blocks : DeviceBlocks
no_blocks = record {
  msg_buf = none;
  callback_buf = none;
  slots = [];
  de_name = none;
  clas_name = none;
}

exit_is_undefined_example : kdevchar_exit plain one_device nothing registered no_blocks ≡ none
exit_is_undefined_example =
    exit_is_undefined plain one_device nothing registered no_blocks 1 0 refl refl refl
