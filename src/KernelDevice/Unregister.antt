-- ===== src/KernelDevice/Unregister.antt =====
-- kdevchar_exit, and the class of the device.
use kernel_paxos_persistence.Kernel.{Kernel}
use kernel_paxos_persistence.KernelDevice.{class_destroy, Registry, CharDevice}
use kernel_paxos_persistence.World.{World}
use kernel_paxos_persistence.KernelDevice.Exit.{
  DeviceBlocks, kdevchar_exit, class_unregister, device_destroy,
}
use kernel_paxos_persistence.Prelude.{ℕ, some, ◌≡◌, arith, none, refl}
use kernel_paxos_persistence.World.Count.{count, absent_lem, removed_lem, count_self}

-- For a device that has a major number and a class that is registered once, as after kdevchar_init,
-- kdevchar_exit unregisters the class a second time, when it is not registered any more.
pub exit_is_undefined :
    (K : Kernel) (r : Registry) (w : World) (k : CharDevice) (b : DeviceBlocks) (class major : ℕ)
    → k.char_class ≡ some class
    → k.major ≡ some major
    → count class r.classes ≡ 1
    → kdevchar_exit K r w k b ≡ none
unfolding kdevchar_exit class_unregister class_destroy device_destroy
exit_is_undefined K r w k b class major class_is major_is once =
    let (classes, e, counts) = removed_lem class r.classes (omega (arith, once)) in
    let gone : count class classes ≡ 0 =
      omega (arith, once, counts class, count_self class class classes refl) in
    rw (class_is, major_is, e, absent_lem class classes gone)
