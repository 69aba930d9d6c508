-- ===== src/KernelDevice/Buffers.antt =====
-- The buffers of a device, as kdevchar_init allocates them.

use kernel_paxos_persistence.ReadPersistence.Answer.{clear-IsResponse}
use kernel_paxos_persistence.Memory.{load32}
use kernel_paxos_persistence.Types.{
  slot_size, sizeof_callback, sizeof_accepted, max_paxos_value_size, callback_id_offset,
  callback_iid_offset, buffer_size,
}
use kernel_paxos_persistence.Codec.RoundTrip.{IsPlenty}
use kernel_paxos_persistence.Device.{Callback, Response, clear_paxos_accepted}
use kernel_paxos_persistence.Ring.{IsSlot, IsCallback, IsRing}
use kernel_paxos_persistence.KernelDevice.{
  new_callback, new_slots, new_slot, init_buffers, CharDevice,
}
use kernel_paxos_persistence.Codec.{Malloc, IsMalloc}
use kernel_paxos_persistence.Prelude.{
  ℕ, Returns, length, ◌≡◌, some, All, suc, Returns-bind, ◌+◌, ap, [], zero, refl, false, arith,
}

-- Everything that the loop allocates is there.
abbrev pub IsHeap : (ℕ → Malloc) → Type 0
IsHeap heap = (i : ℕ) → IsMalloc (heap i) × IsPlenty (heap i)

module _ (heap : ℕ → Malloc) (ok : IsHeap heap) where
  new_callback_lem : (i : ℕ) → (c : Callback) × (new_callback (heap i) ≡ some c) × IsCallback c
  unfolding new_callback
  new_callback_lem i =
      let (sized, plenty) = ok i in
      let (block, e) = plenty sizeof_callback in
      let (response, e₁) = plenty sizeof_accepted in
      let (value, e₂) = plenty max_paxos_value_size in
      let r : Response = record { header = response.bytes; value = value.bytes } in
      (
        record {
          response_wait = [];
          response = some (clear_paxos_accepted r);
          buffer_id = load32 block.bytes callback_id_offset;
          is_done = 0;
          iid = load32 block.bytes callback_iid_offset;
        },
        rw (e, e₁, e₂) refl,
        record {
          has_response = (
            clear_paxos_accepted r,
            refl,
            clear-IsResponse r
                ((sized sizeof_accepted response e₁).0, (sized max_paxos_value_size value e₂).0),
          );
        },
      )

  new_slot_lem : (i : ℕ) → IsSlot (new_slot (heap i))
  new_slot_lem i =
      let (sized, plenty) = ok i in
      let (block, e) = plenty slot_size in rw (new_slot, e) (sized slot_size block e).0

  new_slots_lem :
      (k i : ℕ)
      → Returns (new_slots heap i k) λ (slots, callbacks).
        (length slots ≡ k) × All IsSlot slots × (length callbacks ≡ k) × All IsCallback callbacks
  unfolding new_slots
  new_slots_lem zero i = (refl, tt, refl, tt)
  new_slots_lem (suc k) i =
      let (c, e, c_ok) = new_callback_lem i in
      rw e (
        Returns-bind _ _ (new_slots heap (i + 1) k) _ (new_slots_lem k (i + 1))
          λ (slots, callbacks) (n, s_ok, m, cs_ok).
            (ap suc n, (new_slot_lem i, s_ok), ap suc m, (c_ok, cs_ok)))

  pub init_buffers_lem :
      (k : CharDevice)
      → Returns (init_buffers heap k) λ k'.
        IsRing k'.device
        × (k'.device.used_buf ≡ 0)
        × (k'.device.working ≡ k.device.working)
        × (k'.device.char_mutex ≡ false)
        × (k'.major ≡ k.major)
        × (k'.char_class ≡ k.char_class)
  unfolding init_buffers
  init_buffers_lem k =
      Returns-bind _ _ (new_slots heap 0 buffer_size) _ (new_slots_lem buffer_size 0)
        λ (slots, callbacks) (n, s_ok, m, cs_ok). (
          record {
            slots = n;
            slot_sizes = s_ok;
            callbacks = m;
            responses = cs_ok;
            first_in = omega arith;
            used_in = omega arith;
            current_at = refl;
          },
          refl,
          refl,
          refl,
          refl,
          refl,
        )
