-- ===== src/KernelDevice/Init.antt =====
-- kdevchar_init, for every outcome of its registrations.
use kernel_paxos_persistence.KernelDevice.Stages.{
  device_made, class_made, major_made, class_named, device_named, device_failed, class_failed,
  major_failed,
}
use kernel_paxos_persistence.KernelDevice.Buffers.{IsHeap, init_buffers_lem}
use kernel_paxos_persistence.World.{Outcomes}
use kernel_paxos_persistence.Memory.{Bytes}
use kernel_paxos_persistence.Codec.RoundTrip.{IsPlenty}
use kernel_paxos_persistence.Ring.{IsRing}
use kernel_paxos_persistence.KernelDevice.{
  init_buffers, Registry, CharDevice, init_node, init_class, kdevchar_init,
}
use kernel_paxos_persistence.Codec.{Malloc, IsMalloc}
use kernel_paxos_persistence.Prelude.{
  ℕ, Returns, ◌≡◌, some, Returns-bind, ◌+◌, ap, refl, ◌∷◌, false, ◌⊎◌, Bool-cases, inl, inr, ◌∙◌,
  true,
}

-- The same objects are registered.
pub record IsSameRegistry (r r' : Registry) : Type 0 where
  pub majors : r'.majors ≡ r.majors
  pub classes : r'.classes ≡ r.classes
  pub nodes : r'.nodes ≡ r.nodes

-- One object of each kind more, which belong together.
pub record IsRegistered (r r' : Registry) (k : CharDevice) : Type 0 where
  pub major : ℕ
  pub class : ℕ
  pub major_is : k.major ≡ some major
  pub class_is : k.char_class ≡ some class
  pub majors : r'.majors ≡ major ∷ r.majors
  pub classes : r'.classes ≡ class ∷ r.classes
  pub nodes : r'.nodes ≡ (class, major) ∷ r.nodes

pub IsStarted : Outcomes → Registry → ℕ × CharDevice × Registry → Type 0
IsStarted succeeds r (e, k, r') =
    ((e ≡ 0)
      × IsRegistered r r' k
      × IsRing k.device
      × (k.device.used_buf ≡ 0)
      × (k.device.working ≡ 1)
      × (k.device.char_mutex ≡ false))
    ⊎ ((e ≡ 1) × IsSameRegistry r r' × ((n : ℕ) × (succeeds n ≡ false)))

-- When all registrations succeed, only the first of the two is left.
pub started_lem :
    (succeeds : Outcomes) (r r' : Registry) (e : ℕ) (k : CharDevice)
    → ((n : ℕ) → succeeds n ≡ true)
    → IsStarted succeeds r (e, k, r')
    → (e ≡ 0)
      × IsRegistered r r' k
      × IsRing k.device
      × (k.device.used_buf ≡ 0)
      × (k.device.working ≡ 1)
      × (k.device.char_mutex ≡ false)
unfolding IsStarted
started_lem succeeds r r' e k all (inl done) = done
started_lem succeeds r r' e k all (inr (_, _, (n, failed))) = let made = all n in absurd (cc)

module _ (succeeds : Outcomes) (pmalloc : Malloc) (sized : IsMalloc pmalloc)
    (plenty : IsPlenty pmalloc) (heap : ℕ → Malloc) (ok : IsHeap heap) (id : ℕ) (name : Bytes) where
  init_node_lem :
      (r₀ r : Registry) (k : CharDevice) (major class : ℕ)
      → k.major ≡ some major
      → k.char_class ≡ some class
      → k.device.working ≡ 1
      → r.majors ≡ major ∷ r₀.majors
      → r.classes ≡ class ∷ r₀.classes
      → r.nodes ≡ r₀.nodes
      → Returns (init_node succeeds heap r k) (IsStarted succeeds r₀)
  unfolding init_node IsStarted
  init_node_lem r₀ r k major class major_is class_is works majors classes nodes =
      elim (Bool-cases (succeeds r.calls)) [
        | inl made ↦ rw (device_made succeeds r k class major class_is major_is made) (
            Returns-bind _ _ (init_buffers heap (record k { char_device = some r.calls })) _
              (init_buffers_lem heap ok (record k { char_device = some r.calls }))
              λ k' (ring, used, works', free, major_eq, class_eq). inl (
                refl,
                record {
                  major = major;
                  class = class;
                  major_is = major_eq ∙ major_is;
                  class_is = class_eq ∙ class_is;
                  majors = majors;
                  classes = classes;
                  nodes = ap (λ t. (class, major) ∷ t) nodes;
                },
                ring,
                used,
                works' ∙ works,
                free,
              ))
        | inr failed ↦
            rw
              (device_failed succeeds r k class major r₀.classes r₀.majors class_is major_is classes
                majors failed)
              (inr
                (refl, record { majors = refl; classes = refl; nodes = nodes }, (r.calls, failed)))
      ]

  init_class_lem :
      (r₀ r : Registry) (k : CharDevice) (major : ℕ)
      → k.major ≡ some major
      → k.device.working ≡ 1
      → r.majors ≡ major ∷ r₀.majors
      → r.classes ≡ r₀.classes
      → r.nodes ≡ r₀.nodes
      → Returns (init_class succeeds pmalloc heap r id name k) (IsStarted succeeds r₀)
  unfolding init_class IsStarted
  init_class_lem r₀ r k major major_is works majors classes nodes =
      elim (Bool-cases (succeeds r.calls)) [
        | inl made ↦ rw (class_made succeeds r k pmalloc sized plenty id name made) (
            init_node_lem r₀ (record r { calls = r.calls + 1; classes = r.calls ∷ r.classes })
              (record (class_named succeeds r k pmalloc sized plenty id name) {
                char_class = some r.calls;
              })
              major r.calls major_is refl works majors (ap (λ t. r.calls ∷ t) classes) nodes)
        | inr failed ↦
            rw
              (class_failed succeeds r k pmalloc sized plenty id name major r₀.majors major_is
                majors failed)
              (inr (
                refl,
                record { majors = refl; classes = classes; nodes = nodes },
                (r.calls, failed),
              ))
      ]

  -- When the allocators have memory, kdevchar_init returns for every outcome of the three
  -- registrations: either 0, with one major number, class and device more that belong together, and
  -- a working device with a free mutex and an empty, well-formed ring; or -1, with the registry as
  -- it was.
  pub kdevchar_init_lem :
      (r : Registry) (k : CharDevice)
      → Returns (kdevchar_init succeeds pmalloc heap r id name k) (IsStarted succeeds r)
  unfolding kdevchar_init IsStarted
  kdevchar_init_lem r k =
      let k' = record k { device = record k.device { working = 1 } } in
      elim (Bool-cases (succeeds r.calls)) [
        | inl made ↦ rw (major_made succeeds r k' pmalloc sized plenty id name made) (
            init_class_lem r (record r { calls = r.calls + 1; majors = r.calls ∷ r.majors })
              (record (device_named succeeds r k' pmalloc sized plenty id name) {
                major = some r.calls;
              })
              r.calls refl refl refl refl refl)
        | inr failed ↦
            rw (major_failed succeeds r k' pmalloc sized plenty id name failed) (
              inr (refl, record { majors = refl; classes = refl; nodes = refl }, (r.calls, failed)))
      ]
