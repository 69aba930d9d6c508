-- ===== src/TestClient/Recorded.antt =====
-- The writer of testekerneldevice.c with the storage process: what it sends is in the table.
use kernel_paxos_persistence.WritePersistence.{write_persistence_fops}
use kernel_paxos_persistence.Ring.{IsRing, queued}
use kernel_paxos_persistence.System.{StorageThread, thread_rounds}
use kernel_paxos_persistence.Device.{Device}
use kernel_paxos_persistence.WritePersistence.Run.{IsReliable}
use kernel_paxos_persistence.Lmdb.{Lmdb, LmdbLaws}
use kernel_paxos_persistence.Kernel.{Kernel}
use kernel_paxos_persistence.System.Received.{load32-take}
use kernel_paxos_persistence.TestClient.{msg_len}
use kernel_paxos_persistence.System.History.{as_incoming, persist_lem}
use kernel_paxos_persistence.UserStorage.History.{last_record, Sent, IsWorking}
use kernel_paxos_persistence.Codec.RoundTrip.{IsSame, IsPlenty}
use kernel_paxos_persistence.System.Entry.{value_of, entry_of, IsEntry}
use kernel_paxos_persistence.Types.{sizeof_accepted, accepted_iid, iid_offset}
use kernel_paxos_persistence.TestClient.Requests.{count_from}
use kernel_paxos_persistence.Codec.{Accepted, Malloc, IsMalloc}
use kernel_paxos_persistence.TestClient.Values.{IsClientMessage, client_value}
use kernel_paxos_persistence.UserStorage.Loop.{IsDecoded}
use kernel_paxos_persistence.Memory.{Bytes, slice}
use kernel_paxos_persistence.Prelude.{
  ℕ, Option, length, List, ◌≡◌, ◌≤◌, arith, some, ap, map, length-take, ◌++◌, ◌∙◌, All, drop, ◌<◌,
  length-drop, ◌+◌, suc, ◌∷◌, get_or, Bool-cases, ◌==◌, inl, inr, [], false, zero, refl, ==_ne,
  ==_iff, ne_of_==, ◌≢◌, none, Returns, Returns-map, All-map, subst, sym,
}

-- The record of an instance is a structure of that instance with the client's value behind it.
pub record IsClientRecord (i : ℕ) (found : Option Bytes) : Type 0 where
  pub image : Bytes
  pub whole : length image ≡ sizeof_accepted
  pub of_instance : accepted_iid image ≡ i
  pub there : found ≡ some (image ++ client_value)

client_length : (m : Bytes) → IsClientMessage m → sizeof_accepted ≤ length m
client_length m ok = omega (
  arith,
  ap length ok.value,
  length-take msg_len (drop sizeof_accepted m),
  length-drop sizeof_accepted m,
)

client_value_of : (m : Bytes) → IsClientMessage m → value_of m ≡ client_value
client_value_of m ok = ap (slice m sizeof_accepted) ok.len ∙ ok.value

-- The instance is not changed by the decoding.
decoded_iid :
    (m : Bytes) (acc : Accepted)
    → IsClientMessage m
    → IsSame (entry_of m) acc (value_of m)
    → accepted_iid acc.image ≡ accepted_iid m
decoded_iid m acc ok same =
    same.words iid_offset (omega arith)
    ∙ load32-take m iid_offset (client_length m ok) (omega arith)

-- An instance below all that were sent keeps its record.
record_below :
    (ms : List Bytes) (ys : List Sent) (a n i : ℕ) (old : Option Bytes)
    → IsDecoded (map as_incoming ms) ys
    → map accepted_iid ms ≡ count_from a n
    → All IsClientMessage ms
    → i < a
    → last_record ys i old ≡ old
unfolding IsDecoded count_from last_record
record_below [] [] a n i old same e ok below = refl
record_below [] (y ∷ ys) a n i old same e ok below = absurd same
record_below (m ∷ ms) [] a n i old same e ok below = absurd same
record_below (m ∷ ms) (y ∷ ys) a zero i old same e ok below = absurd (cc)
record_below (m ∷ ms) (y ∷ ys) a (suc n) i old same e ok below =
    let iid : accepted_iid y.0.value.image ≡ a =
      decoded_iid m y.0.value ok.0 same.0.0 ∙ ap (λ xs. get_or xs 0 0) e in
    rw (==_ne (accepted_iid y.0.value.image) i (omega (arith, iid, below)))
      (record_below ms ys (a + 1) n i old same.1 (ap (drop 1) e) ok.1 (omega arith))

-- An instance that was sent has the client's record.
record_within :
    (ms : List Bytes) (ys : List Sent) (a n i : ℕ) (old : Option Bytes)
    → IsDecoded (map as_incoming ms) ys
    → map accepted_iid ms ≡ count_from a n
    → All IsClientMessage ms
    → a ≤ i
    → i < a + n
    → IsClientRecord i (last_record ys i old)
unfolding IsDecoded count_from last_record
record_within [] ys a zero i old same e ok low high = absurd (omega arith)
record_within [] ys a (suc n) i old same e ok low high = absurd (cc)
record_within (m ∷ ms) [] a n i old same e ok low high = absurd same
record_within (m ∷ ms) (y ∷ ys) a zero i old same e ok low high = absurd (omega arith)
record_within (m ∷ ms) (y ∷ ys) a (suc n) i old same e ok low high =
    let iid : accepted_iid y.0.value.image ≡ a =
      decoded_iid m y.0.value ok.0 same.0.0 ∙ ap (λ xs. get_or xs 0 0) e in
    elim (Bool-cases (accepted_iid y.0.value.image == i)) [
      | inl hit ↦
          let i_eq : accepted_iid y.0.value.image ≡ i =
            (==_iff (accepted_iid y.0.value.image) i).0 hit in
          rw hit (record {
            image = y.0.value.image;
            whole = same.0.0.kept.whole;
            of_instance = i_eq;
            there =
                record_below ms ys (a + 1) n i (some (y.0.value.image ++ y.1)) same.1
                  (ap (drop 1) e) ok.1 (omega (arith, iid, i_eq))
                ∙ ap (λ v. some (y.0.value.image ++ v)) (same.0.1 ∙ client_value_of m ok.0);
          })
      | inr miss ↦ rw miss (
          record_within ms ys (a + 1) n i old same.1 (ap (drop 1) e) ok.1
            (omega (arith, iid, low, ne_of_== (accepted_iid y.0.value.image) i miss)) (omega arith))
    ]

module _ (K : Kernel) (M : Lmdb) (L : LmdbLaws M) (malloc : Malloc) (reliable : IsReliable K)
    (works : IsWorking M) (sized : IsMalloc malloc) (plenty : IsPlenty malloc) where
  -- The thread, with the device as the writer left it.
  pub recorded_lem :
      (d : Device) (r : StorageThread M) (n : ℕ)
      → IsRing d
      → d.working ≢ 0
      → map accepted_iid (queued d) ≡ count_from 0 n
      → All IsClientMessage (queued d)
      → n ≡ d.used_buf
      → r.storage.txn ≡ none
      → 108 ≤ length r.recv
      → length r.accepted.image ≡ sizeof_accepted
      → Returns
          (thread_rounds (write_persistence_fops K) M malloc false n (record r { device = d }))
          λ r'.
            (r'.device.used_buf ≡ 0)
            × ((i : ℕ) → i < n → IsClientRecord i (L.contents r'.storage.env i))
  recorded_lem d r n ring on instances values used idle room whole =
      Returns-map _ _
        (thread_rounds (write_persistence_fops K) M malloc false n (record r { device = d }))
        (persist_lem K M L malloc reliable works sized plenty (length r.recv) n
          (record r { device = d }) used
          (record {
            ring = ring;
            works = on;
            entries =
                All-map IsClientMessage (IsEntry (length r.recv)) (queued d)
                  (λ m ok. record {
                    fits = omega (arith, ok.len);
                    received = omega (arith, ok.len, room);
                  })
                  values;
            no_txn = idle;
            size = refl;
            whole = whole;
          }))
        λ r' kept. (
          kept.empty,
          λ i h. subst (IsClientRecord i) (sym (kept.stored i)) (
              record_within (queued d) kept.decoded 0 n i (L.contents r.storage.env i) kept.same
                instances values (omega arith) (omega arith)),
        )
