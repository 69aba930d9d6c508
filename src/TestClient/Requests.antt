-- ===== src/TestClient/Requests.antt =====
-- readProcess of testekerneldevice.c on the read test device.

use kernel_paxos_persistence.ReadPersistence.Save.{requested}
use kernel_paxos_persistence.Memory.Laws.{length-store32, load32-store32_ne, load32-store32}
use kernel_paxos_persistence.System.Received.{IsRequest}
use kernel_paxos_persistence.Memory.Fill.{memset_all, load32-front}
use kernel_paxos_persistence.WorkersPool.RoundRobin.{IsPool}
use kernel_paxos_persistence.WorkersPool.{WorkersPool}
use kernel_paxos_persistence.Device.{FileOperations}
use kernel_paxos_persistence.Codec.RoundTrip.{
  IsPlenty, IsAccepted, to_buffer_lem, accepted_size_lem,
}
use kernel_paxos_persistence.Types.{
  sizeof_accepted, value_len_offset, buffer_size, accepted_iid, iid_offset, value_len,
}
use kernel_paxos_persistence.Ring.{IsRing, queued}
use kernel_paxos_persistence.Memory.{load32, Bytes}
use kernel_paxos_persistence.ReadTest.{ReadTest}
use kernel_paxos_persistence.Codec.{Malloc, IsMalloc, fill_accepted, append_value, Accepted}
use kernel_paxos_persistence.Prelude.{
  ℕ, List, replicate, [], ◌≢◌, suc, ◌+◌, ◌∷◌, ◌≤◌, ◌≡◌, ◌<◌, ◌++◌, ◌^◌, zero, refl, map, Returns,
  some, length, All, inr, arith, ◌∙◌, inl, Option, pos, ◌>>=◌, ap, ℤ,
}
use kernel_paxos_persistence.TestClient.{
  paxos_accepted_to_buffer, fill, new_request, write_accepted, while_open,
}
use mathlib.Core.List.{append-nil}
use native.Mathlib.Nat.{mod-eq_of_lt}
use kernel_paxos_persistence.Codec

-- `k` numbers from `i` on.
unfoldable pub count_from : ℕ → ℕ → List ℕ
count_from i zero = []
count_from i (suc k) = i ∷ count_from (i + 1) k

pub length-count_from : (i k : ℕ) → length (count_from i k) ≡ k
unfolding count_from
length-count_from i zero = refl
length-count_from i (suc k) = ap suc (length-count_from (i + 1) k)

-- A read test device that can take `n` requests more.
pub record HasRoom (s : ReadTest) (n : ℕ) : Type 0 where
  pub ring : IsRing s.persistence
  pub works : s.device.working ≢ 0
  pub room : s.persistence.used_buf + n ≤ buffer_size
  pub pool : WorkersPool
  pub pool_is : s.pool ≡ some pool
  pub workers : List ℕ
  pub has_workers : IsPool pool workers

-- From `s` to `s'`, requests for the `k` instances from `i` on are added.
pub record IsAsked (s s' : ReadTest) (i k : ℕ) : Type 0 where
  pub ring : IsRing s'.persistence
  pub requests : List Bytes
  pub queue : queued s'.persistence ≡ queued s.persistence ++ requests
  pub instances : map accepted_iid requests ≡ count_from i k
  pub no_values : All IsRequest requests
  pub received : s'.messages_received ≡ s.messages_received + k
  pub used : s'.persistence.used_buf ≡ s.persistence.used_buf + k
  pub first : s'.persistence.first_buf ≡ s.persistence.first_buf
  pub persists : s'.persistence.working ≡ s.persistence.working

zero_len : load32 (replicate sizeof_accepted 0) value_len_offset ≡ 0
unfolding load32
zero_len = refl

module _ (malloc : Malloc) (sized : IsMalloc malloc) (plenty : IsPlenty malloc) where
  pub new_request_lem :
      (i : ℕ)
      → i < 2 ^ 32
      → Returns (new_request malloc i) λ acc. IsAccepted acc [] × (accepted_iid acc.image ≡ i)
  unfolding new_request
  new_request_lem i small =
      let (b, e) = plenty sizeof_accepted in
      let zeros : Bytes = replicate sizeof_accepted 0 in
      rw (e, memset_all b.bytes sizeof_accepted (sized sizeof_accepted b e).0)
        (
          record {
            whole = length-store32 zeros iid_offset i;
            len_is =
                load32-store32_ne zeros iid_offset i value_len_offset (inr (omega arith))
                ∙ zero_len;
            small = omega arith;
            there = inl refl;
          },
          load32-store32 zeros iid_offset i (omega arith) ∙ mod-eq_of_lt small,
        )

  -- The copy is the one of the storage process.
  same_copy :
      (acc : Accepted)
      → paxos_accepted_to_buffer malloc acc ≡ Codec.paxos_accepted_to_buffer malloc acc
  unfolding paxos_accepted_to_buffer Codec.paxos_accepted_to_buffer fill fill_accepted append_value
  same_copy acc = refl

  pub write_accepted_lem :
      {S : Type 0} (fops : FileOperations S) (s : S) (acc : Accepted) (value : Bytes)
      → IsAccepted acc value
      → write_accepted fops malloc s acc
        ≡ fops.on_write s (acc.image ++ value) (sizeof_accepted + length value)
  unfolding write_accepted
  write_accepted_lem fops s acc value ok =
      rw
        (
          same_copy acc,
          to_buffer_lem acc value ok malloc sized plenty,
          accepted_size_lem acc value ok,
        )
        refl

  -- What the device makes of a request.
  pub request_lem :
      (slot image : Bytes) (i : ℕ)
      → length image ≡ sizeof_accepted
      → value_len image ≡ 0
      → accepted_iid image ≡ i
      → IsRequest (requested slot (image ++ []) 40)
        × (accepted_iid (requested slot (image ++ []) 40) ≡ i)
  unfolding requested
  request_lem slot image i whole empty iid_eq = rw (append-nil image) (
    load32-front image _ sizeof_accepted value_len_offset (omega arith) (omega arith) ∙ empty,
    load32-front image _ sizeof_accepted iid_offset (omega arith) (omega arith) ∙ iid_eq,
  )

  pub while_open_lem :
      {S : Type 0} (fops : FileOperations S) (body : S → Option S) (s opened : S) (n : ℕ)
      → fops.on_open s ≡ (pos n, opened)
      → while_open fops malloc body s ≡ (body opened >>= λ s'. some (fops.on_release s').1)
  unfolding while_open
  while_open_lem {S = S} fops body s opened n e =
      rw (while_open, e) (ap (λ (p : ℤ × S). body p.1 >>= λ s'. some (fops.on_release s').1) e)
