-- ===== src/Kernel.antt =====
-- What the module takes from the Linux kernel, with what its documentation says of it. Nothing of
-- this is in the repository; every definition that uses it takes it as a parameter.
use kernel_paxos_persistence.Prelude.{
  ℕ, ◌+◌, ◌%◌, ◌≡◌, ◌-◌, Bool, true, false, length, take, u32_mod,
}
use kernel_paxos_persistence.Memory.{Bytes, overwrite, slice}

pub record Kernel : Type 0 where
  -- copy_to_user(&to[off], from, n): how many bytes could not be copied, and the user's memory after.
  pub copy_to_user : Bytes → ℕ → Bytes → ℕ → ℕ × Bytes
  pub copy_to_user_done :
      (to : Bytes) (off : ℕ) (from : Bytes) (n : ℕ)
      → (copy_to_user to off from n).0 ≡ 0
      → (copy_to_user to off from n).1 ≡ overwrite to off (take n from)
  pub copy_to_user_length :
      (to : Bytes) (off : ℕ) (from : Bytes) (n : ℕ)
      → length (copy_to_user to off from n).1 ≡ length to
  -- copy_from_user(to, &from[off], n): the same, for the kernel's block `to`.
  pub copy_from_user : Bytes → Bytes → ℕ → ℕ → ℕ × Bytes
  pub copy_from_user_done :
      (to from : Bytes) (off n : ℕ)
      → (copy_from_user to from off n).0 ≡ 0
      → (copy_from_user to from off n).1 ≡ overwrite to 0 (slice from off n)
  pub copy_from_user_length :
      (to from : Bytes) (off n : ℕ) → length (copy_from_user to from off n).1 ≡ length to
  -- atomic_inc and atomic_dec wrap around.
  pub atomic_inc : ℕ → ℕ
  pub atomic_inc_lem : (u : ℕ) → atomic_inc u ≡ (u + 1) % u32_mod
  pub atomic_dec : ℕ → ℕ
  pub atomic_dec_lem : (u : ℕ) → atomic_dec u ≡ (u + u32_mod - 1) % u32_mod
  -- A mutex is whether it is held. mutex_trylock does not wait: it returns 1 if it took the mutex.
  pub mutex_trylock : Bool → ℕ × Bool
  pub mutex_trylock_free : mutex_trylock false ≡ (1, true)
  pub mutex_trylock_held : mutex_trylock true ≡ (0, true)
  pub mutex_unlock : Bool → Bool
  pub mutex_unlock_lem : (m : Bool) → mutex_unlock m ≡ false
