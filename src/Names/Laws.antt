-- ===== src/Names/Laws.antt =====
-- allocate_name and allocate_name_folder.
use kernel_paxos_persistence.Memory.Fill.{memcpy_mid, memcpy_front}
use kernel_paxos_persistence.Codec.RoundTrip.{IsPlenty}
use kernel_paxos_persistence.Prelude.{
  ℕ, length, ◌≡◌, set, ◌++◌, ◌+◌, ◌∷◌, suc, some, [], arith, ap, drop, ◌%◌, ◌>>=◌, refl, ltb, sym,
  length-drop, ◌-◌, zero, true, ◌∙◌, length-append,
}
use kernel_paxos_persistence.Codec.{Malloc, IsMalloc}
use kernel_paxos_persistence.Names.{
  put_char, allocate_name, allocate_name_folder, strcat, digit_zero, strlen, folder, slash,
}
use kernel_paxos_persistence.Memory.{Bytes, memcpy}
use mathlib.Core.List.{append_assoc}

set-append :
    (front rest : Bytes) (x i c : ℕ)
    → i ≡ length front
    → set (front ++ (x ∷ rest)) i c ≡ front ++ (c ∷ rest)
set-append [] rest x zero c h = refl
set-append [] rest x (suc i) c h = absurd (omega arith)
set-append (y ∷ front) rest x zero c h = absurd (omega arith)
set-append (y ∷ front) rest x (suc i) c h =
    ap (λ t. y ∷ t) (set-append front rest x i c (omega arith))

put_char-append :
    (front rest : Bytes) (x i c : ℕ)
    → i ≡ length front
    → put_char (front ++ (x ∷ rest)) i c ≡ some (front ++ ((c % 256) ∷ rest))
unfolding put_char
put_char-append front rest x i c h =
    let inside : ltb i (length (front ++ (x ∷ rest))) ≡ true =
      ground (arith, length-append front (x ∷ rest)) in
    rw inside (ap some (set-append front rest x i (c % 256) h))

-- The last two characters.
finish_name :
    (front : Bytes) (y i j c : ℕ)
    → i ≡ length front
    → j ≡ length front + 1
    → (put_char (front ++ (0 ∷ y ∷ [])) i c >>= λ d. put_char d j 0)
      ≡ some (front ++ ((c % 256) ∷ 0 ∷ []))
finish_name front y i j c hi hj = rw (put_char-append front (y ∷ []) 0 i c hi) (
    ap (λ t. put_char t j 0) (sym (append_assoc front ((c % 256) ∷ []) (y ∷ [])))
    ∙ put_char-append (front ++ ((c % 256) ∷ [])) [] y j 0
        (omega (arith, length-append front ((c % 256) ∷ [])))
    ∙ ap some (append_assoc front ((c % 256) ∷ []) (0 ∷ [])))

one_byte : (b : Bytes) → length b ≡ 1 → (y : ℕ) × (b ≡ y ∷ [])
one_byte [] h = absurd (omega arith)
one_byte (y ∷ []) h = (y, refl)
one_byte (y ∷ z ∷ b) h = absurd (omega arith)

-- A name with its NUL, over a block of which one byte is left.
name_over :
    (front dst name : Bytes) (off n : ℕ)
    → length front ≡ off
    → n ≡ length name + 1
    → length dst ≡ n + 1
    → (y : ℕ) × (memcpy (front ++ dst) off (name ++ (0 ∷ [])) n
        ≡ some ((front ++ name) ++ (0 ∷ y ∷ [])))
name_over front dst name off n hf hn hd =
    let (y, y_eq) = one_byte (drop n dst) (omega (arith, length-drop n dst)) in
    (
      y,
      memcpy_mid front dst (name ++ (0 ∷ [])) off n hf (omega arith)
            (omega (arith, length-append name (0 ∷ [])))
          ∙ ap (λ t. some (front ++ ((name ++ (0 ∷ [])) ++ t))) y_eq
          ∙ ap (λ t. some (front ++ t)) (append_assoc name (0 ∷ []) (y ∷ []))
          ∙ ap some (sym (append_assoc front name (0 ∷ y ∷ []))),
    )

two_more :
    (b : Bytes) (n : ℕ)
    → length b ≡ n + 2
    → (x : ℕ) × (y : ℕ) × (rest : Bytes) × (b ≡ x ∷ y ∷ rest) × (length rest ≡ n)
two_more [] n h = absurd (omega arith)
two_more (x ∷ []) n h = absurd (omega arith)
two_more (x ∷ y ∷ rest) n h = (x, y, rest, refl, omega arith)

module _ (pmalloc : Malloc) (sized : IsMalloc pmalloc) (plenty : IsPlenty pmalloc) (name : Bytes)
    (id : ℕ) where
  -- The name of the class is the name with the digit of the device.
  pub allocate_name_lem :
      allocate_name pmalloc name id ≡ some (name ++ (((id + digit_zero) % 256) ∷ 0 ∷ []))
  unfolding allocate_name
  allocate_name_lem =
      let (dest, e) = plenty (length name + 1 + 1) in
      let (dest_len, _) = sized (length name + 1 + 1) dest e in
      let (y, copied) = name_over [] dest.bytes name 0 (length name + 1) refl refl dest_len in
      rw (e, copied)
        (finish_name name y (length name + 1 - 1) (length name + 1) (id + digit_zero) (omega arith)
          refl)

  -- When pmalloc has memory, allocate_name_folder writes only inside its block and gives "paxos/",
  -- the name, the character of the device's number and a NUL.
  pub allocate_name_folder_lem :
      allocate_name_folder pmalloc name id
      ≡ some (folder ++ (slash ∷ (name ++ (((id + digit_zero) % 256) ∷ 0 ∷ []))))
  unfolding allocate_name_folder strcat strlen
  allocate_name_folder_lem =
      let n = length name in
      let (dest, e) = plenty (5 + n + 3) in
      let (dest_len, _) = sized (5 + n + 3) dest e in
      let (x, x', rest, tail_eq, rest_len) =
        two_more (drop 5 dest.bytes) (n + 1) (omega (arith, length-drop 5 dest.bytes)) in
      let (y, copied) =
        name_over (folder ++ (slash ∷ [])) (0 ∷ rest) name 6 (n + 1) refl refl (omega arith) in
      rw
        (
          e,
          memcpy_front dest.bytes folder 5 (omega arith) (omega arith),
          tail_eq,
          put_char-append folder (x' ∷ rest) x 5 slash refl,
          put_char-append (folder ++ (slash ∷ [])) rest x' 6 0 refl,
        )
        (rw copied (
          finish_name (folder ++ (slash ∷ name)) y (5 + n + 1) (5 + n + 2) (id + digit_zero)
            (omega arith) (omega arith)))
