-- ===== src/UserStorage/Loop.antt =====
-- The loop of the write thread over a history of messages from the device.
use kernel_paxos_persistence.Types.{sizeof_accepted, sizeof_client_value}
use kernel_paxos_persistence.Prelude.{
  [], List, ◌∷◌, suc, pos, ◌≡◌, none, length, Returns, All, false, Returns-inv, map, ◌+◌, arith,
  Returns-bind, ◌∙◌, ap, refl,
}
use kernel_paxos_persistence.Memory.{Bytes, word32, load32}
use kernel_paxos_persistence.UserStorage.History.{Sent, IsWorking, last_record, write_lem}
use kernel_paxos_persistence.Codec.{Accepted, Malloc, IsMalloc, ClientValue}
use kernel_paxos_persistence.Lmdb.{Lmdb, LmdbLaws, LmdbStorage}
use kernel_paxos_persistence.Codec.RoundTrip.{IsAccepted, IsPlenty, IsSame, of_buffer_lem}
use kernel_paxos_persistence.UserStorage.{
  Event, readable, handle_message, thread_loop, process_write_message,
}
use kernel_paxos_persistence.Prelude.{ℕ, List, pos, suc, ◌++◌}

-- A message as the write device leaves it in `recv`: a number, a structure, its value, and what was
-- there before.
pub record Incoming : Type 0 where
  pub id : ℕ
  pub acc : Accepted
  pub value : Bytes
  pub rest : Bytes
  pub read_result : ℕ

abbrev pub arrives : Incoming → Event
arrives x = readable (pos (suc x.read_result)) (word32 x.id ++ (x.acc.image ++ (x.value ++ x.rest)))

abbrev pub IsIncoming : Incoming → Type 0
IsIncoming x = IsAccepted x.acc x.value

-- What was decoded, message for message.
unfoldable pub IsDecoded : List Incoming → List Sent → Type 0
IsDecoded [] [] = Unit
IsDecoded [] (y ∷ ys) = ⊥
IsDecoded (x ∷ xs) [] = ⊥
IsDecoded (x ∷ xs) (y ∷ ys) = (IsSame x.acc y.0.value x.value × (y.1 ≡ x.value)) × IsDecoded xs ys

module _ (M : Lmdb) (L : LmdbLaws M) (works : IsWorking M) (malloc : Malloc)
    (sized : IsMalloc malloc) (plenty : IsPlenty malloc) where
  -- One message.
  pub handle_lem :
      (s : LmdbStorage M) (accepted : Accepted) (x : Incoming)
      → s.txn ≡ none
      → length accepted.image ≡ sizeof_accepted
      → IsIncoming x
      → Returns
          (handle_message M malloc s false
            (word32 x.id ++ (x.acc.image ++ (x.value ++ x.rest)))
            accepted)
          λ (w, db, acc').
            (w ≡ none)
            × IsSame x.acc acc' x.value
            × ((i : ℕ)
                → L.contents db i
                  ≡ last_record
                      ((record { buffer_id = 0; value = acc' }, x.value) ∷ [])
                      i
                      (L.contents s.env i))
  unfolding handle_message last_record
  handle_lem s accepted x idle whole ok =
      let (acc', decoded, same) =
        Returns-inv (λ a. IsSame x.acc a x.value) _
          (of_buffer_lem x.acc x.value ok malloc accepted x.rest sized plenty whole) in
      let (block, e) = plenty sizeof_client_value in
      let message : ClientValue = record {
        buffer_id = load32 (word32 x.id ++ (x.acc.image ++ (x.value ++ x.rest))) 0;
        value = acc';
      } in
      let (db, db_eq, after) =
        Returns-inv _ (process_write_message M malloc s message)
          (write_lem M L works malloc sized plenty s (message, x.value) idle same.kept) in
      rw (decoded, e, db_eq) (refl, same, after)

  -- With no transaction open, malloc that has memory and LMDB whose calls succeed, the loop of the
  -- write device's thread, over a history of messages that each hold a number, a whole structure
  -- and its value, returns, writes nothing back and counts every message; the messages were
  -- decoded, one for one, to structures with the same fields and values, and the table has under
  -- each instance the structure and the value of the last of them with that instance, or what it
  -- had before.
  pub thread_loop_lem :
      (xs : List Incoming) (s : LmdbStorage M) (accepted : Accepted) (n : ℕ)
      → s.txn ≡ none
      → length accepted.image ≡ sizeof_accepted
      → All IsIncoming xs
      → Returns (thread_loop M malloc s false accepted n (map arrives xs)) λ (ws, db, n').
        (ws ≡ [])
        × (n' ≡ n + length xs)
        × ((ys : List Sent) × IsDecoded xs ys
            × ((i : ℕ) → L.contents db i ≡ last_record ys i (L.contents s.env i)))
  unfolding thread_loop last_record IsDecoded
  thread_loop_lem [] s accepted n idle whole ok = (refl, omega arith, ([], tt, λ i. refl))
  thread_loop_lem (x ∷ xs) s accepted n idle whole ok =
      let ((w, db, acc'), e, (w_eq, same, after)) =
        Returns-inv _
          (handle_message M malloc s false (word32 x.id ++ (x.acc.image ++ (x.value ++ x.rest)))
            accepted)
          (handle_lem s accepted x idle whole ok.0) in
      rw e (
        Returns-bind _ _
          (thread_loop M malloc (record s { env = db }) false acc' (n + 1) (map arrives xs)) _
          (thread_loop_lem xs (record s { env = db }) acc' (n + 1) idle same.kept.whole ok.1)
          λ (ws, db', n') (ws_eq, n_eq, (ys, decoded, history)). rw w_eq (
            ws_eq,
            omega arith,
            (
              (record { buffer_id = 0; value = acc' }, x.value) ∷ ys,
              ((same, refl), decoded),
              λ i. history i ∙ ap (last_record ys i) (after i),
            ),
          ))
