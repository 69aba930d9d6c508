-- ===== src/WritePersistence/Fifo.antt =====
-- The write device and the abstract queue.
use native.Mathlib.Decide.{dec_lt}
use kernel_paxos_persistence.Memory.Laws.{length-overwrite, overwrite-split}
use kernel_paxos_persistence.WritePersistence.Save.{stored, message_size-stored}
use kernel_paxos_persistence.WritePersistence.Add.{add_message_full, add_message_room, truncated-le}
use kernel_paxos_persistence.Ring.Window.{length-window, window_of_pos}
use kernel_paxos_persistence.WritePersistence.{
  write_persistence_poll, truncated, write_persistence_add_message, write_persistence_read,
}
use kernel_paxos_persistence.Memory.{Bytes, overwrite, word32}
use kernel_paxos_persistence.Types.{sizeof_int, slot_size, buffer_size, message_size}
use kernel_paxos_persistence.Queue.{Queue}
use kernel_paxos_persistence.Ring.{IsRing, queued, window}
use kernel_paxos_persistence.Kernel.{Kernel}
use kernel_paxos_persistence.Device.{Device, poll_wait}
use kernel_paxos_persistence.WritePersistence.Take.{read_takes}
use kernel_paxos_persistence.Ring.Delivery.{delivered, head_slot, id_copy, head_length}
use kernel_paxos_persistence.Prelude.{
  length, ◌≡◌, ◌∷◌, ℕ, Returns, ◌+◌, is_positive, ◌<◌, ◌≢◌, length-replicate, false, true, ◌==◌,
  arith, ◌≤◌, Returns-bind, sym, ◌∙◌, subst, All, pos, All-append, take, [], ap, drop, length-take,
  drop-append, ◌++◌, take-append, refl,
}
use kernel_paxos_persistence.Queue
use kernel_paxos_persistence.WritePersistence.Run.{
  Request, add, poll_and_read, Reply, message, serve, reader_buffer, IsServing, serve_queue,
  IsReliable, received, IsProper,
}

reader_length : length reader_buffer ≡ sizeof_int + slot_size
reader_length = length-replicate {A = ℕ} (sizeof_int + slot_size) 0

-- What the reader takes is the message.
received_lem :
    (first : ℕ) (m : Bytes)
    → length m ≡ slot_size
    → message_size m ≤ slot_size
    → received (pos (message_size m)) (delivered reader_buffer first m)
      ≡ message (take (message_size m) m)
unfolding delivered
received_lem first m h fits =
    ap (λ t. message (take n (drop sizeof_int t)))
      (overwrite-split marked sizeof_int (take n m) (sizeof_int + n)
        (omega (arith, length-take n m)) (omega (arith, marked_length)))
    ∙ ap (λ t. message (take n t))
        (drop-append sizeof_int (take sizeof_int marked) (take n m ++ drop (sizeof_int + n) marked)
          (omega (arith, length-take sizeof_int marked, marked_length)))
    ∙ ap message
        (take-append n (take n m) (drop (sizeof_int + n) marked) (omega (arith, length-take n m)))
  where
    n : ℕ
    n = message_size m

    marked : Bytes
    marked = overwrite reader_buffer 0 (word32 first)

    marked_length : length marked ≡ sizeof_int + slot_size
    marked_length = length-overwrite reader_buffer 0 (word32 first) ∙ reader_length

-- A poll changes the wait queue only.
polled : Device → Device
polled d = record d { access_wait = poll_wait ∷ d.access_wait }

polled-IsRing : (d : Device) → IsRing d → IsRing (polled d)
unfolding polled
polled-IsRing d ring = record {
  slots = ring.slots;
  slot_sizes = ring.slot_sizes;
  callbacks = ring.callbacks;
  responses = ring.responses;
  first_in = ring.first_in;
  used_in = ring.used_in;
  current_at = ring.current_at;
}

polled-IsServing : (d : Device) → IsServing d → IsServing (polled d)
unfolding polled
polled-IsServing d s = record {
  ring = unfold polled in polled-IsRing d s.ring;
  works = s.works;
  fit = s.fit;
}

module _ (K : Kernel) (d : Device) (serving : IsServing d) where
  open serving use {ring, works, fit}

  IsServed : Request → Reply × Device → Type 0
  IsServed q s =
      IsServing s.1 × (◌≡◌ {A = Reply × Queue} (s.0, queued s.1) (serve_queue (queued d) q))

  serve_add_full :
      (msg : Bytes) (size : ℕ)
      → d.used_buf ≡ buffer_size
      → Returns (serve K d (add msg size)) (IsServed (add msg size))
  unfolding serve serve_queue Queue.push IsServed
  serve_add_full msg size full =
      let isfull : (length (queued d) == buffer_size) ≡ true =
        ground (arith, length-window d.msg_buf d.first_buf d.used_buf) in
      rw (add_message_full K d msg size ring full, isfull) (serving, refl)

  serve_add_room :
      (msg : Bytes) (size : ℕ)
      → d.used_buf < buffer_size
      → truncated size ≤ length msg
      → Returns (serve K d (add msg size)) (IsServed (add msg size))
  unfolding serve serve_queue Queue.push IsServed
  serve_add_room msg size room there =
      let notfull : (length (queued d) == buffer_size) ≡ false =
        ground (arith, length-window d.msg_buf d.first_buf d.used_buf) in
      let m = stored msg (truncated size) in
      Returns-bind _ _ (write_persistence_add_message K d msg size) _
        (add_message_room K d msg size ring room there)
        λ (r, d') (r_eq, ring', w', q'). (
          record {
            ring = ring';
            works = λ e. works (sym w' ∙ e);
            fit = subst (All (λ m. message_size m ≤ slot_size)) (sym q') (
                All-append _ (queued d) (m ∷ []) fit (
                  omega (
                    arith,
                    message_size-stored msg (truncated size) (truncated-le size) there,
                    truncated-le size,
                  ),
                  tt,
                ));
          },
          rw (r_eq, q', notfull),
        )

  serve_read_empty : d.used_buf ≡ 0 → Returns (serve K d poll_and_read) (IsServed poll_and_read)
  unfolding serve serve_queue IsServed write_persistence_poll polled
  serve_read_empty empty =
      let off : is_positive d.used_buf ≡ false = ground arith in
      let none_queued : queued d ≡ [] = ap (window d.msg_buf d.first_buf) empty in
      rw (off, none_queued) (unfold polled in polled-IsServing d serving, refl)

  serve_read_some :
      IsReliable K → d.used_buf ≢ 0 → Returns (serve K d poll_and_read) (IsServed poll_and_read)
  unfolding serve serve_queue IsServed write_persistence_poll polled
  serve_read_some reliable nonempty =
      let on : is_positive d.used_buf ≡ true = ground arith in
      let d₁ = polled d in
      let m = head_slot d in
      let (m_fits, _) =
        subst (All (λ m. message_size m ≤ slot_size))
          (window_of_pos d.msg_buf d.first_buf d.used_buf nonempty) fit in
      rw on (
        Returns-bind _ _ (write_persistence_read K d₁ reader_buffer 0) _
          (read_takes K d₁ reader_buffer 0 (polled-IsRing d ring) works m_fits nonempty
            (reliable reader_buffer 0 (word32 d.first_buf) sizeof_int
              (omega (arith, reader_length)))
            (reliable (id_copy K d₁ reader_buffer).1 sizeof_int m (message_size m) (
              omega (
                arith,
                reader_length,
                K.copy_to_user_length reader_buffer 0 (word32 d.first_buf) sizeof_int,
              ))))
          λ (r, b, d') (r_eq, b_eq, ring', w', q'). (
            record {
              ring = ring';
              works = λ e. works (sym w' ∙ e);
              fit = (subst (All (λ m. message_size m ≤ slot_size)) q' fit).1;
            },
            rw (q', r_eq, b_eq, received_lem d.first_buf m (head_length d ring) m_fits),
          ))

-- When copies to a buffer that is there succeed, a working write device with a well-formed ring
-- whose messages fit into a slot serves an addition (of a message that has the bytes that are
-- copied) or a read after a poll: it returns, the device is again such a device, and the reply and
-- the queued messages are those of the abstract queue.
pub serve_refines :
    (K : Kernel) (d : Device) (q : Request)
    → IsReliable K
    → IsServing d
    → IsProper q
    → Returns (serve K d q) λ (reply, d').
      IsServing d' × (◌≡◌ {A = Reply × Queue} (reply, queued d') (serve_queue (queued d) q))
unfolding IsServed
serve_refines K d (add msg size) reliable serving proper = elim (dec_lt d.used_buf buffer_size) [
  | yes room ↦ serve_add_room K d serving msg size room proper
  | no full ↦ serve_add_full K d serving msg size (omega (arith, serving.ring.used_in))
]
serve_refines K d poll_and_read reliable serving proper = elim (dec_lt 0 d.used_buf) [
  | yes some_used ↦ serve_read_some K d serving reliable (omega arith)
  | no empty ↦ serve_read_empty K d serving (omega arith)
]
