-- ===== src/UserStorage/Deliver.antt =====
-- A request for an instance, from the storage process to the callback in the read device.
use kernel_paxos_persistence.UserStorage.Answer.{read_message_found}
use kernel_paxos_persistence.ReadPersistence.Complete.{woken, answer_completes}
use kernel_paxos_persistence.Ring.Delivery.{head_slot}
use kernel_paxos_persistence.ReadPersistence.{read_persistence_write}
use kernel_paxos_persistence.UserStorage.{process_read_message}
use kernel_paxos_persistence.Ring.{IsRing, queued}
use kernel_paxos_persistence.ReadPersistence.Answer.{IsReadable}
use kernel_paxos_persistence.Types.{max_paxos_value_size, accepted_iid, buffer_size, value_len}
use kernel_paxos_persistence.Prelude.{
  ◌≡◌, none, length, ◌≤◌, some, ◌++◌, ◌≢◌, ◌<◌, get_elem?, Returns, to_ssize, ◌∷◌, replicate, ◌-◌,
  Returns-map, ◌∙◌, ap₂,
}
use kernel_paxos_persistence.Codec.RoundTrip.{IsPlenty, IsAccepted}
use kernel_paxos_persistence.Device.{Device, Callback, Response}
use kernel_paxos_persistence.Kernel.{Kernel}
use kernel_paxos_persistence.Memory.{Bytes}
use kernel_paxos_persistence.Codec.{Malloc, ClientValue, Accepted, IsMalloc}
use kernel_paxos_persistence.Lmdb.{Lmdb, LmdbLaws, LmdbStorage}

-- When no transaction is open, the table holds an accepted value of at most 200 bytes under its
-- instance, a transaction can be opened, malloc has memory, and copies from a user buffer that is
-- there succeed, then process_read_message, for a request of that instance and of a slot below 1000
-- whose device works, has a well-formed ring and a queued request, returns and has written a
-- buffer; and read_persistence_write of that buffer returns the count, keeps the ring well formed,
-- takes the oldest request from the queue, and leaves in the slot's callback a response with the
-- instance, the length and the value, padded with zeros to 200 bytes. The waiter is woken unless
-- the callback is done.
pub stored_is_delivered :
    (M : Lmdb) (L : LmdbLaws M) (malloc : Malloc) (s : LmdbStorage M) (message : ClientValue)
    (acc : Accepted) (value : Bytes) (K : Kernel) (d : Device) (c : Callback)
    → IsMalloc malloc
    → IsPlenty malloc
    → s.txn ≡ none
    → IsAccepted acc value
    → length value ≤ max_paxos_value_size
    → (M.mdb_txn_begin s.env).0 ≡ 0
    → accepted_iid message.value.image ≡ accepted_iid acc.image
    → L.contents s.env (accepted_iid acc.image) ≡ some (acc.image ++ value)
    → IsReadable K
    → IsRing d
    → d.working ≢ 0
    → d.used_buf ≢ 0
    → message.buffer_id < buffer_size
    → get_elem? d.callback_buf message.buffer_id ≡ some c
    → Returns (process_read_message M malloc s message) λ (w, db).
      (buffer : Bytes) × (w.buffer ≡ some buffer)
      × Returns (read_persistence_write K d buffer w.count) λ (r, d').
        (r ≡ to_ssize w.count)
        × IsRing d'
        × (queued d ≡ head_slot d ∷ queued d')
        × ((response : Response) × (get_elem? d'.callback_buf message.buffer_id
              ≡ some (woken (record c { response = some response })))
            × (accepted_iid response.header ≡ accepted_iid acc.image)
            × (value_len response.header ≡ length value)
            × (response.value ≡ value ++ replicate (max_paxos_value_size - length value) 0))
stored_is_delivered M L malloc s message acc value K d c sized plenty idle ok fits begun same_iid
      there reads ring works nonempty named c_eq =
    Returns-map _ _ (process_read_message M malloc s message)
      (read_message_found M L malloc sized plenty s idle message named acc value ok fits begun
        same_iid there)
      λ (w, db) (reply, kept). (
        reply.buffer,
        reply.there,
        Returns-map _ _ (read_persistence_write K d reply.buffer w.count)
            (answer_completes K reads d reply.buffer w.count c ring works reply.answers
              (rw reply.to_slot c_eq) nonempty)
            λ (r, d') (r_eq, ring', q', (response, answered, at_id), others). (
              r_eq,
              ring',
              q',
              (
                response,
                rw (← reply.to_slot) at_id,
                answered.iid_sent ∙ reply.of_instance,
                answered.len_sent ∙ reply.with_len,
                answered.value_sent
                    ∙ ap₂ (λ v n. v ++ replicate (max_paxos_value_size - n) 0) reply.with_value
                        reply.with_len,
              ),
            ),
      )
