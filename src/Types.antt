-- ===== src/Types.antt =====
-- The layout of the C structures that the modules exchange, on the 64-bit target of the Makefile:
-- paxos/include/paxos_types.h, paxos/include/common.h, kpaxos/include/kernel_client.h and
-- kpaxos/include/kernel_device.h. A structure is the block of its bytes; a field is a load at its
-- offset.
use kernel_paxos_persistence.Prelude.{ℕ, ◌+◌, ◌%◌, u64_mod, sign_extend}
use kernel_paxos_persistence.Memory.{Bytes, load32, store32}

-- MAX_PAXOS_VALUE_SIZE and BUFFER_SIZE
abbrev pub max_paxos_value_size : ℕ
max_paxos_value_size = 200

abbrev pub buffer_size : ℕ
buffer_size = 1000

-- sizeof(int), sizeof(paxos_accepted) and sizeof(client_value)
abbrev pub sizeof_int : ℕ
sizeof_int = 4

abbrev pub sizeof_accepted : ℕ
sizeof_accepted = 40

abbrev pub sizeof_client_value : ℕ
sizeof_client_value = 16

-- struct kernel_device_callback (paxos/include/paxos.h): a wait queue of 24 bytes, the pointer to the
-- response, and three words.
abbrev pub sizeof_callback : ℕ
sizeof_callback = 48

abbrev pub callback_id_offset : ℕ
callback_id_offset = 32

abbrev pub callback_iid_offset : ℕ
callback_iid_offset = 40

-- A slot of a device's `msg_buf`: the structure, and behind it the bytes of its value.
abbrev pub slot_size : ℕ
slot_size = sizeof_accepted + max_paxos_value_size

-- The fields of `struct paxos_accepted`. The value's length stands behind four bytes of padding, and
-- behind it and four more the pointer to the value.
abbrev pub aid_offset : ℕ
aid_offset = 0

abbrev pub iid_offset : ℕ
iid_offset = 4

abbrev pub promise_iid_offset : ℕ
promise_iid_offset = 8

abbrev pub ballot_offset : ℕ
ballot_offset = 12

abbrev pub value_ballot_offset : ℕ
value_ballot_offset = 16

abbrev pub value_len_offset : ℕ
value_len_offset = 24

abbrev pub value_val_offset : ℕ
value_val_offset = 32

abbrev pub accepted_iid : Bytes → ℕ
accepted_iid acc = load32 acc iid_offset

-- `value.paxos_value_len`, an `int` kept as its bit pattern
abbrev pub value_len : Bytes → ℕ
value_len acc = load32 acc value_len_offset

abbrev pub set_value_len : Bytes → ℕ → Bytes
set_value_len acc len = store32 acc value_len_offset len

-- sizeof(paxos_accepted) + acc->value.paxos_value_len, as a `size_t`
abbrev pub message_size : Bytes → ℕ
message_size acc = (sizeof_accepted + sign_extend (value_len acc)) % u64_mod
