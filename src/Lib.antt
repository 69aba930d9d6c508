-- ===== src/Lib.antt =====
-- Verification of Kernel Paxos Persistence: a Linux module that queues Paxos values for a storage
-- process, and queries for it, in character devices, and the process, which keeps the values in
-- LMDB.
--
-- The program. The module registers four devices (persistence_main.c, kpaxos/kernel_device.c).
-- Clients write values to the write test device and instances to be looked up to the read test
-- device (kpaxos/write_test_device_operations.c, kpaxos/read_test_device_operations.c). These put
-- the messages into the rings of the write and of the read persistence device
-- (kpaxos/write_persistence_device_operations.c, kpaxos/read_persistence_device_operations.c). The
-- storage process (kpaxos/user_storage.c, kpaxos/lmdb_operations.c) has a thread for each of the
-- two: it polls and reads; values it stores, queries it answers by a write to the read persistence
-- device. The answer goes to the callback of the query's slot, on which a work of the pool
-- (kpaxos/workers_pool.c) waits.
--
-- Which file models what:
--
-- - Prelude (Tests, Lists, Int) has Boolean tests, lists and integers over the native numbers,
--   and the monad of partial results: `none` is undefined behaviour of the C code, or a failed
--   assertion.
-- - Memory (Laws, Fill, Slice, Append) has blocks of bytes, memcpy and memset with their bounds,
--   and little-endian words; Types has the layout of the structures of
--   paxos/include/paxos_types.h and kpaxos/include on a 64-bit target.
-- - Kernel is the interface of copy_to_user, copy_from_user, atomics and mutexes, with what is
--   documented of them; Device has struct paxos_kernel_device, struct kernel_device_callback and
--   clearPaxosAccepted (paxos/paxos.c). World is the account of the kernel's allocator and
--   threads.
-- - Ring (Window, Step, Delivery) reads msg_buf, first_buf, current_buf and used_buf as a queue,
--   with the invariant IsRing; Queue is the abstract queue.
-- - WritePersistence and ReadPersistence have a function for each file operation, and
--   write_persistence_add_message and read_persistence_add_message, with the source's names.
--   WritePersistence/Run has the requests and replies that are compared with the queue;
--   ReadPersistence/Steps the step relation.
-- - WorkersPool models kpaxos/workers_pool.c, ReadTest and WriteTest the test devices.
-- - Names and KernelDevice model allocate_name, allocate_name_folder and kdevchar_init of
--   kpaxos/kernel_device.c, KernelDevice/Account and Released the blocks of the buffers.
-- - Codec models buffer_to_paxos_accepted, paxos_accepted_to_buffer and client_value_to_buffer,
--   Lmdb the transactions, put and get of kpaxos/lmdb_operations.c over an interface of LMDB,
--   LmdbOpen lmdb_storage_init, lmdb_storage_open and lmdb_storage_close, and UserStorage
--   storage_get, storage_put and the threads of kpaxos/user_storage.c.
-- - System has generic_storage_thread (kpaxos/user_storage.c) with the device that it has open,
--   whose file operations its poll, read and write are: Steps, Round and Drain for the read
--   device, Entry, Store and History for the write device.
-- - KernelDevice/Exit has kdevchar_exit and persistence_device_destroy; PaxosValue the
--   destructors of paxos/paxos.c; PersistenceMain the module's init and exit
--   (persistence_main.c).
-- - TestClient has readProcess and writeProcess of testekerneldevice.c; its children Answered,
--   Recorded and Interleaved, and PersistenceMain/EndToEnd, put the module, the test program and
--   the storage process together.
-- - Sample has the concrete values of the modules named Tests.
-- State. The devices are static variables of the C code: a function takes the record and returns
-- the changed one. A callback is named by its index in callback_buf, a kernel object by the number
-- of the call that made it. `int` and `uint32_t` fields are numbers below 2^32 with their
-- wrap-around written out; a `size_t` sum is taken modulo 2^64.
--
-- Bounds. A ring has BUFFER_SIZE = 1000 slots of 240 bytes, a value at most MAX_PAXOS_VALUE_SIZE =
-- 200. All recursion is structural, so there is no fuel; the storage thread is run for a number of
-- turns, and the theorems say that as many turns as messages are queued are enough.
--
-- Parameters. The kernel's copies may fail at any call; which allocations and registrations
-- succeed, what a new block holds, and LMDB are parameters, constrained only by what their
-- documentation says.
--
-- Not modelled: the opening of the devices, options, signals and the creation of threads in the
-- storage process, and its heap's account: blocks are values there, and free is left out;
-- interleavings inside a file operation: TestClient/Interleaved has those of whole requests with
-- whole turns of the storage thread, ReadPersistence/Steps those of the read device's calls, and in
-- System and PersistenceMain each program runs after the other; the output, pauses and time of
-- testekerneldevice.c, and kpaxos/user_chardev.c, a program that echoes a fixed message; logging;
-- the messages of paxos/include/paxos_types.h that nothing uses; what CMake generated.
pub mod Prelude
pub mod Memory
pub mod Types
pub mod Kernel
pub mod Device
pub mod WritePersistence
pub mod Codec
pub mod Names
pub mod KernelDevice
pub mod Lmdb
pub mod LmdbOpen
pub mod UserStorage
pub mod System
pub mod TestClient
pub mod PersistenceMain
pub mod PaxosValue
pub mod World
pub mod WorkersPool
pub mod ReadTest
pub mod WriteTest
pub mod Queue
pub mod Sample
pub mod ReadPersistence
pub mod Ring
