-- ===== src/Lib.antt =====
-- The Fast Message Queue: a queue of fixed-size messages in shared memory, between one writer and
-- one or more readers, with an event flag to wait for each other.
--
-- The parts and their modules:
-- * Queue models the ring of include/fmq/MessageQueueBase.h on a queue that is mapped: `beginWrite`,
--   `commitWrite`, `write`, `beginRead`, `commitRead`, `read` and the counts. Its state is the flavor,
--   the size in bytes, `sizeof(T)`, the bytes of the ring and the two counters. Messages are their
--   bytes. Queue.Inv has the invariant and the bytes that a queue holds, Queue.Write and Queue.Read
--   what the operations do to them, Queue.Copy and Queue.Contiguous the regions of a transaction as
--   one stretch of the ring, Queue.Bounds where the regions lie, Queue.Refine the queue as a FIFO, and
--   Queue.Overrun a reader of the unsynchronized flavor whom the writer overtakes by the calls of
--   Queue.Calls.
-- * Concurrent runs one writer and one reader of a synchronized queue in any interleaving of the calls
--   of Queue with the single bytes of the messages. Concurrent.Inv is what holds in every state,
--   Concurrent.Begin, Concurrent.Writes and Concurrent.Reads are about the steps, Concurrent.Order
--   about what both sides can rely on, and Concurrent.Drain about the reader's progress.
-- * Broadcast runs one writer and any number of readers of an unsynchronized queue with the same moves.
--   Broadcast.Inv is what holds in every state, Broadcast.Places is about where the bytes lie,
--   Broadcast.Writes and Broadcast.Further about the writer's steps, Broadcast.Listens about a
--   reader's, Broadcast.Sound about a reader that commits, and Broadcast.Torn about one that the
--   writer stores over.
-- * Transaction models `MemRegion` and `MemTransaction` of the same file (`getSlot`,
--   `getMemRegionInfo`, `copyTo`, `copyFrom`), on the byte memory of Memory.
-- * Descriptor models base/fmq/MQDescriptorBase.h (grantors and `alignToWordBoundary`), and Flavor its
--   `MQFlavor`.
-- * Shim models `AidlMQDescriptorShim` of include/fmq/AidlMQDescriptorShim.h: the descriptor of a new
--   queue and its layout in shared memory (Shim.Layout).
-- * Mapping models how a queue gets at its memory: `mapGrantorDescr`, `unmapGrantorDescr`,
--   `initMemory`, the constructor from a descriptor and the destructor. Mapping.Grantor is about one
--   grantor, Mapping.Init and Mapping.Valid about the constructor, Mapping.Release about the
--   destructor, and Mapping.View about the queue that the operations find through its pointers.
-- * Create models the constructor of a new queue. Create.Region has the size of its shared memory, and
--   Create.Start what the ring operations find in a new queue.
-- * EventFlag models EventFlag.cpp: `wake`, `waitHelper` and `wait` on the futex word, the deadline of
--   a wait, and the life of an `EventFlag` object.
-- * Blocking models `writeBlocking` and `readBlocking`, loops over Queue's operations and EventFlag's
--   `wait`; Blocking.Loop has what both share, and Blocking.Ready the two.
-- * EventFlag.Threads runs any number of threads in `wake` and `wait` on one word, and
--   EventFlag.LostWake is about those that sleep.
-- * Handshake runs `writeBlocking` in one thread and `readBlocking` in another, in any interleaving: an
--   attempt to write or read is one step, as Concurrent has its parts, and so is each atomic operation
--   on the futex word and each call of the kernel. Handshake.Inv has what holds of either thread,
--   Handshake.Word is about the futex word, Handshake.Own and Handshake.Other about the steps of the
--   thread and of the other one, with Handshake.Told, Handshake.Attempts about the attempts, and
--   Handshake.Reach and Handshake.Sleep about what the two reach.
-- * Convert models how descriptors get from one process to another: `dupeDesc` of
--   include/fmq/AidlMessageQueue.h, the shim's constructor from an AIDL descriptor and its `operator=`,
--   and `unsafeHidlToAidlMQDescriptor` of include/fmq/ConvertMQDescriptors.h. Convert.RoundTrip is
--   about what arrives, and Convert.Peer about the memory that both processes then map.
-- * AidlQueue models the constructors of `AidlMessageQueue` (include/fmq/AidlMessageQueue.h).
--   AidlQueue.Copies is about the copies of a descriptor on the way to another process, AidlQueue.Peer
--   about the memory that both processes map, and AidlQueue.Join about the queue of the second.
-- * Parcel models `readFromParcel` and `writeToParcel` of the parcelables under generated_files. All of
--   them have the same shape, which Parcel has once, over a list of fields; Parcel.Types has the
--   parcelables. Those that are fields of `MQDescriptor` are written and read by their own functions,
--   of which Parcel.Nested makes a codec. Parcel.Chain says what is asked of `AParcel`, Parcel.Written
--   and Parcel.Reading what is in a parcel, and Parcel.Versions and Parcel.RoundTrip what is read of
--   what was written.
--   Parcel.Compare models the comparison operators of the same parcelables, with the laws of an order
--   in Parcel.Compare.Laws and Parcel.Compare.Order.
-- * Porting models system_porting.cpp, which is for Windows: `system_porting_mmap` with
--   Porting.Rights, and the text of a descriptor, `generate_string` in Porting.Json and `from_string`
--   in Porting.Parse, with the laws of the JSON library in Porting.JsonLaws, the array of the grantors
--   in Porting.Elements, the other members in Porting.Statements, and the whole in Porting.RoundTrip.
--   Porting.Exchange is how `dupeDesc`, the shim and AIDL's `MQDescriptor` use that text, with
--   Porting.Exchange.RoundTrip.
-- * Fifo is the specification: a bounded FIFO of bytes. Base has what the modules share.
--
-- How the code is read: `size_t`, `uint64_t` and pointers have 64 bits, and sums and products wrap at
-- `2 ^ 64` where the code's do. `none` as the result of an operation that returns something else is an
-- abort of `check` or undefined behaviour. A pointer into the ring is a distance from `mRing`. The
-- model follows the build without `_MSC_VER`, but for Porting. Memory order is not modelled: the
-- operations of one thread see the counters and the word as the arguments say, and the steps of
-- Concurrent, Broadcast and Handshake are sequentially consistent.
--
-- What is a parameter: `mmap`, ashmem, native handles, `dup`, the allocator, the clock, the futex
-- calls, `AParcel` with the codecs of simple types and those that it makes for parcelables and vectors
-- of them, the comparison of file descriptors, Win32, and the JSON library. Other threads are in the
-- sequences of calls that a theorem is about: those of Queue.Overrun, the futex words that EventFlag's
-- operations find, and the queues that the rounds of Blocking find.
-- The loops of `EventFlag::wait` and of the blocking calls run over the passes and rounds that the
-- system gives them; with a timeout, those up to the deadline are enough.
--
-- Not modelled: the descriptors of libhidl, which are not in the repository; the queues in the build
-- for Windows, of which Porting has the functions that they call and how their descriptors are passed
-- on; and logging, which only writes.
pub mod Base
pub mod Memory
pub mod Transaction
pub mod Flavor
pub mod Descriptor
pub mod Shim
pub mod Queue
pub mod Fifo
pub mod EventFlag
pub mod Mapping
pub mod Create
pub mod Blocking
pub mod Convert
pub mod Concurrent
pub mod Parcel
pub mod Porting
pub mod Broadcast
pub mod AidlQueue
pub mod Handshake
