-- ===== src/AidlQueue.antt =====
-- `AidlMessageQueue` of include/fmq/AidlMessageQueue.h: its constructors, which are those of
-- `MessageQueueBase` on an `AidlMQDescriptorShim`, and the copies and the destructor of the shim
-- (include/fmq/AidlMQDescriptorShim.h) that they need, in the build without `_MSC_VER`.
pub mod Copies
pub mod Peer
pub mod Join
mod Tests
use android_system_libfmq.Base.{
  ℕ, Bool, true, false, Option, none, some, List, [], ◌∷◌, ◌>>=◌, if◌then◌else◌,
}
use android_system_libfmq.Flavor.{MqFlavor}
use android_system_libfmq.Flavor
use android_system_libfmq.Shim.{NativeHandle, Shim}
use android_system_libfmq.Mapping.{MessageQueue, World, Host, from_descriptor}
use android_system_libfmq.Create.{Maker, create}
use android_system_libfmq.Convert.{AidlDescriptor, CreateHandle, from_aidl, assign, dupe_desc}

-- The type argument of the flavor, and `FlavorTypeToValue`.
pub data FlavorType : Type 0 where
  synchronized_read_write unsynchronized_write : FlavorType

unfoldable pub flavor_type_value : FlavorType → MqFlavor
flavor_type_value synchronized_read_write = Flavor.MqFlavor.synchronized_read_write
flavor_type_value unsynchronized_write = Flavor.MqFlavor.unsynchronized_write

-- The calls that the shim's destructor makes, of libcutils.
pub data HandleCall : Type 0 where
  native_handle_close native_handle_delete : NativeHandle → HandleCall

unfoldable pub destroy_shim : Shim → List HandleCall
destroy_shim s = elim s.handle [
  | none ↦ []
  | some h ↦ native_handle_close h ∷ native_handle_delete h ∷ []
]

-- The system of one process: native handles, `dup`, whether the queue's own descriptor can be
-- allocated, and the memory.
pub record Process : Type 0 where
  pub native_handle_create : CreateHandle
  pub dup : ℕ → ℕ
  pub descriptor_memory : Bool
  pub host : Host

-- `MessageQueueBase(Desc, resetPointers)` on a shim, of which the queue has a copy.
unfoldable pub from_shim :
    Process → MqFlavor → ℕ → Shim → Bool → World → Option (MessageQueue × World)
unfolding assign from_descriptor
from_shim process flavor quantum shim reset w =
    if process.descriptor_memory
    then (assign process.native_handle_create process.dup shim >>= λ copied.
        from_descriptor process.host flavor quantum (some copied) reset w)
    else from_descriptor process.host flavor quantum none reset w

-- `AidlMessageQueue(desc, resetPointers)`: the queue, the shared memory, and what the destructor of
-- the shim in between does.
unfoldable pub from_mq_descriptor :
    Process
    → FlavorType
    → ℕ
    → AidlDescriptor
    → Bool
    → World
    → Option (MessageQueue × World × List HandleCall)
unfolding flavor_type_value from_aidl from_shim destroy_shim
from_mq_descriptor process flavor quantum desc reset w =
    let shim = from_aidl process.native_handle_create process.dup desc in
    from_shim process (flavor_type_value flavor) quantum shim reset w >>= λ (q, w').
    some (q, w', destroy_shim shim)

-- `AidlMessageQueue(numElementsInQueue, configureEventFlagWord, bufferFd, bufferSize)`.
unfoldable pub new_queue :
    Maker
    → Process
    → FlavorType
    → ℕ
    → ℕ
    → Bool
    → Option ℕ
    → ℕ
    → World
    → Option (MessageQueue × World)
unfolding flavor_type_value create
new_queue maker process flavor quantum num_elements configure buffer_fd buffer_size w =
    create maker process.host (flavor_type_value flavor) quantum
      (record {
        num_elements_in_queue = num_elements;
        configure_event_flag_word = configure;
        buffer_fd = buffer_fd;
        buffer_size = buffer_size;
      })
      w

-- `AidlMessageQueue(numElementsInQueue, configureEventFlagWord)`.
unfoldable pub new_queue_alone :
    Maker → Process → FlavorType → ℕ → ℕ → Bool → World → Option (MessageQueue × World)
unfolding new_queue
new_queue_alone maker process flavor quantum num_elements configure w =
    new_queue maker process flavor quantum num_elements configure none 0 w
