-- ===== src/Flavor.antt =====
-- `MQFlavor` of base/fmq/MQDescriptorBase.h.
use android_system_libfmq.Base.{ℕ, Bool, true, false}

pub data MqFlavor : Type 0 where
  synchronized_read_write unsynchronized_write : MqFlavor

-- The values of the enumeration, as they stand in the flags of a descriptor.
unfoldable pub flavor_value : MqFlavor → ℕ
flavor_value synchronized_read_write = 0x01
flavor_value unsynchronized_write = 0x02

abbrev pub is_synchronized : MqFlavor → Bool
is_synchronized synchronized_read_write = true
is_synchronized unsynchronized_write = false
