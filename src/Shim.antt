-- ===== src/Shim.antt =====
-- `AidlMQDescriptorShim` of include/fmq/AidlMQDescriptorShim.h, in the build without `_MSC_VER`.
-- `none` stands for undefined behaviour or an abort. The handle comes from libcutils: the functions
-- that make and copy one are parameters.
pub mod Layout
mod Tests
use android_system_libfmq.Base.{
  ℕ, ◌+◌, ◌-◌, ◌%◌, ◌^◌, Bool, true, false, ◌||◌, Option, none, some, List, [], ◌∷◌, ◌++◌, map, ltb,
  if◌then◌else◌, ◌>>=◌, length, get_elem?, take, drop,
}
use android_system_libfmq.Memory.{add64}
use android_system_libfmq.Flavor.{MqFlavor, flavor_value}
use android_system_libfmq.Descriptor.{
  GrantorDescriptor, align_to_word_boundary, data_ptr_pos, min_grantor_count,
  min_grantor_count_for_ev_flag_support,
}

-- `native_handle_t`: `data` holds the `num_fds` descriptors and then the `num_ints` integers.
pub record NativeHandle : Type 0 where
  pub num_fds : ℕ
  pub num_ints : ℕ
  pub data_words : List ℕ

pub record Shim : Type 0 where
  pub grantors : List GrantorDescriptor
  pub handle : Option NativeHandle
  pub quantum : ℕ
  pub flags : ℕ

-- A cast to `uint32_t`.
abbrev pub u32 : ℕ → ℕ
u32 n = n % 2 ^ 32

-- From the grantors of a queue that is being made.
unfoldable pub from_grantors : MqFlavor → List GrantorDescriptor → Option NativeHandle → ℕ → Shim
unfolding flavor_value
from_grantors flavor grantors handle size = record {
  grantors = grantors;
  handle = handle;
  quantum = u32 size;
  flags = flavor_value flavor;
}

-- `memSize`: two counters, the ring, and the event flag word.
abbrev pub mem_sizes : ℕ → Bool → List ℕ
mem_sizes buffer_size configure_event_flag =
    take (if configure_event_flag then min_grantor_count_for_ev_flag_support else min_grantor_count)
      (8 ∷ 8 ∷ buffer_size ∷ 4 ∷ [])

-- The loop over the grantors: each lies where the one before it ends, aligned.
unfoldable pub contiguous_grantors : ℕ → List ℕ → Option (List GrantorDescriptor)
contiguous_grantors offset [] = some []
contiguous_grantors offset (m ∷ ms) = align_to_word_boundary offset >>= λ at.
    contiguous_grantors (add64 offset m) ms >>= λ rest.
    some (record { flags = 0; fd_index = 0; offset = u32 at; extent = m } ∷ rest)

-- From the sizes of a queue that is being made. Where they are too large no grantor is set.
unfoldable pub from_sizes : MqFlavor → ℕ → Option NativeHandle → ℕ → Bool → Option Shim
unfolding flavor_value
from_sizes flavor buffer_size handle message_size configure_event_flag =
    let overflow = ltb (2 ^ 64 - 1 - (8 + 8)) buffer_size in
    let empty : Shim = record {
      grantors = [];
      handle = handle;
      quantum = u32 message_size;
      flags = flavor_value flavor;
    } in
    align_to_word_boundary (add64 (8 + 8) buffer_size) >>= λ largest_offset.
    if overflow || ltb (2 ^ 31 - 1) largest_offset || ltb (2 ^ 31 - 1) message_size
    then some empty
    else contiguous_grantors 0 (mem_sizes buffer_size configure_event_flag) >>= λ grantors.
        some (record empty { grantors = grantors })

-- `mGrantors[DATAPTRPOS].extent`, or 0.
unfoldable pub get_size : Shim → ℕ
get_size s = elim (get_elem? s.grantors data_ptr_pos) [ none ↦ 0 | some g ↦ g.extent ]

unfoldable pub get_quantum : Shim → ℕ
get_quantum s = s.quantum

unfoldable pub get_flags : Shim → ℕ
get_flags s = s.flags

unfoldable pub is_handle_valid : Shim → Bool
is_handle_valid s = elim s.handle [ none ↦ false | some h ↦ true ]

unfoldable pub count_grantors : Shim → ℕ
count_grantors s = length s.grantors
