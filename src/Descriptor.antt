-- ===== src/Descriptor.antt =====
-- base/fmq/MQDescriptorBase.h: grantors, their number, and the alignment of offsets. `none` stands
-- for the abort of `check`.
pub mod Align
mod Tests
use Prim.Native.Nat.{bit_and}
use android_system_libfmq.Base.{
  ℕ, ◌+◌, ◌-◌, ◌^◌, Bool, Option, none, some, leb, ◌==◌, if◌then◌else◌,
}
use android_system_libfmq.Memory.{add64, sub64}

-- `flags`, `fdIndex` and `offset` are `uint32_t`, `extent` is `uint64_t`.
pub record GrantorDescriptor : Type 0 where
  pub flags : ℕ
  pub fd_index : ℕ
  pub offset : ℕ
  pub extent : ℕ

-- `GrantorType`
abbrev pub read_ptr_pos : ℕ
read_ptr_pos = 0

abbrev pub write_ptr_pos : ℕ
write_ptr_pos = 1

abbrev pub data_ptr_pos : ℕ
data_ptr_pos = 2

abbrev pub ev_flag_word_pos : ℕ
ev_flag_word_pos = 3

abbrev pub min_grantor_count : ℕ
min_grantor_count = data_ptr_pos + 1

abbrev pub min_grantor_count_for_ev_flag_support : ℕ
min_grantor_count_for_ev_flag_support = ev_flag_word_pos + 1

-- `kAlignmentSize / 8` is 8, and `~(8 - 1U)` is a `size_t`.
unfoldable pub align_to_word_boundary : ℕ → Option ℕ
align_to_word_boundary length =
    if leb length (2 ^ 64 - 1 - 8 + 1)
    then some (bit_and (sub64 (add64 length 8) 1) (2 ^ 64 - 8))
    else none

unfoldable pub is_aligned_to_word_boundary : ℕ → Bool
is_aligned_to_word_boundary offset = bit_and offset 7 == 0
