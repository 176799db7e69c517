-- ===== src/Descriptor/Align.antt =====
-- `alignToWordBoundary` as arithmetic.
use Prim.Native.Nat.{bit_and}
use android_system_libfmq.Base.{
  ℕ, ◌+◌, ◌-◌, ◌*◌, ◌/◌, ◌%◌, ◌^◌, ◌<◌, ◌≡◌, ◌↔◌, arith, true, none, some, if◌then◌else◌, leb,
  bit_and_high, bit_and_lowest, bit_and-zero,
}
use android_system_libfmq.Descriptor.{align_to_word_boundary, is_aligned_to_word_boundary}

-- The next multiple of 8.
abbrev pub aligned : ℕ → ℕ
aligned length = (length + 7) / 8 * 8

bit_and_word : (x : ℕ) → x < 2 ^ 64 → bit_and x (2 ^ 64 - 8) ≡ x / 8 * 8
bit_and_word x h = bit_and_high 3 61 x h

-- `alignToWordBoundary` gives the next multiple of 8, and aborts if that is not below `2 ^ 64`.
pub align_to_word_boundary_lem :
    (length : ℕ)
    → align_to_word_boundary length
      ≡ (if leb length (2 ^ 64 - 8) then some (aligned length) else none)
unfolding align_to_word_boundary
align_to_word_boundary_lem length =
    ground (arith, bit_and_word ((length + 8 + 2 ^ 64 - 1) % 2 ^ 64))

bit_and_seven : (a : ℕ) → bit_and a 7 ≡ a % 8
bit_and_seven a = omega (
  arith,
  bit_and_lowest a 7,
  bit_and_lowest (a / 2) 3,
  bit_and_lowest (a / 2 / 2) 1,
  bit_and-zero (a / 2 / 2 / 2),
)

-- `isAlignedToWordBoundary` holds exactly for the multiples of 8.
pub is_aligned_iff : (offset : ℕ) → (is_aligned_to_word_boundary offset ≡ true) ↔ (offset % 8 ≡ 0)
unfolding is_aligned_to_word_boundary
is_aligned_iff offset = ground (arith, bit_and_seven offset)
