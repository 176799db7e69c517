-- ===== src/EventFlag/Bits.antt =====
-- The bits that the event flag operations set, take and leave.
use android_system_libfmq.Base.{
  ℕ, zero, suc, ◌+◌, ◌*◌, ap, ◌∙◌, ◌/◌, ◌^◌, ◌<◌, ◌≡◌, arith, bit, bit-lt, bit-bit_and,
  bit-complement, complement, le-or-lt, inl, inr, bit_ext, bit_and-lt, bit-zero,
}
use Prim.Native.Nat.{bit_and}
use native.Mathlib.Nat.{pow-suc}

-- A word that is not 0 has a bit that is set.
pub set_bit : (w a : ℕ) → a < 2 ^ w → 0 < a → (i : ℕ) × (i < w) × (bit a i ≡ 1)
set_bit zero a h k = absurd (omega arith)
set_bit (suc w) a h k = elim (le-or-lt a (2 * (a / 2))) [
  | inr odd ↦ (0, omega arith, omega arith)
  | inl even ↦
      let (i, j, e) = set_bit w (a / 2) (omega (arith, pow-suc 2 w)) (omega arith) in
      (suc i, omega arith, e)
]

-- A bit that is set makes a number positive.
pub bit_pos : (a i : ℕ) → bit a i ≡ 1 → 0 < a
bit_pos zero i e = omega (arith, bit-zero i)
bit_pos (suc a) i e = omega arith

-- The bits of the mask that a word has are taken and the others are left.
pub taken-left :
    (word mask i : ℕ)
    → mask < 2 ^ 32
    → i < 32
    → bit (bit_and word (complement 32 mask)) i + bit (bit_and word mask) i ≡ bit word i
taken-left word mask i h k = omega (
  arith,
  bit-bit_and word (complement 32 mask) i,
  bit-complement 32 mask i h k,
  bit-bit_and word mask i,
  bit-lt word i,
  bit-lt mask i,
)

-- A word without bits of the mask stays as it is.
pub none_taken :
    (word mask : ℕ)
    → word < 2 ^ 32
    → mask < 2 ^ 32
    → bit_and word mask ≡ 0
    → bit_and word (complement 32 mask) ≡ word
none_taken word mask fits h e =
    bit_ext 32 _ _ (bit_and-lt 32 word (complement 32 mask) fits) fits
      λ i k. omega (arith, taken-left word mask i h k, ap (λ t. bit t i) e ∙ bit-zero i)
