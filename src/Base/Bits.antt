-- ===== src/Base/Bits.antt =====
-- Bits of the native numbers: what `&`, `|` and `~` do to one bit, and words by their bits.
use Prim.Native.Nat.{
  ℕ, zero, suc, ◌+◌, ◌-◌, ◌*◌, ◌/◌, ◌%◌, ◌^◌, ◌≤◌, ◌<◌, min, max, bit_and, bit_or, digits,
  bit_and-bitwise, bit_or-bitwise,
}
use mathlib.Core.Path.{◌≡◌, refl, ap, ◌∙◌, sym}
use native.Mathlib.Nat.{pow-suc, one-le-pow, pow-le-pow_right, mul_comm, div-div-eq-div-mul}
use mathlib.Core.Logic.{inl, inr}
use android_system_libfmq.Base.Tests.{le-or-lt}
use native.Mathlib.Omega.{arith}

-- The recursion that the bit operations stand for takes fuel: any two amounts that suffice agree.
module _ (past : ℕ → ℕ) (op : ℕ → ℕ → ℕ) where
  one_more : (k a b : ℕ) → a ≤ k → digits past op (suc k) a b ≡ digits past op k a b
  one_more zero zero b h = refl
  one_more zero (suc a) b h = absurd (omega arith)
  one_more (suc k) zero b h = refl
  one_more (suc k) (suc a) b h =
      ap (λ t. t * 2 + op (suc a % 2) (b % 2)) (one_more k (suc a / 2) (b / 2) (omega arith))

  more : (e k a b : ℕ) → a ≤ k → digits past op (e + k) a b ≡ digits past op k a b
  more zero k a b h = ap (λ t. digits past op t a b) (omega arith)
  more (suc e) k a b h =
      let grow : suc e + k ≡ suc (e + k) = omega arith in
      rw grow (one_more (e + k) a b (omega arith) ∙ more e k a b h)

  -- The lowest digit of a positive number, and the others.
  lowest :
      (a b : ℕ)
      → digits past op (suc a) (suc a) b
        ≡ digits past op (suc a / 2) (suc a / 2) (b / 2) * 2 + op (suc a % 2) (b % 2)
  lowest a b =
      let e : a ≡ a - suc a / 2 + suc a / 2 = omega arith in
      ap (λ t. t * 2 + op (suc a % 2) (b % 2))
        (ap (λ t. digits past op t (suc a / 2) (b / 2)) e
          ∙ more (a - suc a / 2) (suc a / 2) (suc a / 2) (b / 2) (omega arith))

pub bit_and_lowest : (a b : ℕ) → bit_and a b ≡ bit_and (a / 2) (b / 2) * 2 + min (a % 2) (b % 2)
bit_and_lowest zero b = omega (arith, bit_and-bitwise 0 b, bit_and-bitwise 0 (b / 2))
bit_and_lowest (suc a) b =
    bit_and-bitwise (suc a) b
    ∙ lowest (λ _. 0) min a b
    ∙ ap (λ t. t * 2 + min (suc a % 2) (b % 2)) (sym (bit_and-bitwise (suc a / 2) (b / 2)))

pub bit_or_lowest : (a b : ℕ) → bit_or a b ≡ bit_or (a / 2) (b / 2) * 2 + max (a % 2) (b % 2)
bit_or_lowest zero b = omega (arith, bit_or-bitwise 0 b, bit_or-bitwise 0 (b / 2))
bit_or_lowest (suc a) b =
    bit_or-bitwise (suc a) b
    ∙ lowest (λ y. y) max a b
    ∙ ap (λ t. t * 2 + max (suc a % 2) (b % 2)) (sym (bit_or-bitwise (suc a / 2) (b / 2)))

-- Bit `i` of a number, 0 or 1.
abbrev pub bit : ℕ → ℕ → ℕ
bit a zero = a % 2
bit a (suc i) = bit (a / 2) i

pub bit-lt : (a i : ℕ) → bit a i < 2
bit-lt a zero = omega arith
bit-lt a (suc i) = bit-lt (a / 2) i

pub bit-bit_and : (a b i : ℕ) → bit (bit_and a b) i ≡ min (bit a i) (bit b i)
bit-bit_and a b zero = omega (arith, bit_and_lowest a b)
bit-bit_and a b (suc i) =
    let e : bit_and a b / 2 ≡ bit_and (a / 2) (b / 2) = omega (arith, bit_and_lowest a b) in
    rw e (bit-bit_and (a / 2) (b / 2) i)

pub bit-bit_or : (a b i : ℕ) → bit (bit_or a b) i ≡ max (bit a i) (bit b i)
bit-bit_or a b zero = omega (arith, bit_or_lowest a b)
bit-bit_or a b (suc i) =
    let e : bit_or a b / 2 ≡ bit_or (a / 2) (b / 2) = omega (arith, bit_or_lowest a b) in
    rw e (bit-bit_or (a / 2) (b / 2) i)

pub bit-zero : (i : ℕ) → bit 0 i ≡ 0
bit-zero zero = refl
bit-zero (suc i) = bit-zero i

-- `~a` on a word of `w` bits.
abbrev pub complement : ℕ → ℕ → ℕ
complement w a = 2 ^ w - 1 - a

pub bit-complement : (w a i : ℕ) → a < 2 ^ w → i < w → bit (complement w a) i ≡ 1 - bit a i
bit-complement zero a i h k = absurd (omega arith)
bit-complement (suc w) a zero h k = omega (arith, pow-suc 2 w)
bit-complement (suc w) a (suc i) h k =
    let e : (2 ^ suc w - 1 - a) / 2 ≡ 2 ^ w - 1 - a / 2 = omega (arith, pow-suc 2 w) in
    rw e (bit-complement w (a / 2) i (omega (arith, pow-suc 2 w)) (omega arith))

-- Words with the same bits are the same.
pub bit_ext : (w a b : ℕ) → a < 2 ^ w → b < 2 ^ w → ((i : ℕ) → i < w → bit a i ≡ bit b i) → a ≡ b
bit_ext zero a b ha hb same = omega arith
bit_ext (suc w) a b ha hb same =
    let high : a / 2 ≡ b / 2 =
      bit_ext w (a / 2) (b / 2) (omega (arith, pow-suc 2 w)) (omega (arith, pow-suc 2 w))
        (λ i h. same (suc i) (omega arith)) in
    omega (arith, high, same 0 (omega arith))

pub zero-bit_and : (b : ℕ) → bit_and 0 b ≡ 0
zero-bit_and b = bit_and-bitwise 0 b

pub bit_or-lt : (w a b : ℕ) → a < 2 ^ w → b < 2 ^ w → bit_or a b < 2 ^ w
bit_or-lt zero a b ha hb =
    let ea : a ≡ 0 = omega arith in let eb : b ≡ 0 = omega arith in rw (ea, eb) (omega arith)
bit_or-lt (suc w) a b ha hb = omega (
  arith,
  pow-suc 2 w,
  bit_or_lowest a b,
  bit_or-lt w (a / 2) (b / 2) (omega (arith, pow-suc 2 w)) (omega (arith, pow-suc 2 w)),
)

pub bit_and-lt : (w a b : ℕ) → a < 2 ^ w → bit_and a b < 2 ^ w
bit_and-lt zero a b ha = let ea : a ≡ 0 = omega arith in rw (ea, zero-bit_and) (omega arith)
bit_and-lt (suc w) a b ha = omega (
  arith,
  pow-suc 2 w,
  bit_and_lowest a b,
  bit_and-lt w (a / 2) (b / 2) (omega (arith, pow-suc 2 w)),
)

-- All bits of the mask are set.
bit_and_all : (w a : ℕ) → a < 2 ^ w → bit_and a (complement w 0) ≡ a
bit_and_all w a h =
    bit_ext w (bit_and a (complement w 0)) a (bit_and-lt w a (complement w 0) h) h λ i k. omega (
      arith,
      bit-bit_and a (complement w 0) i,
      bit-complement w 0 i (one-le-pow w 2 (omega arith)) k,
      bit-zero i,
      bit-lt a i,
    )

halve : (m k : ℕ) → (2 ^ suc m - 2 ^ suc k) / 2 ≡ 2 ^ m - 2 ^ k
halve m k = omega (arith, pow-suc 2 m, pow-suc 2 k)

-- `a & ~(2 ^ k - 1)` on a word of `k + w` bits clears the low `k` bits.
pub bit_and_high :
    (k w a : ℕ) → a < 2 ^ (k + w) → bit_and a (2 ^ (k + w) - 2 ^ k) ≡ a / 2 ^ k * 2 ^ k
bit_and_high zero w a h =
    let e : 0 + w ≡ w = omega arith in
    let mask : 2 ^ w - 2 ^ 0 ≡ complement w 0 = omega arith in
    rw (e, mask, bit_and_all w a (rw e at h)) (omega arith)
bit_and_high (suc k) w a h =
    let e : suc k + w ≡ suc (k + w) = omega arith in
    let h' : a < 2 ^ suc (k + w) = rw e at h in
    let d : a / 2 ^ suc k ≡ a / 2 / 2 ^ k =
      ap (λ t. a / t) (pow-suc 2 k ∙ mul_comm (2 ^ k) 2) ∙ sym (div-div-eq-div-mul a 2 (2 ^ k)) in
    rw (e, d)
      (omega (
        arith,
        ap (λ (t : ℕ). a / 2 / 2 ^ k * t) (pow-suc 2 k),
        pow-suc 2 k,
        pow-suc 2 (k + w),
        pow-le-pow_right {n = 2} (omega arith) {i = k} {j = k + w} (omega arith),
        bit_and_lowest a (2 ^ suc (k + w) - 2 ^ suc k),
        ap (λ t. bit_and (a / 2) t) (halve (k + w) k),
        bit_and_high k w (a / 2) (omega (arith, pow-suc 2 (k + w))),
      ))

no_bits_below : (n a : ℕ) → a ≤ n → bit_and a 0 ≡ 0
no_bits_below zero a h = let e : a ≡ 0 = omega arith in rw e (zero-bit_and 0)
no_bits_below (suc n) a h = elim (le-or-lt a n) [
  | inl k ↦ no_bits_below n a k
  | inr k ↦ omega (arith, bit_and_lowest a 0, no_bits_below n (a / 2) (omega arith))
]

pub bit_and-zero : (a : ℕ) → bit_and a 0 ≡ 0
bit_and-zero a = no_bits_below a a (omega arith)
