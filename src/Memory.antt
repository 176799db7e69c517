-- ===== src/Memory.antt =====
-- Byte memory and `memcpy`, and the 64-bit arithmetic of `size_t` and `uint64_t`, which the code
-- of include/fmq/MessageQueueBase.h is written with.
use android_system_libfmq.Base.{
  ℕ, ◌+◌, ◌-◌, ◌*◌, ◌%◌, ◌^◌, ◌<◌, ◌≤◌, ◌≡◌, fun_ext, arith, ltb, leb, if◌then◌else◌, ◌&&◌, List,
  tabulate, ◌⊎◌,
}

abbrev pub word64 : ℕ
word64 = 2 ^ 64

-- Addition, subtraction and multiplication of `size_t` and of `uint64_t`.
abbrev pub add64 : ℕ → ℕ → ℕ
add64 a b = (a + b) % word64

abbrev pub sub64 : ℕ → ℕ → ℕ
sub64 a b = (a + word64 - b) % word64

abbrev pub mul64 : ℕ → ℕ → ℕ
mul64 a b = a * b % word64

-- The bytes behind a pointer, by their distance from it.
abbrev pub Memory : Type 0
Memory = ℕ → ℕ

-- `memcpy(dst + to, src + from, len)`.
unfoldable pub memcpy : Memory → ℕ → Memory → ℕ → ℕ → Memory
memcpy dst to src from len a = if leb to a && ltb a (to + len) then src (from + (a - to)) else dst a

-- The `len` bytes from `from` on.
abbrev pub load : Memory → ℕ → ℕ → List ℕ
load m from len = tabulate len (λ i. m (from + i))

module _ (dst : Memory) (to : ℕ) (src : Memory) (from len : ℕ) where
  -- Inside the target, a byte of the source.
  pub memcpy_inside :
      (a i : ℕ) → a ≡ to + i → i < len → memcpy dst to src from len a ≡ src (from + i)
  unfolding memcpy
  memcpy_inside a i e h = ground arith

  -- Outside of it, nothing changes.
  pub memcpy_below : (a : ℕ) → a < to → memcpy dst to src from len a ≡ dst a
  unfolding memcpy
  memcpy_below a h = ground arith

  pub memcpy_above : (a : ℕ) → to + len ≤ a → memcpy dst to src from len a ≡ dst a
  unfolding memcpy
  memcpy_above a h = ground arith

-- `memcpy` of no bytes.
pub memcpy_none : (dst : Memory) (to : ℕ) (src : Memory) (from : ℕ) → memcpy dst to src from 0 ≡ dst
unfolding memcpy
memcpy_none dst to src from = fun_ext λ a. ground arith

-- Two areas that do not share a byte.
abbrev pub Apart : ℕ → ℕ → ℕ → ℕ → Type 0
Apart x f y g = ((x + f ≤ y) ⊎ (y + g ≤ x)) ⊎ ((f ≡ 0) ⊎ (g ≡ 0))

-- Bytes scattered to two areas: where each of them is.
pub scatter_first :
    (x f y g : ℕ) (d ring : Memory)
    → Apart x f y g
    → (i : ℕ) → i < f
    → memcpy (memcpy ring x d 0 f) y d f g (x + i) ≡ d i
unfolding memcpy
scatter_first x f y g d ring apart i h = ground arith

pub scatter_second :
    (x f y g : ℕ) (d ring : Memory) (i : ℕ)
    → i < g
    → memcpy (memcpy ring x d 0 f) y d f g (y + i) ≡ d (f + i)
unfolding memcpy
scatter_second x f y g d ring i h = ground arith

-- Bytes scattered to two areas and gathered again are the bytes.
pub gather-scatter :
    (x f y g : ℕ) (d e ring : Memory)
    → Apart x f y g
    → (i : ℕ) → i < f + g
    → let r = memcpy (memcpy ring x d 0 f) y d f g in memcpy (memcpy e 0 r x f) f r y g i ≡ d i
unfolding memcpy
gather-scatter x f y g d e ring apart i h = ground arith
