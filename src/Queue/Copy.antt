-- ===== src/Queue/Copy.antt =====
-- Where the copies of `write` and `read` put the bytes: index `i` of the message goes with the
-- ring's byte `(offset + i) % size`.
use android_system_libfmq.Base.{
  ℕ, ◌+◌, ◌-◌, ◌*◌, ◌%◌, ◌<◌, ◌≤◌, ◌≡◌, arith, true, some, ltb, if◌then◌else◌, ◌==◌, Bool-cases,
  inl, inr,
}
use android_system_libfmq.Memory.{word64, Memory, memcpy}
use android_system_libfmq.Transaction.{copy_to, copy_from}
use android_system_libfmq.Transaction.Regions.{
  copy_to-one, copy_to-two, copy_from-one, copy_from-two,
}
use android_system_libfmq.Queue.{ring_regions}
use android_system_libfmq.Queue.Contiguous.{contiguous, Split, split}
use native.Mathlib.Nat.{mod-eq_of_lt, mod-eq-sub-mod}

-- The byte of the ring behind index `i` from `off`.
pub wrap_index :
    (size off i : ℕ)
    → off < size
    → i ≤ size
    → (off + i) % size ≡ (if ltb (off + i) size then off + i else off + i - size)
wrap_index size off i h k = elim (Bool-cases (ltb (off + i) size)) [
  | inl p ↦ rw p (mod-eq_of_lt (ground arith))
  | inr p ↦
      rw (p, mod-eq-sub-mod {n = off + i} {m = size} (ground arith)) (mod-eq_of_lt (ground arith))
]

module _ (size q off n : ℕ) (d ring : Memory) where
  abbrev c : ℕ
  c = contiguous size q off

  -- The ring after `copyTo`.
  pub ring_after : Memory
  ring_after =
      if ltb c n
      then memcpy (memcpy ring off d 0 (c * q)) 0 d (c * q) ((n - c) * q)
      else if n == 0
      then ring
      else memcpy ring off d 0 (n * q)

  -- The caller's buffer after `copyFrom`.
  pub buffer_after : Memory
  buffer_after =
      if ltb c n
      then memcpy (memcpy d 0 ring off (c * q)) (c * q) ring 0 ((n - c) * q)
      else if n == 0
      then d
      else memcpy d 0 ring off (n * q)

module _ (size q off n : ℕ) (pos : 0 < q) (fits : size < word64) (whole : size % q ≡ 0)
    (aligned : off % q ≡ 0) (inside : off < size) (room : n * q ≤ size) (d ring : Memory) where
  abbrev k : ℕ
  k = contiguous size q off

  splits : Split size q off n
  splits = split size q off n pos whole aligned inside

  pub copy_to-ring_after :
      copy_to q (ring_regions size q off n) (some d) 0 n ring
      ≡ some (true, ring_after size q off n d ring)
  unfolding ring_after ring_regions
  copy_to-ring_after = elim (Bool-cases (ltb k n)) [
    | inl p ↦ rw p (copy_to-two q off k n pos splits.some_room (ground arith) (omega arith) d ring)
    | inr p ↦ rw p (copy_to-one q off n pos (omega arith) d ring)
  ]

  pub ring_after-inside :
      (i : ℕ) → i < n * q → ring_after size q off n d ring ((off + i) % size) ≡ d i
  unfolding ring_after memcpy
  ring_after-inside i h = rw (wrap_index size off i inside (omega arith)) (ground (arith, splits))

  pub ring_after-outside :
      (i : ℕ)
      → n * q ≤ i
      → i < size
      → ring_after size q off n d ring ((off + i) % size) ≡ ring ((off + i) % size)
  unfolding ring_after memcpy
  ring_after-outside i h below =
      rw (wrap_index size off i inside (omega arith)) (ground (arith, splits))

  pub copy_from-buffer_after :
      copy_from q (ring_regions size q off n) (some d) 0 n ring
      ≡ some (true, some (buffer_after size q off n d ring))
  unfolding buffer_after ring_regions
  copy_from-buffer_after = elim (Bool-cases (ltb k n)) [
    | inl p ↦
        rw p (copy_from-two q off k n pos splits.some_room (ground arith) (omega arith) d ring)
    | inr p ↦ rw p (copy_from-one q off n pos (omega arith) d ring)
  ]

  pub buffer_after-inside :
      (i : ℕ) → i < n * q → buffer_after size q off n d ring i ≡ ring ((off + i) % size)
  unfolding buffer_after memcpy
  buffer_after-inside i h = rw (wrap_index size off i inside (omega arith)) (ground (arith, splits))

  -- Past the messages the buffer is as it was.
  pub buffer_after-outside : (i : ℕ) → n * q ≤ i → buffer_after size q off n d ring i ≡ d i
  unfolding buffer_after memcpy
  buffer_after-outside i h = ground (arith, splits)
