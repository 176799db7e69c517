-- ===== src/Transaction/RoundTrip.antt =====
-- `copyFrom` after `copyTo` at the same start index gives the messages back.
use android_system_libfmq.Base.{
  ℕ, ◌+◌, ◌-◌, ◌*◌, ◌<◌, ◌≤◌, ◌≡◌, ◌∙◌, ap, le-or-lt, ◌⊎◌, inl, inr, arith, true, none, some, ltb,
  min, if◌then◌else◌, ◌==◌, mul-split, eq_of_==, mul-le-mul, Bool-cases,
}
use android_system_libfmq.Memory.{
  word64, Memory, memcpy, memcpy_none, Apart, gather-scatter, scatter_first, scatter_second,
}
use native.Mathlib.Nat.{add-mul}
use android_system_libfmq.Transaction.{
  get_slot, get_mem_region_info, copy_out, copy_in, copy_to, copy_from,
}
use android_system_libfmq.Transaction.Slots.{regions, get_slot_lem}

module _ (q a skip count : ℕ) (ring d : Memory) (small : count * q < word64) where
  copy_out_lem :
      copy_out q (if count == 0 then none else some a) skip count ring d
      ≡ some (memcpy ring a d (skip * q) (count * q))
  unfolding copy_out
  copy_out_lem = elim (Bool-cases (count == 0)) [
    | inl e ↦ let z : count * q ≡ 0 = grind arith in rw (e, z, memcpy_none)
    | inr e ↦ rw e ground arith
  ]

  copy_in_lem :
      copy_in q (if count == 0 then none else some a) skip count ring d
      ≡ some (memcpy d (skip * q) ring a (count * q))
  unfolding copy_in
  copy_in_lem = elim (Bool-cases (count == 0)) [
    | inl e ↦ let z : count * q ≡ 0 = grind arith in rw (e, z, memcpy_none)
    | inr e ↦ rw e ground arith
  ]

module _ (q a la b lb : ℕ) (pos : 0 < q) (sizes : (la + lb) * q < word64) (start n : ℕ)
    (fits : start + n ≤ la + lb) where
  -- How many messages go to each region, and where.
  abbrev first_count : ℕ
  first_count = if ltb start la then min n (la - start) else 0

  abbrev second_count : ℕ
  second_count = n - first_count

  info :
      get_mem_region_info q (regions a la b lb) start n
      ≡ some (record {
        first_count = first_count;
        second_count = second_count;
        first_base_address = if first_count == 0 then none else some (a + start * q);
        second_base_address = if second_count == 0 then none else some (b + (start - la) * q);
      })
  unfolding get_mem_region_info
  info = ground (arith, few)
    where
      few : la + lb < word64
      few = grind arith

  -- The bytes of each part, and where they end.
  record Parts : Type 0 where
    all : first_count * q + second_count * q ≡ n * q
    first_end : (first_count * q ≡ 0) ⊎ (start * q + first_count * q ≤ la * q)
    second_end : (second_count * q ≡ 0) ⊎ ((start - la) * q + second_count * q ≤ lb * q)
    small : la * q + lb * q < word64

  parts : Parts
  parts = record {
    all = mul-split first_count n q (ground arith);
    first_end = elim (Bool-cases (ltb start la)) [
      | inl p ↦ inr (rw (p, ← add-mul) (mul-le-mul q (ground arith)))
      | inr p ↦ inl (rw p (omega arith))
    ];
    second_end = elim (Bool-cases (second_count == 0)) [
      | inl p ↦ inl (rw (eq_of_== p) (omega arith))
      | inr p ↦ inr (rw (← add-mul) (mul-le-mul q (ground arith)))
    ];
    small = rw (← add-mul) sizes;
  }

  put : Memory → Memory → Memory
  put d ring =
      memcpy (memcpy ring (a + start * q) d 0 (first_count * q)) (b + (start - la) * q) d
        (first_count * q) (second_count * q)

  got : Memory → Memory → Memory
  got e ring =
      memcpy (memcpy e 0 ring (a + start * q) (first_count * q)) (first_count * q) ring
        (b + (start - la) * q) (second_count * q)

  small : (first_count * q < word64) × (second_count * q < word64)
  small = ground (arith, parts)

  copy_to-put :
      (d ring : Memory)
      → copy_to q (regions a la b lb) (some d) start n ring ≡ some (true, put d ring)
  unfolding copy_to put
  copy_to-put d ring = ground (
    arith,
    info,
    copy_out_lem q (a + start * q) 0 first_count ring d,
    copy_out_lem q (b + (start - la) * q) first_count second_count
        (memcpy ring (a + start * q) d 0 (first_count * q)) d,
    small,
  )

  copy_from-got :
      (e ring : Memory)
      → copy_from q (regions a la b lb) (some e) start n ring ≡ some (true, some (got e ring))
  unfolding copy_from got
  copy_from-got e ring = ground (
    arith,
    info,
    copy_in_lem q (a + start * q) 0 first_count ring e,
    copy_in_lem q (b + (start - la) * q) first_count second_count ring
        (memcpy e 0 ring (a + start * q) (first_count * q)),
    small,
  )

  areas :
      (a + la * q ≤ b) ⊎ (b + lb * q ≤ a)
      → Apart (a + start * q) (first_count * q) (b + (start - la) * q) (second_count * q)
  areas apart = ground (arith, parts)

  -- Messages of `q` bytes, not 0, in two regions of fewer than `2 ^ 64` bytes that do not overlap:
  -- for a start index and a count inside them, both copies succeed, and `copyFrom` after `copyTo`
  -- fills the buffer with the bytes of the messages.
  pub copy_from-copy_to :
      (a + la * q ≤ b) ⊎ (b + lb * q ≤ a)
      → (d e ring : Memory)
      → (ring' : Memory) × (e' : Memory) × (copy_to q (regions a la b lb) (some d) start n ring
          ≡ some (true, ring'))
        × (copy_from q (regions a la b lb) (some e) start n ring' ≡ some (true, some e'))
        × ((i : ℕ) → i < n * q → e' i ≡ d i)
  unfolding put got
  copy_from-copy_to apart d e ring = (
    put d ring,
    got e (put d ring),
    copy_to-put d ring,
    copy_from-got e (put d ring),
    λ i h.
        gather-scatter (a + start * q) (first_count * q) (b + (start - la) * q) (second_count * q) d
          e ring (areas apart) i (omega (arith, parts.all)),
  )

  module _ (apart : (a + la * q ≤ b) ⊎ (b + lb * q ≤ a)) (d ring : Memory) (k j : ℕ) (below : k < n)
      (byte : j < q) where
    abbrev InSlot : Type 0
    InSlot =
        (slot : ℕ) × (get_slot q (regions a la b lb) (start + k) ≡ some slot)
        × (put d ring (slot + j) ≡ d (k * q + j))

    in_first : start + k < la → InSlot
    unfolding put
    in_first h =
        let inside : k + 1 ≤ first_count = ground arith in
        (
          a + (start + k) * q,
          get_slot_lem q a la b lb pos sizes (start + k) ∙ ground arith,
          ap (put d ring) (omega (arith, add-mul start k q))
              ∙ scatter_first (a + start * q) (first_count * q) (b + (start - la) * q)
                  (second_count * q) d ring (areas apart) (k * q + j)
                  (omega (arith, mul-le-mul q inside, add-mul k 1 q)),
        )

    in_second : la ≤ start + k → InSlot
    unfolding put
    in_second h =
        let skipped : first_count ≤ k = ground arith in
        let index : start + k - la ≡ (start - la) + (k - first_count) = ground arith in
        let inside : (k - first_count) + 1 ≤ second_count = ground arith in
        let whole : first_count * q + (k - first_count) * q ≡ k * q =
          mul-split first_count k q skipped in
        (
          b + (start + k - la) * q,
          get_slot_lem q a la b lb pos sizes (start + k) ∙ ground arith,
          ap (put d ring) (
                omega
                  (arith, ap (λ (t : ℕ). t * q) index, add-mul (start - la) (k - first_count) q))
              ∙ scatter_second (a + start * q) (first_count * q) (b + (start - la) * q)
                  (second_count * q) d ring ((k - first_count) * q + j)
                  (omega (arith, mul-le-mul q inside, add-mul (k - first_count) 1 q))
              ∙ ap d (omega (arith, whole)),
        )

    in_slot : InSlot
    in_slot = elim (le-or-lt la (start + k)) [ inl h ↦ in_second h | inr h ↦ in_first h ]

  -- Messages of `q` bytes, not 0, in two regions of fewer than `2 ^ 64` bytes that do not overlap:
  -- for a start index and a count inside them, `copyTo` succeeds, and byte `j` of its message `k` is
  -- then byte `j` of the slot that `getSlot` gives for the start index and `k` together.
  pub copy_to-get_slot :
      (a + la * q ≤ b) ⊎ (b + lb * q ≤ a)
      → (d ring : Memory)
      → (ring' : Memory) × (copy_to q (regions a la b lb) (some d) start n ring
          ≡ some (true, ring'))
        × ((k j : ℕ)
            → k < n
            → j < q
            → (slot : ℕ) × (get_slot q (regions a la b lb) (start + k) ≡ some slot)
              × (ring' (slot + j) ≡ d (k * q + j)))
  copy_to-get_slot apart d ring =
      (put d ring, copy_to-put d ring, λ k j below byte. in_slot apart d ring k j below byte)
