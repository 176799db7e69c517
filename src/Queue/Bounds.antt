-- ===== src/Queue/Bounds.antt =====
-- The regions that `beginWrite` and `beginRead` hand out lie in the ring.
use android_system_libfmq.Base.{
  ℕ, ◌+◌, ◌-◌, ◌*◌, ◌%◌, ◌<◌, ◌≤◌, ◌≡◌, ◌↔◌, ◌⊎◌, inl, inr, refl, arith, Bool, true, false, Option,
  some, none, mod-mod-eq-zero, mul-le_of_le-div, le-or-lt, Bool-cases, ltb, lt→ltb, ◌^◌,
}
use android_system_libfmq.Memory.{word64}
use android_system_libfmq.Flavor.{is_synchronized}
use android_system_libfmq.Transaction.{MemRegion, MemTransaction, no_transaction}
use android_system_libfmq.Queue.{
  Queue, ring_regions, begin_write, begin_read, available_to_write, get_quantum_count,
}
use android_system_libfmq.Queue.Contiguous.{contiguous, Split, split}
use android_system_libfmq.Queue.Write.{begin_write-regions}
use android_system_libfmq.Queue.Read.{begin_read-regions}
use android_system_libfmq.Queue.Inv.{IsValid, InStep, used}
use native.Mathlib.Nat.{mod-lt}

-- The distance of an address from `mRing`, and of the byte behind a region.
abbrev pub start_of : Option ℕ → ℕ
start_of none = 0
start_of (some a) = a

abbrev pub end_of : ℕ → MemRegion → ℕ
end_of q r = start_of r.address + r.length * q

-- Regions for `n` messages inside the ring, that do not overlap: the second starts the ring and
-- ends before the first.
pub record Within (s : Queue) (n : ℕ) (tx : MemTransaction) : Type 0 where
  pub count : tx.first.length + tx.second.length ≡ n
  pub first_inside : end_of s.quantum tx.first ≤ s.size
  pub second_start : start_of tx.second.address ≡ 0
  pub apart : end_of s.quantum tx.second ≤ start_of tx.first.address

module _ {s : Queue} (v : IsValid s) (n : ℕ) (fits : n * s.quantum ≤ s.size) where
  ring_regions-Within :
      (ptr : ℕ) → ptr % s.quantum ≡ 0 → Within s n (ring_regions s.size s.quantum (ptr % s.size) n)
  unfolding ring_regions
  ring_regions-Within ptr aligned =
      elim (Bool-cases (ltb (contiguous s.size s.quantum (ptr % s.size)) n)) [
        | inl p ↦ rw p ground (arith, splits, p)
        | inr p ↦ rw p ground (arith, splits, p)
      ]
    where
      splits : Split s.size s.quantum (ptr % s.size) n
      splits =
          split s.size s.quantum (ptr % s.size) n v.quantum_pos v.whole
            (mod-mod-eq-zero ptr s.size s.quantum aligned v.whole) (mod-lt ptr v.size_pos)

-- What a synchronized write needs beyond the size of the ring; an unsynchronized one needs nothing.
abbrev pub Allowed : Queue → ℕ → Type 0
Allowed s n =
    (n * s.quantum ≤ s.size) × (is_synchronized s.flavor ≡ true → used s + n * s.quantum ≤ s.size)

abbrev Refused : Queue → ℕ → Type 0
Refused s n =
    (s.size < n * s.quantum)
    ⊎ ((is_synchronized s.flavor ≡ true) × (s.size < used s + n * s.quantum))

Allowed-or_Refused : (s : Queue) (n : ℕ) → Allowed s n ⊎ Refused s n
Allowed-or_Refused s n = elim (le-or-lt (n * s.quantum) s.size) [
  | inr big ↦ inr (inl big)
  | inl fits ↦ elim (Bool-cases (is_synchronized s.flavor)) [
    | inr unsync ↦ inl (fits, λ sync. cc)
    | inl sync ↦ elim (le-or-lt (used s + n * s.quantum) s.size) [
      | inl free ↦ inl (fits, λ _. free)
      | inr full ↦ inr (inr (sync, full))
    ]
  ]
]

module _ {s : Queue} (v : IsValid s) (in_step : is_synchronized s.flavor ≡ true → InStep s) (n : ℕ)
    (result : MemTransaction) where
  begin_write-Refused : Refused s n → begin_write s n result ≡ some (false, no_transaction)
  unfolding begin_write available_to_write get_quantum_count
  begin_write-Refused (inl big) = ground (arith, mul-le_of_le-div n s.size s.quantum)
  begin_write-Refused (inr full) =
      ground (arith, full, in_step full.0, mul-le_of_le-div n (s.size - used s) s.quantum)

  not-Refused : Allowed s n → Refused s n → ⊥
  not-Refused a (inl big) = omega (arith, a.0)
  not-Refused a (inr full) = omega (arith, a.1 full.0, full.1)

  -- For a valid queue, not overrun if its flavor is synchronized, `beginWrite` has no undefined
  -- behaviour. It succeeds exactly if the messages fit the ring and, with the synchronized flavor,
  -- the free part of it, and then the regions lie inside the ring and do not overlap; otherwise it
  -- gives null regions.
  pub begin_write_decides :
      (begun : Bool) × (tx : MemTransaction) × (begin_write s n result ≡ some (begun, tx))
      × ((begun ≡ true) ↔ Allowed s n)
      × (begun ≡ true → Within s n tx)
      × (begun ≡ false → tx ≡ no_transaction)
  begin_write_decides = elim (Allowed-or_Refused s n) [
    | inl h ↦ (
      true,
      ring_regions s.size s.quantum (s.write_ptr % s.size) n,
      begin_write-regions v n result h.0 h.1,
      (λ _. h, λ _. refl),
      λ _. ring_regions-Within v n h.0 s.write_ptr v.write_aligned,
      λ e. cc,
    )
    | inr h ↦ (
      false,
      no_transaction,
      begin_write-Refused h,
      (λ e. cc, λ a. absurd (not-Refused a h)),
      λ e. cc,
      λ _. refl,
    )
  ]

module _ {s : Queue} (v : IsValid s) (in_step : InStep s) (n : ℕ) where
  -- On a valid queue that is not overrun, `beginRead` of messages that are there gives regions
  -- inside the ring that do not overlap.
  pub begin_read-Within :
      n * s.quantum ≤ used s
      → (tx : MemTransaction) × (begin_read s n ≡ some (s, true, tx)) × Within s n tx
  begin_read-Within enough = (
    ring_regions s.size s.quantum (s.read_ptr % s.size) n,
    begin_read-regions v n in_step enough,
    ring_regions-Within v n (omega arith) s.read_ptr v.read_aligned,
  )

  -- On a valid queue that is not overrun, whose ring has fewer than `2 ^ 63` bytes,
  -- `nMessages * sizeof(T)` is computed modulo `2 ^ 64`: a count whose product is `2 ^ 64` or more
  -- and wraps to no more than what is there passes the test of `beginRead`, with a second region
  -- that ends beyond the ring.
  pub begin_read_wraps :
      s.size < 2 ^ 63
      → word64 ≤ n * s.quantum
      → n * s.quantum % word64 ≤ used s
      → (tx : MemTransaction) × (begin_read s n ≡ some (s, true, tx))
        × (s.size < end_of s.quantum tx.second)
  unfolding begin_read ring_regions
  begin_read_wraps small big wraps = (
    ring_regions s.size s.quantum off n,
    ground arith,
    rw (lt→ltb many) (omega (arith, splits.rest (omega (arith, many)), splits.to_end)),
  )
    where
      off : ℕ
      off = s.read_ptr % s.size

      splits : Split s.size s.quantum off n
      splits =
          split s.size s.quantum off n v.quantum_pos v.whole
            (mod-mod-eq-zero s.read_ptr s.size s.quantum v.read_aligned v.whole)
            (mod-lt s.read_ptr v.size_pos)

      many : contiguous s.size s.quantum off < n
      many = elim (le-or-lt n (contiguous s.size s.quantum off)) [
        | inl h ↦ absurd (omega (arith, splits.short h))
        | inr h ↦ h
      ]
