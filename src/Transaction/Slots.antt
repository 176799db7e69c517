-- ===== src/Transaction/Slots.antt =====
-- The slots of a `MemTransaction` one by one, and `copyTo` and `copyFrom` at any start index.
use android_system_libfmq.Base.{
  ℕ, ◌+◌, ◌-◌, ◌*◌, ◌<◌, ◌≤◌, ◌≡◌, arith, none, some, if◌then◌else◌, ◌==◌, ltb, leb, mul-split,
}
use android_system_libfmq.Memory.{word64}
use android_system_libfmq.Transaction.{region, MemTransaction, get_slot, get_mem_region_info}

-- Regions of `la` and `lb` messages at the addresses `a` and `b`.
abbrev pub regions : ℕ → ℕ → ℕ → ℕ → MemTransaction
regions a la b lb = record { first = region a la; second = region b lb }

module _ (q a la b lb : ℕ) (pos : 0 < q) (sizes : (la + lb) * q < word64) where
  few : la + lb < word64
  few = grind arith

  -- On regions of `N` messages in all, of `q` bytes, with fewer than `2 ^ 64` bytes: slot `idx` is
  -- in the first region, or in the second behind it; from `N + 1` on, the result is null. The
  -- documentation asks that of `N` too.
  pub get_slot_lem :
      (idx : ℕ)
      → get_slot q (regions a la b lb) idx ≡ (
          if ltb idx la
          then some (a + idx * q)
          else if leb idx (la + lb)
          then some (b + (idx - la) * q)
          else none)
  unfolding get_slot
  get_slot_lem idx = ground (arith, few, mul-split la idx q)

  -- On regions with fewer than `2 ^ 64` bytes, `startIdx + nMessages` is computed modulo `2 ^ 64`:
  -- a start index not before the second region is accepted if the sum wraps to at most the number
  -- of messages, and the copy starts that many messages behind the second region's start.
  pub get_mem_region_info_wraps :
      (start n : ℕ)
      → la ≤ start
      → word64 ≤ start + n
      → start + n ≤ word64 + la + lb
      → get_mem_region_info q (regions a la b lb) start n
        ≡ some (record {
          first_count = 0;
          second_count = n;
          first_base_address = none;
          second_base_address = if n == 0 then none else some (b + (start - la) * q);
        })
  unfolding get_mem_region_info
  get_mem_region_info_wraps start n h k l = ground (arith, few)
