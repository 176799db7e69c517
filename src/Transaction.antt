-- ===== src/Transaction.antt =====
-- `MemRegion` and `MemTransaction` of include/fmq/MessageQueueBase.h. An address is a distance in
-- bytes from `mRing`, `none` is `nullptr`; `q` is `sizeof(T)`. The copies return `none` where the
-- source would call `memcpy` through a null pointer.
pub mod Regions
pub mod Slots
pub mod RoundTrip
mod Tests
use android_system_libfmq.Base.{
  ℕ, ◌+◌, ◌-◌, ◌*◌, min, Bool, true, false, Option, none, some, ltb, ◌==◌, if◌then◌else◌, ◌>>=◌,
}
use android_system_libfmq.Memory.{add64, mul64, Memory, memcpy}
use mathlib.Core.Option

pub record MemRegion : Type 0 where
  pub address : Option ℕ
  pub length : ℕ

pub record MemTransaction : Type 0 where
  pub first : MemRegion
  pub second : MemRegion

-- The default constructors.
abbrev pub no_region : MemRegion
no_region = record { address = none; length = 0 }

abbrev pub no_transaction : MemTransaction
no_transaction = record { first = no_region; second = no_region }

-- A region at a byte distance from `mRing`.
abbrev pub region : ℕ → ℕ → MemRegion
region a n = record { address = some a; length = n }

-- `getLengthInBytes`
unfoldable pub get_length_in_bytes : ℕ → MemRegion → ℕ
get_length_in_bytes q r = mul64 r.length q

-- Pointer arithmetic on `T*`.
abbrev pub advance : ℕ → ℕ → Option ℕ → Option ℕ
advance q k address = Option.map (λ a. a + k * q) address

unfoldable pub get_slot : ℕ → MemTransaction → ℕ → Option ℕ
get_slot q tx idx =
    if ltb (add64 tx.first.length tx.second.length) idx
    then none
    else if ltb idx tx.first.length
    then advance q idx tx.first.address
    else Option.map (λ a. a + idx * q - tx.first.length * q) tx.second.address

-- What `getMemRegionInfo` returns through its reference arguments.
pub record RegionInfo : Type 0 where
  pub first_count : ℕ
  pub second_count : ℕ
  pub first_base_address : Option ℕ
  pub second_base_address : Option ℕ

-- `none` for `return false`.
unfoldable pub get_mem_region_info : ℕ → MemTransaction → ℕ → ℕ → Option RegionInfo
get_mem_region_info q tx start_idx n_messages =
    if ltb (add64 tx.first.length tx.second.length) (add64 start_idx n_messages)
    then none
    else let first_count =
        if ltb start_idx tx.first.length then min n_messages (tx.first.length - start_idx) else 0 in
      let second_count = n_messages - first_count in
      let second_start_idx =
        if ltb tx.first.length start_idx then start_idx - tx.first.length else 0 in
      some (record {
        first_count = first_count;
        second_count = second_count;
        first_base_address =
            if first_count == 0 then none else advance q start_idx tx.first.address;
        second_base_address =
            if second_count == 0 then none else advance q second_start_idx tx.second.address;
      })

-- `if (count != 0) memcpy(base, data + skip, count * sizeof(T))`
unfoldable pub copy_out : ℕ → Option ℕ → ℕ → ℕ → Memory → Memory → Option Memory
copy_out q base skip count ring d =
    if count == 0
    then some ring
    else Option.map (λ a. memcpy ring a d (skip * q) (mul64 count q)) base

-- `if (count != 0) memcpy(data + skip, base, count * sizeof(T))`
unfoldable pub copy_in : ℕ → Option ℕ → ℕ → ℕ → Memory → Memory → Option Memory
copy_in q base skip count ring d =
    if count == 0 then some d else Option.map (λ a. memcpy d (skip * q) ring a (mul64 count q)) base

-- The result of `copyTo`, with the ring after it. `data` is the source buffer.
unfoldable pub copy_to :
    ℕ → MemTransaction → Option Memory → ℕ → ℕ → Memory → Option (Bool × Memory)
copy_to q tx none start_idx n_messages ring = some (false, ring)
copy_to q tx (some d) start_idx n_messages ring =
    elim (get_mem_region_info q tx start_idx n_messages) [
      | none ↦ some (false, ring)
      | some i ↦ copy_out q i.first_base_address 0 i.first_count ring d >>= λ ring₁.
          copy_out q i.second_base_address i.first_count i.second_count ring₁ d >>= λ ring₂.
          some (true, ring₂)
    ]

-- The result of `copyFrom`, with the destination buffer after it.
unfoldable pub copy_from :
    ℕ → MemTransaction → Option Memory → ℕ → ℕ → Memory → Option (Bool × Option Memory)
copy_from q tx none start_idx n_messages ring = some (false, none)
copy_from q tx (some d) start_idx n_messages ring =
    elim (get_mem_region_info q tx start_idx n_messages) [
      | none ↦ some (false, some d)
      | some i ↦ copy_in q i.first_base_address 0 i.first_count ring d >>= λ d₁.
          copy_in q i.second_base_address i.first_count i.second_count ring d₁ >>= λ d₂.
          some (true, some d₂)
    ]
