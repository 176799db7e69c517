-- ===== src/Transaction/Tests.antt =====
-- The theorems on transactions at two regions of messages.
use android_system_libfmq.Base.{ℕ, ◌+◌, ◌*◌, ◌<◌, ◌≡◌, inr, arith, true, some}
use android_system_libfmq.Memory.{Memory}
use android_system_libfmq.Transaction.{get_slot, copy_to, copy_from}
use android_system_libfmq.Transaction.Slots.{regions}
use android_system_libfmq.Transaction.RoundTrip.{copy_from-copy_to, copy_to-get_slot}

abbrev bytes : Memory
bytes i = i * 3

copy_to-get_slot_example :
    (ring' : Memory) × (copy_to 4 (regions 100 2 0 3) (some bytes) 1 3 bytes ≡ some (true, ring'))
    × ((k j : ℕ)
        → k < 3
        → j < 4
        → (slot : ℕ) × (get_slot 4 (regions 100 2 0 3) (1 + k) ≡ some slot)
          × (ring' (slot + j) ≡ bytes (k * 4 + j)))
copy_to-get_slot_example =
    copy_to-get_slot 4 100 2 0 3 (omega arith) (omega arith) 1 3 (omega arith) (inr (omega arith))
      bytes bytes

copy_from-copy_to_example :
    (ring' : Memory) × (e' : Memory) × (copy_to 4 (regions 100 2 0 3) (some bytes) 1 3 bytes
      ≡ some (true, ring'))
    × (copy_from 4 (regions 100 2 0 3) (some bytes) 1 3 ring' ≡ some (true, some e'))
    × ((i : ℕ) → i < 3 * 4 → e' i ≡ bytes i)
copy_from-copy_to_example =
    copy_from-copy_to 4 100 2 0 3 (omega arith) (omega arith) 1 3 (omega arith) (inr (omega arith))
      bytes bytes bytes
