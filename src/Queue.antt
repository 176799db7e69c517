-- ===== src/Queue.antt =====
-- The ring buffer operations of `MessageQueueBase` in include/fmq/MessageQueueBase.h, on a queue
-- that is mapped (`isValid`). `size` is `mDesc->getSize()`, `quantum` is `sizeof(T)`, which
-- `initMemory` compares with `mDesc->getQuantum()`; `read_ptr` and `write_ptr` are the values of
-- the two counters. `none` stands for undefined behaviour: a remainder by zero, or `memcpy` through
-- a null pointer.
pub mod Contiguous
pub mod Copy
pub mod Inv
pub mod Write
pub mod Read
pub mod Refine
pub mod Bounds
pub mod Calls
pub mod Overrun
mod Tests
use android_system_libfmq.Base.{
  ℕ, ◌-◌, ◌/◌, ◌%◌, Bool, true, false, not, ◌&&◌, ◌||◌, Option, none, some, ltb, ◌==◌,
  if◌then◌else◌, ◌>>=◌,
}
use android_system_libfmq.Memory.{add64, sub64, mul64, Memory}
use android_system_libfmq.Flavor.{MqFlavor, is_synchronized}
use android_system_libfmq.Transaction.{
  MemTransaction, region, no_region, no_transaction, copy_to, copy_from,
}

pub record Queue : Type 0 where
  pub flavor : MqFlavor
  pub size : ℕ
  pub quantum : ℕ
  pub ring : Memory
  pub read_ptr : ℕ
  pub write_ptr : ℕ

unfoldable pub available_to_read_bytes : Queue → ℕ
available_to_read_bytes s = sub64 s.write_ptr s.read_ptr

unfoldable pub available_to_write_bytes : Queue → ℕ
unfolding available_to_read_bytes
available_to_write_bytes s = sub64 s.size (available_to_read_bytes s)

unfoldable pub available_to_write : Queue → ℕ
unfolding available_to_write_bytes
available_to_write s = available_to_write_bytes s / s.quantum

unfoldable pub available_to_read : Queue → ℕ
unfolding available_to_read_bytes
available_to_read s = available_to_read_bytes s / s.quantum

unfoldable pub get_quantum_size : Queue → ℕ
get_quantum_size s = s.quantum

unfoldable pub get_quantum_count : Queue → ℕ
get_quantum_count s = s.size / s.quantum

-- The regions for `n` messages from the byte distance `offset`, as `beginWrite` and `beginRead`
-- end.
unfoldable pub ring_regions : ℕ → ℕ → ℕ → ℕ → MemTransaction
ring_regions size q offset n =
    let contiguous_messages = (size - offset) / q in
    if ltb contiguous_messages n
    then record {
      first = region offset contiguous_messages;
      second = region 0 (n - contiguous_messages);
    }
    else record { first = region offset n; second = no_region }

-- The result and `*result`; a misaligned counter leaves the latter as it was.
unfoldable pub begin_write : Queue → ℕ → MemTransaction → Option (Bool × MemTransaction)
unfolding get_quantum_count ring_regions
begin_write s n result =
    if (is_synchronized s.flavor && ltb (available_to_write s) n) || ltb (get_quantum_count s) n
    then some (false, no_transaction)
    else if not (s.write_ptr % s.quantum == 0)
    then some (false, result)
    else if s.size == 0
    then none
    else some (true, ring_regions s.size s.quantum (s.write_ptr % s.size) n)

unfoldable pub commit_write : Queue → ℕ → Queue × Bool
commit_write s n = (record s { write_ptr = add64 s.write_ptr (mul64 n s.quantum) }, true)

-- `begin_write(n, &tx) && tx.copyTo(data, 0, n) && commitWrite(n)`
unfoldable pub write : Queue → Option Memory → ℕ → Option (Queue × Bool)
write s d n = begin_write s n no_transaction >>= λ (begun, tx).
    if not begun
    then some (s, false)
    else copy_to s.quantum tx d 0 n s.ring >>= λ (copied, ring).
        let s' = record s { ring = ring } in
        if not copied then some (s', false) else some (commit_write s' n)

-- The result, `*result`, and the queue, whose read counter an overrun moves.
unfoldable pub begin_read : Queue → ℕ → Option (Queue × Bool × MemTransaction)
unfolding ring_regions
begin_read s n =
    if not (s.write_ptr % s.quantum == 0) || not (s.read_ptr % s.quantum == 0)
    then some (s, false, no_transaction)
    else if ltb s.size (sub64 s.write_ptr s.read_ptr)
    then some (record s { read_ptr = s.write_ptr }, false, no_transaction)
    else if ltb (sub64 s.write_ptr s.read_ptr) (mul64 n s.quantum)
    then some (s, false, no_transaction)
    else if s.size == 0
    then none
    else some (s, true, ring_regions s.size s.quantum (s.read_ptr % s.size) n)

unfoldable pub commit_read : Queue → ℕ → Queue × Bool
commit_read s n =
    if ltb s.size (sub64 s.write_ptr s.read_ptr)
    then (record s { read_ptr = s.write_ptr }, false)
    else (record s { read_ptr = add64 s.read_ptr (mul64 n s.quantum) }, true)

-- `beginRead(n, &tx) && tx.copyFrom(data, 0, n) && commitRead(n)`, with the buffer after it.
unfoldable pub read : Queue → Option Memory → ℕ → Option (Queue × Bool × Option Memory)
read s d n = begin_read s n >>= λ (s', begun, tx).
    if not begun
    then some (s', false, d)
    else copy_from s'.quantum tx d 0 n s'.ring >>= λ (copied, d').
        if not copied
        then some (s', false, d')
        else (let (s'', done) = commit_read s' n in some (s'', done, d'))

-- `write(data)` and `read(data)` move one message.
unfoldable pub write_one : Queue → Option Memory → Option (Queue × Bool)
write_one s d = write s d 1

unfoldable pub read_one : Queue → Option Memory → Option (Queue × Bool × Option Memory)
read_one s d = read s d 1
