-- ===== src/Blocking.antt =====
-- `writeBlocking` and `readBlocking` of include/fmq/MessageQueueBase.h. They have the same shape: an
-- attempt at once, and then a loop that waits for the event flag and tries again. Between two steps
-- other threads use the queue and the flag, so a round of the loop says what it finds. `undefined`
-- stands where an attempt has undefined behaviour.
pub mod Loop
pub mod Ready
mod Tests
use android_system_libfmq.Base.{
  ℕ, Bool, true, false, not, ◌&&◌, ◌||◌, Option, none, some, List, [], ◌∷◌, ltb, ◌==◌,
  if◌then◌else◌, ◌>>=◌, is_some,
}
use Prim.Native.Nat.{bit_and}
use android_system_libfmq.Memory.{Memory, sub64}
use android_system_libfmq.Queue.{Queue, get_quantum_count, write, read}
use android_system_libfmq.EventFlag.{
  Status, no_error, Pass, WaitOutcome, WaitResult, waiting, undefined, finished, is_positive, wait,
}
use android_system_libfmq.EventFlag.Lifetime.{Flag}

-- `FMQ_NOT_FULL` and `FMQ_NOT_EMPTY`
abbrev pub fmq_not_full : ℕ
fmq_not_full = 1

abbrev pub fmq_not_empty : ℕ
fmq_not_empty = 2

-- One round: the time at its start and when it waits, the passes of that wait, and the queue that
-- its attempt finds.
pub record Round : Type 0 where
  pub elapsed : ℕ
  pub wait_start : ℕ
  pub passes : List Pass
  pub queue : Queue

-- What a call returns, the queue and the buffer after it, and the mask that it wakes.
pub record Returned : Type 0 where
  pub result : Bool
  pub queue : Queue
  pub buffer : Option Memory
  pub woken : Option ℕ

pub data Outcome : Type 0 where
  still_waiting : Outcome
  undefined_behaviour : Outcome
  returned : Returned → Outcome

-- An attempt: the queue, its result and the buffer after it.
abbrev pub Attempt : Type 0
Attempt = Queue → Option Memory → Option (Queue × Bool × Option Memory)

-- The end of a call: after a success the other side is woken, unless the mask is 0.
abbrev pub finish : ℕ → Queue → Bool → Option Memory → Outcome
finish notification q result buffer = returned (record {
  result = result;
  queue = q;
  buffer = buffer;
  woken = if result && not (notification == 0) then some notification else none;
})

-- The last attempt, when the time is over.
abbrev pub last_attempt : ℕ → Option (Queue × Bool × Option Memory) → Outcome
last_attempt notification none = undefined_behaviour
last_attempt notification (some (q, result, buffer)) = finish notification q result buffer

-- An attempt after a wake-up, with what the next rounds give if it fails.
abbrev pub attempt_or : ℕ → Option (Queue × Bool × Option Memory) → Outcome → Outcome
attempt_or notification none rest = undefined_behaviour
attempt_or notification (some (q, true, buffer)) rest = finish notification q true buffer
attempt_or notification (some (q, false, buffer)) rest = rest

-- The buffer that an attempt leaves.
abbrev pub buffer_after : Option Memory → Option (Queue × Bool × Option Memory) → Option Memory
buffer_after buffer none = buffer
buffer_after buffer (some (q, result, after)) = after

abbrev pub is_no_error : Status → Bool
is_no_error no_error = true
is_no_error status = false

-- `efState & awaited`
abbrev pub has_bit : ℕ → WaitResult → Bool
has_bit awaited w = elim w.ef_state [ none ↦ false | some state ↦ not (bit_and state awaited == 0) ]

-- A round after its wait: an error or the end of the time end the call; otherwise it tries again
-- if the awaited bit is there.
unfoldable pub after_wait :
    ℕ
    → ℕ
    → Queue
    → Option Memory
    → Option (Queue × Bool × Option Memory)
    → WaitOutcome
    → Outcome
    → Outcome
    → Outcome
after_wait awaited notification q buffer attempt waiting rest again = still_waiting
after_wait awaited notification q buffer attempt undefined rest again = undefined_behaviour
after_wait awaited notification q buffer attempt (finished w) rest again =
    if not (is_no_error w.status)
    then finish notification q false buffer
    else if has_bit awaited w
    then attempt_or notification attempt rest
    else again

-- The loop: the bits that it waits for, the mask that it wakes, the time that is left, the time of
-- the round before, and the buffer.
unfoldable pub blocking_loop : Attempt → ℕ → ℕ → Bool → ℕ → ℕ → Option Memory → List Round → Outcome
unfolding after_wait
blocking_loop try awaited notification should_time_out timeout prev buffer [] = still_waiting
blocking_loop try awaited notification should_time_out timeout prev buffer (r ∷ rounds) =
    let left = if should_time_out then sub64 timeout (sub64 r.elapsed prev) else timeout in
    let now = if should_time_out then r.elapsed else prev in
    let attempt = try r.queue buffer in
    let rest =
      blocking_loop try awaited notification should_time_out left now (buffer_after buffer attempt)
        rounds in
    let again = blocking_loop try awaited notification should_time_out left now buffer rounds in
    if should_time_out && not (is_positive left)
    then last_attempt notification attempt
    else after_wait awaited notification r.queue buffer attempt
        (wait awaited (some 0) left true r.wait_start r.passes) rest again

-- The flag is the caller's or the queue's own; `start` is the time before the loop.
unfoldable pub blocking :
    Attempt
    → ℕ
    → ℕ
    → ℕ
    → ℕ
    → Option Flag
    → Option Flag
    → ℕ
    → Queue
    → Option Memory
    → List Round
    → Outcome
unfolding blocking_loop get_quantum_count
blocking try awaited notification count timeout ev_flag own_flag start q buffer rounds =
    let attempt = try q buffer in
    if not (is_some ev_flag) && not (is_some own_flag)
    then finish notification q false buffer
    else if (awaited == 0) || ltb (get_quantum_count q) count
    then finish notification q false buffer
    else attempt_or notification attempt (
        blocking_loop try awaited notification (not (timeout == 0)) timeout
          (if timeout == 0 then 0 else start) (buffer_after buffer attempt) rounds)

abbrev pub try_write : ℕ → Attempt
try_write n q buffer = write q buffer n >>= λ (q', result). some (q', result, buffer)

abbrev pub try_read : ℕ → Attempt
try_read n q buffer = read q buffer n

-- The arguments of a blocking call: the masks `readNotification` and `writeNotification`, the time,
-- and the flags.
pub record Blocking : Type 0 where
  pub count : ℕ
  pub read_notification : ℕ
  pub write_notification : ℕ
  pub timeout : ℕ
  pub ev_flag : Option Flag
  pub own_flag : Option Flag

unfoldable pub write_blocking : Blocking → ℕ → Queue → Option Memory → List Round → Outcome
unfolding blocking
write_blocking b start q buffer rounds =
    blocking (try_write b.count) b.read_notification b.write_notification b.count b.timeout
      b.ev_flag b.own_flag start q buffer rounds

unfoldable pub read_blocking : Blocking → ℕ → Queue → Option Memory → List Round → Outcome
unfolding blocking
read_blocking b start q buffer rounds =
    blocking (try_read b.count) b.write_notification b.read_notification b.count b.timeout b.ev_flag
      b.own_flag start q buffer rounds

-- The calls without masks use the queue's own flag and bits.
abbrev pub default_arguments : ℕ → ℕ → Option Flag → Blocking
default_arguments count timeout own_flag = record {
  count = count;
  read_notification = fmq_not_full;
  write_notification = fmq_not_empty;
  timeout = timeout;
  ev_flag = none;
  own_flag = own_flag;
}

unfoldable pub write_blocking_default :
    ℕ → ℕ → Option Flag → ℕ → Queue → Option Memory → List Round → Outcome
unfolding write_blocking
write_blocking_default count timeout own_flag =
    write_blocking (default_arguments count timeout own_flag)

unfoldable pub read_blocking_default :
    ℕ → ℕ → Option Flag → ℕ → Queue → Option Memory → List Round → Outcome
unfolding read_blocking
read_blocking_default count timeout own_flag =
    read_blocking (default_arguments count timeout own_flag)
