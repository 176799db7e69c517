-- ===== src/EventFlag.antt =====
-- `EventFlag` of EventFlag.cpp and include/fmq/EventFlag.h, in the build without `_MSC_VER`. The
-- futex word is shared: it may change between two atomic operations, so every operation takes the
-- value that it finds. The futex calls of the kernel are parameters. A signed 64-bit number is its
-- two's complement pattern; a status is named after the error that it negates.
pub mod Bits
pub mod Wake
pub mod Wait
pub mod Deadline
pub mod Lifetime
pub mod Threads
pub mod LostWake
mod Tests
use android_system_libfmq.Base.{
  ℕ, ◌/◌, ◌%◌, ◌^◌, Bool, true, false, not, ◌&&◌, Option, none, some, List, [], ◌∷◌, ltb, leb, ◌==◌,
  if◌then◌else◌, complement,
}
use android_system_libfmq.Memory.{add64, sub64}
use Prim.Native.Nat.{bit_and, bit_or}

-- `status_t`; `other_error` is any error that the code does not name.
pub data Status : Type 0 where
  no_error : Status
  bad_value : Status
  no_memory : Status
  would_block : Status
  interrupted : Status
  timed_out : Status
  other_error : ℕ → Status

pub record Timespec : Type 0 where
  pub tv_sec : ℕ
  pub tv_nsec : ℕ

-- A system call that fails leaves a negated `errno`.
pub data Returned : Type 0 where
  success : Returned
  failure : Status → Returned

-- What a wait in the kernel gives, and the futex word when the thread goes on.
pub record Woken : Type 0 where
  pub returned : Returned
  pub word : ℕ

-- `FUTEX_WAIT_BITSET` on an expected word, until a time or for ever, for the bits of a mask.
abbrev pub Futex : Type 0
Futex = ℕ → Option Timespec → ℕ → Woken

abbrev pub is_positive : ℕ → Bool
is_positive t = ltb 0 t && ltb t (2 ^ 63)

abbrev pub nanos_per_second : ℕ
nanos_per_second = 1000000000

-- Division of signed numbers by a positive one, which rounds towards zero, and its remainder.
abbrev pub signed_div : ℕ → ℕ → ℕ
signed_div a b = if ltb a (2 ^ 63) then a / b else sub64 0 (sub64 0 a / b)

abbrev pub signed_mod : ℕ → ℕ → ℕ
signed_mod a b = if ltb a (2 ^ 63) then a % b else sub64 0 (sub64 0 a % b)

-- The clock that `clock_gettime` reads is an argument.
unfoldable pub add_nanoseconds_to_current_time : ℕ → Timespec → Timespec
add_nanoseconds_to_current_time nanos now =
    let sec = add64 now.tv_sec (signed_div nanos nanos_per_second) in
    let nsec = add64 now.tv_nsec (signed_mod nanos nanos_per_second) in
    if leb nanos_per_second nsec && ltb nsec (2 ^ 63)
    then record { tv_sec = add64 sec 1; tv_nsec = sub64 nsec nanos_per_second }
    else record { tv_sec = sec; tv_nsec = nsec }

-- The status, the futex word, and the mask of the `FUTEX_WAKE_BITSET` call if there is one.
unfoldable pub wake : ℕ → ℕ → (ℕ → Returned) → Status × ℕ × Option ℕ
wake word bitmask futex_wake =
    if bitmask == 0
    then (no_error, word, none)
    else if bit_and (complement 32 word) bitmask == 0
    then (no_error, bit_or word bitmask, none)
    else (
      elim (futex_wake bitmask) [ success ↦ no_error | failure status ↦ status ],
      bit_or word bitmask,
      some bitmask,
    )

-- `efState` is a pointer: `none` is null, otherwise it holds a value.
pub record WaitResult : Type 0 where
  pub status : Status
  pub ef_state : Option ℕ
  pub word : ℕ

-- After the kernel has returned.
unfoldable pub wait_woken : ℕ → Woken → WaitResult
wait_woken bitmask w = elim w.returned [
  | failure status ↦ record { status = status; ef_state = some 0; word = w.word }
  | success ↦ record {
    status = if bit_and w.word bitmask == 0 then interrupted else no_error;
    ef_state = some (bit_and w.word bitmask);
    word = bit_and w.word (complement 32 bitmask);
  }
]

unfoldable pub wait_helper : ℕ → ℕ → Option ℕ → ℕ → Timespec → Futex → WaitResult
unfolding add_nanoseconds_to_current_time wait_woken
wait_helper word bitmask none timeout now futex = record {
  status = bad_value;
  ef_state = none;
  word = word;
}
wait_helper word bitmask (some ef_state) timeout now futex =
    if bitmask == 0
    then record { status = bad_value; ef_state = some ef_state; word = word }
    else if not (bit_and word bitmask == 0)
    then record {
      status = no_error;
      ef_state = some (bit_and word bitmask);
      word = bit_and word (complement 32 bitmask);
    }
    else wait_woken bitmask (
        futex (bit_and word (complement 32 bitmask))
          (if timeout == 0 then none else some (add_nanoseconds_to_current_time timeout now))
          bitmask)

-- One pass of the loop of `wait`: what `elapsedRealtimeNano` and `clock_gettime` give, the word
-- that the pass finds, and the kernel.
pub record Pass : Type 0 where
  pub elapsed : ℕ
  pub now : Timespec
  pub word : ℕ
  pub futex : Futex

-- `waiting` after all the passes that are given; `undefined` where the code writes to null.
pub data WaitOutcome : Type 0 where
  waiting : WaitOutcome
  undefined : WaitOutcome
  finished : WaitResult → WaitOutcome

abbrev pub is_retried : Status → Bool
is_retried would_block = true
is_retried interrupted = true
is_retried status = false

-- The loop of `wait`: the time that is left, the time of the pass before, and `*efState`.
unfoldable pub wait_loop : Bool → ℕ → ℕ → ℕ → Option ℕ → List Pass → WaitOutcome
unfolding wait_helper
wait_loop should_time_out timeout prev bitmask ef_state [] = waiting
wait_loop should_time_out timeout prev bitmask ef_state (p ∷ passes) =
    let left = if should_time_out then sub64 timeout (sub64 p.elapsed prev) else timeout in
    let helped = wait_helper p.word bitmask ef_state left p.now p.futex in
    let rest =
      wait_loop should_time_out left (if should_time_out then p.elapsed else prev) bitmask
        helped.ef_state passes in
    if should_time_out && not (is_positive left)
    then elim ef_state [
      | none ↦ undefined
      | some _ ↦ finished (record { status = timed_out; ef_state = some 0; word = p.word })
    ]
    else if is_retried helped.status
    then rest
    else finished helped

-- `wait`, that starts at the time `start`. Without `retry` there is one pass.
unfoldable pub wait : ℕ → Option ℕ → ℕ → Bool → ℕ → List Pass → WaitOutcome
unfolding wait_helper wait_loop
wait bitmask ef_state timeout retry start [] = waiting
wait bitmask ef_state timeout false start (p ∷ passes) =
    finished (wait_helper p.word bitmask ef_state timeout p.now p.futex)
wait bitmask ef_state timeout true start (p ∷ passes) =
    wait_loop (not (timeout == 0)) timeout (if timeout == 0 then 0 else start) bitmask ef_state
      (p ∷ passes)
