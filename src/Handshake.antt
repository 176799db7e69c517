-- ===== src/Handshake.antt =====
-- `writeBlocking` in one thread and `readBlocking` in another, on one synchronized queue and its
-- event flag (include/fmq/MessageQueueBase.h and EventFlag.cpp), in any interleaving: an attempt to
-- write or to read, an atomic operation on the futex word and a call of the kernel are one step
-- each. The bits that the one waits for are those that the other sets.
pub mod Inv
pub mod Own
pub mod Word
pub mod Told
pub mod Other
pub mod Attempts
pub mod Reach
pub mod Sleep
mod Tests
use android_system_libfmq.Base.{
  ℕ, ◌≡◌, Bool, true, false, Option, none, some, ◌==◌, if◌then◌else◌, complement,
}
use Prim.Native.Nat.{bit_and}
use android_system_libfmq.Memory.{Memory}
use android_system_libfmq.Queue.{Queue}
use android_system_libfmq.EventFlag.{
  Returned, Futex, Timespec, success, wake, wait_helper, wait_woken,
}
use android_system_libfmq.Blocking.{Attempt}

-- Where a thread is: not in a call; about to try; in `EventFlag::wait`, before its `fetch_and`,
-- before the kernel looks at the word that it expects, asleep, and back; and in `EventFlag::wake`,
-- before its `fetch_or`, and before its call of the kernel.
pub data Phase : Type 0 where
  outside attempting awaiting asleep roused announcing : Phase
  entering calling : ℕ → Phase

-- One step of a thread that waits for the bits `awaited` and sets those of `notification`, with the
-- mask that it has the kernel wake.
pub data Move (try : Attempt) (awaited notification : ℕ) (q : Queue) (w : ℕ)
    : Phase → Queue → ℕ → Option ℕ → Phase → Type 0 where
  calls : Move try awaited notification q w outside q w none attempting
  fails :
      (d : Memory) {q' : Queue} {d' : Option Memory}
      → try q (some d) ≡ some (q', false, d')
      → Move try awaited notification q w attempting q' w none awaiting
  succeeds :
      (d : Memory) {q' : Queue} {d' : Option Memory}
      → try q (some d) ≡ some (q', true, d')
      → Move try awaited notification q w attempting q' w none
          (if notification == 0 then outside else announcing)
  -- The time is over before it waits.
  tries_last : Move try awaited notification q w awaiting q w none attempting
  -- The wait finds a bit at once.
  finds :
      (old timeout : ℕ) (now : Timespec) (futex : Futex)
      → (bit_and w awaited == 0) ≡ false
      → Move try awaited notification q w awaiting q
          (wait_helper w awaited (some old) timeout now futex).word
          none
          attempting
  expects :
      (bit_and w awaited == 0) ≡ true
      → Move try awaited notification q w awaiting q
          (bit_and w (complement 32 awaited))
          none
          (entering (bit_and w (complement 32 awaited)))
  -- The kernel compares the word with what the thread expects.
  sleeps : {v : ℕ} → w ≡ v → Move try awaited notification q w (entering v) q w none asleep
  misses : {v : ℕ} → (w ≡ v → ⊥) → Move try awaited notification q w (entering v) q w none awaiting
  -- A return that nobody has asked for.
  returns : Move try awaited notification q w asleep q w none roused
  resumes :
      Move try awaited notification q w roused q
        (wait_woken awaited (record { returned = success; word = w })).word
        none
        (if bit_and w awaited == 0 then awaiting else attempting)
  -- The time is over in the wait, or the kernel reports an error.
  leaves_early : Move try awaited notification q w awaiting q w none outside
  leaves : Move try awaited notification q w asleep q w none outside
  announces :
      (futex_wake : ℕ → Returned) {after : ℕ} {mask : ℕ}
      → ((wake w notification futex_wake).1 ≡ after)
        × ((wake w notification futex_wake).2 ≡ some mask)
      → Move try awaited notification q w announcing q after none (calling mask)
  defers :
      (futex_wake : ℕ → Returned) {after : ℕ}
      → ((wake w notification futex_wake).1 ≡ after) × ((wake w notification futex_wake).2 ≡ none)
      → Move try awaited notification q w announcing q after none outside
  wakes : {mask : ℕ} → Move try awaited notification q w (calling mask) q w (some mask) outside

-- The kernel wakes a thread that sleeps for a bit of the mask.
unfoldable pub hear : ℕ → Option ℕ → Phase → Phase
hear awaited (some mask) asleep = if bit_and mask awaited == 0 then asleep else roused
hear awaited call p = p

-- The queue, the futex word, and the two threads.
pub record Pair : Type 0 where
  pub queue : Queue
  pub word : ℕ
  pub writer : Phase
  pub reader : Phase

-- `room` is the mask of the writer's wait, `content` that of the reader's.
pub data Step (try_write try_read : Attempt) (room content : ℕ) (s : Pair) : Pair → Type 0 where
  writes :
      {q : Queue} {w : ℕ} {call : Option ℕ} {p : Phase}
      → Move try_write room content s.queue s.word s.writer q w call p
      → Step try_write try_read room content s
          (record s { queue = q; word = w; writer = p; reader = hear content call s.reader })
  reads :
      {q : Queue} {w : ℕ} {call : Option ℕ} {p : Phase}
      → Move try_read content room s.queue s.word s.reader q w call p
      → Step try_write try_read room content s
          (record s { queue = q; word = w; writer = hear room call s.writer; reader = p })

pub data Steps (try_write try_read : Attempt) (room content : ℕ) (s : Pair) : Pair → Type 0 where
  here : Steps try_write try_read room content s s
  later :
      {t u : Pair}
      → Steps try_write try_read room content s t
      → Step try_write try_read room content t u
      → Steps try_write try_read room content s u

-- Neither thread in a call.
abbrev pub launch : Queue → ℕ → Pair
launch q w = record { queue = q; word = w; writer = outside; reader = outside }
