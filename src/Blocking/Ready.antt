-- ===== src/Blocking/Ready.antt =====
-- `writeBlocking` and `readBlocking` on queues that are ready.
use android_system_libfmq.Base.{
  ℕ, ◌+◌, ◌*◌, ◌<◌, ◌^◌, ◌≡◌, ◌⊎◌, inl, inr, refl, arith, true, false, Option, none, some, List,
  le-or-lt,
}
use android_system_libfmq.Memory.{Memory, word64}
use android_system_libfmq.Queue.{Queue, get_quantum_count}
use android_system_libfmq.Queue.Inv.{used}
use android_system_libfmq.Queue.Write.{written, write-written}
use android_system_libfmq.Queue.Read.{consumed, buffer_read, read-consumed}
use android_system_libfmq.Queue.Refine.{IsReady, write-full, read-short}
use android_system_libfmq.Blocking.{
  Round, returned, Blocking, try_write, try_read, blocking, write_blocking, read_blocking,
}
use android_system_libfmq.Blocking.Loop.{InTime, AllGood, Returns, Defined, blocking-Returns}

-- The buffer of a write stays as it is.
abbrev pub Same : Memory → Memory → Type 0
Same d d' = d' ≡ d

abbrev pub Any : Memory → Type 0
Any d = Unit

-- A queue of which a read of `n` messages does not wrap in bytes.
abbrev pub Readable : ℕ → Queue → Type 0
Readable n q = IsReady q × (n * q.quantum < word64)

write-Defined : (n : ℕ) (d : Memory) → Defined IsReady (Same d) (try_write n)
write-Defined n d q ready d' same = elim (le-or-lt (used q + n * q.quantum) q.size) [
  | inl h ↦ (
    written q n d',
    true,
    d',
    rw (write-written ready.valid n d' (omega arith) (λ _. h)) refl,
    same,
  )
  | inr h ↦ (q, false, d', rw (write-full ready n d' h) refl, same)
]

read-Defined : (n : ℕ) → Defined (Readable n) Any (try_read n)
read-Defined n q (ready, fits) d any = elim (le-or-lt (n * q.quantum) (used q)) [
  | inl h ↦
      (consumed q n, true, buffer_read q n d, read-consumed ready.valid n ready.in_step h d, tt)
  | inr h ↦ (q, false, d, read-short ready n d fits h, tt)
]

-- `writeBlocking` with a timeout, where every queue that it finds is synchronized, valid and not
-- overrun, and the system gives rounds, with a clock that does not run backwards, until one starts
-- at the deadline: it returns. With true, a `write` of the caller's messages to a queue
-- that is ready succeeded and gives the queue that it leaves, and it wakes the mask of
-- the readers unless that is 0; with false, it wakes nobody.
pub write_blocking-Returns :
    (b : Blocking) (start : ℕ) (q : Queue) (d : Memory) (rounds : List Round)
    → 0 < b.timeout
    → start + b.timeout < 2 ^ 63
    → InTime (start + b.timeout) start rounds
    → IsReady q
    → AllGood IsReady rounds
    → Returns IsReady
        (Same d)
        (try_write b.count)
        b.write_notification
        (write_blocking b start q (some d) rounds)
unfolding write_blocking
write_blocking-Returns b start q d rounds pos fits intime ready all =
    blocking-Returns IsReady (Same d) (try_write b.count) b.read_notification b.write_notification
      (write-Defined b.count d) b.count b.timeout start b.ev_flag b.own_flag q d rounds pos fits
      intime ready all refl

-- `readBlocking` with a timeout, where every queue that it finds is synchronized, valid and not
-- overrun, the message count does not wrap in bytes, and the system gives rounds, with a clock that
-- does not run backwards, until one starts at the deadline: it returns. With true, a
-- `read` from such a queue succeeded and gives the queue and the buffer that it leaves, and it
-- wakes the mask of the writers unless that is 0; with false, it wakes nobody.
pub read_blocking-Returns :
    (b : Blocking) (start : ℕ) (q : Queue) (d : Memory) (rounds : List Round)
    → 0 < b.timeout
    → start + b.timeout < 2 ^ 63
    → InTime (start + b.timeout) start rounds
    → Readable b.count q
    → AllGood (Readable b.count) rounds
    → Returns
        (Readable b.count)
        Any
        (try_read b.count)
        b.read_notification
        (read_blocking b start q (some d) rounds)
unfolding read_blocking
read_blocking-Returns b start q d rounds pos fits intime ready all =
    blocking-Returns (Readable b.count) Any (try_read b.count) b.write_notification
      b.read_notification (read-Defined b.count) b.count b.timeout start b.ev_flag b.own_flag q d
      rounds pos fits intime ready all tt

-- Without an event flag, or for more messages than the ring has room for, both return false at
-- once: they do not wait, touch the queue or the buffer, or wake anybody.
pub blocking_refuses :
    (b : Blocking) (start : ℕ) (q : Queue) (d : Option Memory) (rounds : List Round)
    → ((b.ev_flag ≡ none) × (b.own_flag ≡ none)) ⊎ (get_quantum_count q < b.count)
    → let refused = returned (record { result = false; queue = q; buffer = d; woken = none }) in
      (write_blocking b start q d rounds ≡ refused) × (read_blocking b start q d rounds ≡ refused)
unfolding write_blocking read_blocking blocking
blocking_refuses b start q d rounds (inl (e, o)) =
    (rw (blocking, e, o) refl, rw (blocking, e, o) refl)
blocking_refuses b start q d rounds (inr h) = (ground (arith), ground (arith))
