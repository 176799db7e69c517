-- ===== src/Handshake/Sleep.antt =====
-- A blocking writer and a blocking reader do not both sleep, and neither sleeps for nothing.
use android_system_libfmq.Base.{
  ℕ, ◌+◌, ◌*◌, ◌/◌, ◌%◌, ◌^◌, ◌<◌, ◌≤◌, ◌≡◌, ◌⊎◌, inl, inr, arith, div-mul_of_mod, mul-le-mul,
  le-or-lt,
}
use mathlib.Core.Path.{subst}
use android_system_libfmq.Memory.{word64}
use android_system_libfmq.Queue.{Queue}
use android_system_libfmq.Queue.Inv.{used}
use android_system_libfmq.Queue.Refine.{IsReady}
use android_system_libfmq.Concurrent.Drain.{used-whole}
use android_system_libfmq.Blocking.{try_write, try_read}
use android_system_libfmq.Handshake.{Phase, asleep, announcing, Pair, Steps, launch}
use android_system_libfmq.Handshake.Inv.{Disjoint, IsCalling, Served}
use android_system_libfmq.Handshake.Attempts.{Usable, HasRoom, HasContent}
use android_system_libfmq.Handshake.Reach.{Inv, Steps-Inv, launch-Inv}

-- A thread that sleeps although there is enough is about to be woken.
sleeper_told :
    (mask : ℕ) (E : Type 0) (w : ℕ) (other : Phase)
    → Served mask E w other asleep
    → E
    → (other ≡ announcing) ⊎ IsCalling mask other
sleeper_told mask E w other (inl (calling_it, pos)) enough = inr calling_it
sleeper_told mask E w other (inr (free, told)) enough = inl (told enough)

-- With `k` messages of capacity and `u` of them used, there is room for `n` or content for `m`.
multiples :
    (n m k u quantum : ℕ)
    → 0 < quantum
    → (n + m) * quantum ≤ k * quantum + quantum
    → (u * quantum + n * quantum ≤ k * quantum) ⊎ (m * quantum ≤ u * quantum)
multiples n m k u quantum pos capacity = elim (le-or-lt m u) [
  | inl content ↦ inr (mul-le-mul quantum content)
  | inr short ↦ elim (le-or-lt (u + n) k) [
    | inl room ↦ inl (omega (arith, mul-le-mul quantum room))
    | inr full ↦
        let least : (k + 2) * quantum ≤ (n + m) * quantum = mul-le-mul quantum (omega arith) in
        absurd (omega arith)
  ]
]

-- With this capacity there is always enough for one of the two.
enough_for_one :
    (nw nr : ℕ) (q : Queue)
    → IsReady q
    → word64 % q.size ≡ 0
    → (nw + nr) * q.quantum ≤ q.size + q.quantum
    → HasRoom nw q ⊎ HasContent nr q
enough_for_one nw nr q ready wraps capacity =
    let size_whole = div-mul_of_mod q.size q.quantum ready.valid.whole in
    let used_whole = div-mul_of_mod (used q) q.quantum (used-whole ready (inl wraps)) in
    elim (multiples nw nr (q.size / q.quantum) (used q / q.quantum) q.quantum
      ready.valid.quantum_pos (omega (arith, size_whole))) [
        | inl room ↦ inl (omega (arith, room, size_whole, used_whole))
        | inr content ↦ inr (omega (arith, content, used_whole))
      ]

-- One that sleeps does not tell the other.
not_told : (mask : ℕ) (p : Phase) → p ≡ asleep → (p ≡ announcing) ⊎ IsCalling mask p → ⊥
not_told mask p sleeping (inl announces) = cc (sleeping, announces)
not_told mask p sleeping (inr (m, calls, common)) = cc (sleeping, calls)

module _ (nw nr room content w : ℕ) (first : Queue) {t : Pair} (masks : Disjoint room content)
    (usable : Usable nr first first) (fits : w < 2 ^ 32)
    (steps : Steps (try_write nw) (try_read nr) room content (launch first w) t) where
  reached : Inv nw nr room content masks first t
  reached =
      Steps-Inv nw nr room content masks first steps
        (launch-Inv nw nr room content masks first w fits usable)

  -- A sleeping reader is not forgotten: `write_blocking` of `nw` messages in one thread and
  -- `read_blocking` of `nr`, which have fewer than `2 ^ 64` bytes, in another, from any word of 32
  -- bits and any synchronized queue that is ready, whose size divides `2 ^ 64`, with masks of 32 bits
  -- that are not 0 and share no bit, in any interleaving of their attempts, steps on the word, calls
  -- of the kernel, spurious returns and time-outs: if the reader sleeps although the queue has `nr`
  -- messages, then the writer is about to set the bits that the reader waits for, or about to have
  -- the kernel wake it.
  pub sleeping_reader_told :
      t.reader ≡ asleep
      → HasContent nr t.queue
      → (t.writer ≡ announcing) ⊎ IsCalling content t.writer
  sleeping_reader_told sleeping = sleeper_told content (HasContent nr t.queue) t.word t.writer (
      subst (Served content (HasContent nr t.queue) t.word t.writer) sleeping reached.reader_served)

  -- The same of a sleeping writer, and of room for its messages.
  pub sleeping_writer_told :
      t.writer ≡ asleep → HasRoom nw t.queue → (t.reader ≡ announcing) ⊎ IsCalling room t.reader
  sleeping_writer_told sleeping =
      sleeper_told room (HasRoom nw t.queue) t.word t.reader
        (subst (Served room (HasRoom nw t.queue) t.word t.reader) sleeping reached.writer_served)

  -- There is no deadlock: `write_blocking` of `nw` messages in one thread and `read_blocking` of
  -- `nr`, which have fewer than `2 ^ 64` bytes, in another, from any word of 32 bits and any
  -- synchronized queue that is ready, whose size divides `2 ^ 64` and holds at least `nw + nr - 1`
  -- messages, with masks of 32 bits that are not 0 and share no bit, never sleep at the same time,
  -- in any interleaving of their attempts, steps on the word, calls of the kernel, spurious returns
  -- and time-outs.
  pub no_deadlock :
      (nw + nr) * first.quantum ≤ first.size + first.quantum
      → ¬ ((t.writer ≡ asleep) × (t.reader ≡ asleep))
  no_deadlock capacity (writer_sleeps, reader_sleeps) =
      let kept : (nw + nr) * t.queue.quantum ≤ t.queue.size + t.queue.quantum =
        rw (reached.usable.same_size, reached.usable.same_quantum) capacity in
      elim (enough_for_one nw nr t.queue reached.usable.ready reached.usable.wraps kept) [
        | inl enough ↦
            not_told room t.reader reader_sleeps (sleeping_writer_told writer_sleeps enough)
        | inr enough ↦
            not_told content t.writer writer_sleeps (sleeping_reader_told reader_sleeps enough)
      ]
