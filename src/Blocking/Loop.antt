-- ===== src/Blocking/Loop.antt =====
-- A blocking call with a timeout returns, and what it returns is true.
use android_system_libfmq.Base.{
  ℕ, ◌+◌, ◌-◌, ◌<◌, ◌≤◌, ◌^◌, ◌≡◌, ◌⊎◌, inl, inr, refl, arith, Bool, true, false, not, ◌&&◌, ◌||◌,
  Bool-cases, Option, none, some, List, [], ◌∷◌, ltb, ◌==◌, if◌then◌else◌, le-or-lt, is_some,
}
use android_system_libfmq.Memory.{Memory}
use android_system_libfmq.Queue.{Queue, get_quantum_count}
use android_system_libfmq.EventFlag.{WaitResult, finished}
use android_system_libfmq.EventFlag.Lifetime.{Flag}
use android_system_libfmq.EventFlag.Wait.{Ticks, Reaches, wait-Settles, left_before, left_after}
use android_system_libfmq.Blocking.{
  Round, Returned, Outcome, returned, Attempt, finish, attempt_or, is_no_error, has_bit, after_wait,
  blocking_loop, blocking,
}

-- The rounds that the system gives: the clock does not run backwards, the waits pass their
-- deadlines, and some round starts at the deadline or later.
abbrev pub InTime : ℕ → ℕ → List Round → Type 0
InTime deadline prev [] = ⊥
InTime deadline prev (r ∷ rounds) =
    (prev ≤ r.elapsed)
    × (r.elapsed < 2 ^ 63)
    × ((deadline ≤ r.elapsed)
        ⊎ ((r.wait_start + (deadline - r.elapsed) < 2 ^ 63)
            × Ticks r.wait_start r.passes
            × Reaches (r.wait_start + (deadline - r.elapsed)) r.passes
            × InTime deadline r.elapsed rounds))

abbrev pub AllGood : (Queue → Type 0) → List Round → Type 0
AllGood Good [] = Unit
AllGood Good (r ∷ rounds) = Good r.queue × AllGood Good rounds

-- A success is that of an attempt on a queue that was found, and the other side is woken; a
-- failure wakes nobody.
abbrev pub Honest : (Queue → Type 0) → (Memory → Type 0) → Attempt → ℕ → Returned → Type 0
Honest Good Kept try notification r =
    ((r.result ≡ true)
      × ((q : Queue) × Good q
          × ((d : Memory) × Kept d × (try q (some d) ≡ some (r.queue, true, r.buffer))))
      × (r.woken ≡ (if notification == 0 then none else some notification)))
    ⊎ ((r.result ≡ false) × (r.woken ≡ none))

abbrev pub Returns : (Queue → Type 0) → (Memory → Type 0) → Attempt → ℕ → Outcome → Type 0
Returns Good Kept try notification outcome =
    (r : Returned) × (outcome ≡ returned r) × Honest Good Kept try notification r

-- An attempt on a good queue is defined and keeps the buffer.
abbrev pub Defined : (Queue → Type 0) → (Memory → Type 0) → Attempt → Type 0
Defined Good Kept try =
    (q : Queue)
    → Good q
    → (d : Memory) → Kept d
    → (q' : Queue) × (result : Bool) × (d' : Memory) × (try q (some d) ≡ some (q', result, some d'))
      × Kept d'

module _ (Good : Queue → Type 0) (Kept : Memory → Type 0) (try : Attempt) (awaited notification : ℕ)
    (defined : Defined Good Kept try) where
  failed :
      (q : Queue) (buffer : Option Memory)
      → Returns Good Kept try notification (finish notification q false buffer)
  failed q buffer = (_, refl, inr (refl, refl))

  succeeded :
      (q q' : Queue) (d d' : Memory)
      → Good q
      → Kept d
      → try q (some d) ≡ some (q', true, some d')
      → Returns Good Kept try notification (finish notification q' true (some d'))
  succeeded q q' d d' good kept e = elim (Bool-cases (notification == 0)) [
    | inl p ↦ (_, refl, inl (refl, (q, good, (d, kept, e)), rw p refl))
    | inr p ↦ (_, refl, inl (refl, (q, good, (d, kept, e)), rw p refl))
  ]

  ended :
      (q q' : Queue) (d d' : Memory) (result : Bool)
      → Good q
      → Kept d
      → try q (some d) ≡ some (q', result, some d')
      → Returns Good Kept try notification (finish notification q' result (some d'))
  ended q q' d d' true good kept e = succeeded q q' d d' good kept e
  ended q q' d d' false good kept e = failed q' (some d')

  tried :
      (q q' : Queue) (d d' : Memory) (result : Bool) (rest : Outcome)
      → Good q
      → Kept d
      → try q (some d) ≡ some (q', result, some d')
      → Returns Good Kept try notification rest
      → Returns Good Kept try notification
          (attempt_or notification (some (q', result, some d')) rest)
  tried q q' d d' true rest good kept e h = succeeded q q' d d' good kept e
  tried q q' d d' false rest good kept e h = h

  -- A round after its wait has returned.
  woke :
      (q q' : Queue) (d d' : Memory) (result : Bool) (w : WaitResult) (rest again : Outcome)
      → Good q
      → Kept d
      → try q (some d) ≡ some (q', result, some d')
      → Returns Good Kept try notification rest
      → Returns Good Kept try notification again
      → Returns Good Kept try notification (
          after_wait awaited notification q
            (some d)
            (some (q', result, some d'))
            (finished w)
            rest
            again)
  unfolding after_wait
  woke q q' d d' result w rest again good kept e h k = elim (Bool-cases (is_no_error w.status)) [
    | inr p ↦ rw p (failed q (some d))
    | inl p ↦ elim (Bool-cases (has_bit awaited w)) [
      | inl b ↦ rw (p, b) (tried q q' d d' result rest good kept e h)
      | inr b ↦ rw (p, b) k
    ]
  ]

  pub blocking_loop-Returns :
      (deadline prev : ℕ) (d : Memory) (rounds : List Round)
      → prev < deadline
      → deadline < 2 ^ 63
      → InTime deadline prev rounds
      → AllGood Good rounds
      → Kept d
      → Returns Good Kept try notification
          (blocking_loop try awaited notification true (deadline - prev) prev (some d) rounds)
  unfolding blocking_loop
  blocking_loop-Returns deadline prev d [] h fits intime good kept = absurd intime
  blocking_loop-Returns deadline prev d (r ∷ rounds) h fits (later, small, intime) (good, all)
        kept =
      let (q', result, d', e, kept') = defined r.queue good d kept in
      elim (le-or-lt deadline r.elapsed) [
        | inl over ↦
            rw (left_after deadline prev r.elapsed later h over fits small, e)
              (ended r.queue q' d d' result good kept e)
        | inr before ↦ elim intime [
          | inl over ↦ absurd (omega arith)
          | inr (near, ticks, reaches, next) ↦
              let (left, pos) = left_before deadline prev r.elapsed later before fits in
              let (w, woken, _, _) =
                wait-Settles awaited 0 (deadline - r.elapsed) r.wait_start r.passes (omega arith)
                  near ticks reaches in
              rw (left, pos, woken, e)
                (woke r.queue q' d d' result w _ _ good kept e
                  (blocking_loop-Returns deadline r.elapsed d' rounds before fits next all kept')
                  (blocking_loop-Returns deadline r.elapsed d rounds before fits next all kept))
        ]
      ]

  loop_from_start :
      (timeout start : ℕ) (d : Memory) (rounds : List Round)
      → 0 < timeout
      → start + timeout < 2 ^ 63
      → InTime (start + timeout) start rounds
      → AllGood Good rounds
      → Kept d
      → Returns Good Kept try notification
          (blocking_loop try awaited notification true timeout start (some d) rounds)
  loop_from_start timeout start d rounds pos fits intime all kept =
      let left : start + timeout - start ≡ timeout = omega arith in
      rw left at
        (blocking_loop-Returns (start + timeout) start d rounds (omega arith) fits intime all kept)

  -- A whole blocking call.
  pub blocking-Returns :
      (count timeout start : ℕ) (ev_flag own_flag : Option Flag) (q : Queue) (d : Memory)
      (rounds : List Round)
      → 0 < timeout
      → start + timeout < 2 ^ 63
      → InTime (start + timeout) start rounds
      → Good q
      → AllGood Good rounds
      → Kept d
      → Returns Good Kept try notification
          (blocking try awaited notification count timeout ev_flag own_flag start q (some d) rounds)
  unfolding blocking
  blocking-Returns count timeout start ev_flag own_flag q d rounds pos fits intime good all kept =
      let (q', result, d', e, kept') = defined q good d kept in
      let late : (timeout == 0) ≡ false = ground arith in
      elim (Bool-cases (not (is_some ev_flag) && not (is_some own_flag))) [
        | inl p ↦ rw (blocking, p) (failed q (some d))
        | inr p ↦ elim (Bool-cases ((awaited == 0) || ltb (get_quantum_count q) count)) [
          | inl r ↦ rw (blocking, p, r) (failed q (some d))
          | inr r ↦
              rw (blocking, p, r, e, late)
                (tried q q' d d' result _ good kept e
                  (loop_from_start timeout start d' rounds pos fits intime all kept'))
        ]
      ]
