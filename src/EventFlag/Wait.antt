-- ===== src/EventFlag/Wait.antt =====
-- The loop of `wait`: it returns in time, and what it returns.
use android_system_libfmq.Base.{
  ℕ, ◌+◌, ◌-◌, ◌^◌, ◌<◌, ◌≤◌, ◌≡◌, ◌⊎◌, inl, inr, refl, ap, arith, true, false, not, Bool-cases,
  some, List, [], ◌∷◌, le-or-lt, ◌==◌, if◌then◌else◌,
}
use android_system_libfmq.Memory.{sub64}
use android_system_libfmq.EventFlag.{
  timed_out, Timespec, Returned, success, failure, Futex, WaitResult, wait_helper, wait_woken, Pass,
  WaitOutcome, finished, is_retried, wait_loop, wait, is_positive,
}
use Prim.Native.Nat.{bit_and}

-- The clock does not run backwards, nor out of its 63 bits.
abbrev pub Ticks : ℕ → List Pass → Type 0
Ticks prev [] = Unit
Ticks prev (p ∷ passes) = (prev ≤ p.elapsed) × (p.elapsed < 2 ^ 63) × Ticks p.elapsed passes

-- Some pass starts at the deadline or later.
abbrev pub Reaches : ℕ → List Pass → Type 0
Reaches deadline [] = ⊥
Reaches deadline (p ∷ passes) = (deadline ≤ p.elapsed) ⊎ Reaches deadline passes

-- A wait that returns, with a state and a status that is no reason to wait again.
abbrev pub Settles : WaitOutcome → Type 0
Settles outcome =
    (r : WaitResult) × (outcome ≡ finished r)
    × (is_retried r.status ≡ false)
    × ((t : ℕ) × (r.ef_state ≡ some t))

woken_state :
    (mask : ℕ) (r : Returned) (word : ℕ)
    → (t : ℕ) × ((wait_woken mask (record { returned = r; word = word })).ef_state ≡ some t)
unfolding wait_woken
woken_state mask (failure status) word = (0, refl)
woken_state mask success word = (bit_and word mask, refl)

-- A wait with a place for the state leaves a state.
helper_state :
    (word mask old timeout : ℕ) (now : Timespec) (futex : Futex)
    → (t : ℕ) × ((wait_helper word mask (some old) timeout now futex).ef_state ≡ some t)
unfolding wait_helper
helper_state word mask old timeout now futex = elim (Bool-cases (mask == 0)) [
  | inl p ↦ rw p (old, refl)
  | inr p ↦ elim (Bool-cases (bit_and word mask == 0)) [
    | inl q ↦ rw (p, q) (woken_state mask _ _)
    | inr q ↦ rw (p, q) (bit_and word mask, refl)
  ]
]

-- The time that is left before the deadline, which a later pass counts on.
pub left_before :
    (deadline prev elapsed : ℕ)
    → prev ≤ elapsed
    → elapsed < deadline
    → deadline < 2 ^ 63
    → (sub64 (deadline - prev) (sub64 elapsed prev) ≡ deadline - elapsed)
      × (is_positive (deadline - elapsed) ≡ true)
left_before deadline prev elapsed h k d = (omega arith, ground arith)

pub left_after :
    (deadline prev elapsed : ℕ)
    → prev ≤ elapsed
    → prev < deadline
    → deadline ≤ elapsed
    → deadline < 2 ^ 63
    → elapsed < 2 ^ 63
    → is_positive (sub64 (deadline - prev) (sub64 elapsed prev)) ≡ false
left_after deadline prev elapsed h j k d e = ground arith

wait_loop-Settles :
    (mask old deadline prev : ℕ) (passes : List Pass)
    → prev < deadline
    → deadline < 2 ^ 63
    → Ticks prev passes
    → Reaches deadline passes
    → Settles (wait_loop true (deadline - prev) prev mask (some old) passes)
unfolding wait_loop
wait_loop-Settles mask old deadline prev [] h d ticks reaches = absurd reaches
wait_loop-Settles mask old deadline prev (p ∷ passes) h d (later, fits, ticks) reaches =
    elim (le-or-lt deadline p.elapsed) [
      | inl over ↦
          rw (left_after deadline prev p.elapsed later h over d fits)
            (record { status = timed_out; ef_state = some 0; word = p.word }, refl, refl, (0, refl))
      | inr before ↦
          let (e, pos) = left_before deadline prev p.elapsed later before d in
          let helped = wait_helper p.word mask (some old) (deadline - p.elapsed) p.now p.futex in
          let (t, state) = helper_state p.word mask old (deadline - p.elapsed) p.now p.futex in
          let rest : Reaches deadline passes = elim reaches [
            | inl over ↦ absurd (omega arith)
            | inr r ↦ r
          ] in
          elim (Bool-cases (is_retried helped.status)) [
            | inl again ↦
                rw (e, pos, again, state)
                  (wait_loop-Settles mask t deadline p.elapsed passes before d ticks rest)
            | inr done ↦ rw (e, pos, done) (helped, refl, done, (t, state))
          ]
    ]

loop_from_start :
    (mask old timeout start : ℕ) (passes : List Pass)
    → 0 < timeout
    → start + timeout < 2 ^ 63
    → Ticks start passes
    → Reaches (start + timeout) passes
    → Settles (wait_loop true timeout start mask (some old) passes)
loop_from_start mask old timeout start passes pos fits ticks reaches =
    let left : start + timeout - start ≡ timeout = omega arith in
    rw left at
      (wait_loop-Settles mask old (start + timeout) start passes (omega arith) fits ticks reaches)

wait-wait_loop :
    (mask old timeout start : ℕ) (p : Pass) (passes : List Pass)
    → (timeout == 0) ≡ false
    → wait mask (some old) timeout true start (p ∷ passes)
      ≡ wait_loop true timeout start mask (some old) (p ∷ passes)
unfolding wait
wait-wait_loop mask old timeout start p passes e =
    ap (λ b. wait_loop (not b) timeout (if b then 0 else start) mask (some old) (p ∷ passes)) e

-- A `wait` with `retry` and a timeout, on a clock that does not run backwards nor leave its 63 bits:
-- once a pass starts at the deadline or later, the wait has returned, with a state, and
-- its status is neither `-EAGAIN` nor `-EINTR`, whatever the kernel and other threads did.
pub wait-Settles :
    (mask old timeout start : ℕ) (passes : List Pass)
    → 0 < timeout
    → start + timeout < 2 ^ 63
    → Ticks start passes
    → Reaches (start + timeout) passes
    → Settles (wait mask (some old) timeout true start passes)
wait-Settles mask old timeout start [] pos fits ticks reaches = absurd reaches
wait-Settles mask old timeout start (p ∷ passes) pos fits ticks reaches =
    rw (wait-wait_loop mask old timeout start p passes (ground arith))
      (loop_from_start mask old timeout start (p ∷ passes) pos fits ticks reaches)
