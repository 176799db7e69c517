-- ===== src/EventFlag/Wake.antt =====
-- `wake`, `waitHelper` and what they leave for each other.
use android_system_libfmq.Base.{
  ℕ, ◌+◌, ◌-◌, ◌^◌, ◌<◌, ◌≤◌, ◌≡◌, ◌≢◌, ◌⊎◌, ◌∙◌, refl, arith, false, Bool-cases, Option, none,
  some, inl, inr, if◌then◌else◌, ◌==◌, ◌↔◌, bit, bit-lt, bit-zero, ap, bit-bit_and, bit-bit_or,
  bit-complement, complement, bit_and-lt, bit_or-lt,
}
use Prim.Native.Nat.{bit_and, min, max}
use android_system_libfmq.EventFlag.{
  Status, no_error, interrupted, Timespec, Returned, success, failure, Futex, wake, WaitResult,
  wait_helper, wait_woken, add_nanoseconds_to_current_time,
}
use android_system_libfmq.EventFlag.Bits.{set_bit, bit_pos, taken-left, none_taken}

-- The kernel's errors are errors.
abbrev pub Refuses : Futex → Type 0
Refuses futex =
    (expected : ℕ) (until : Option Timespec) (mask : ℕ)
    → (futex expected until mask).returned ≢ failure no_error

-- What a wait that finds the word `found` takes, and leaves.
abbrev pub Takes : ℕ → ℕ → WaitResult → Type 0
Takes found mask r =
    (taken : ℕ) × (r.ef_state ≡ some taken)
    × ((i : ℕ) → i < 32 → bit r.word i + bit taken i ≡ bit found i)
    × ((i : ℕ) → bit taken i ≤ bit mask i)
    × ((r.status ≡ no_error) ↔ (0 < taken))

common-Takes :
    (found mask : ℕ)
    → mask < 2 ^ 32
    → 0 < bit_and found mask
    → Takes found mask (record {
      status = no_error;
      ef_state = some (bit_and found mask);
      word = bit_and found (complement 32 mask);
    })
common-Takes found mask h k = (
  bit_and found mask,
  refl,
  λ i j. taken-left found mask i h j,
  λ i. omega (arith, bit-bit_and found mask i),
  (λ _. k, λ _. refl),
)

nothing_taken :
    (found mask : ℕ) (status : Status)
    → status ≢ no_error
    → Takes found mask (record { status = status; ef_state = some 0; word = found })
nothing_taken found mask status h = (
  0,
  refl,
  λ i j. omega (arith, bit-zero i),
  λ i. omega (arith, bit-zero i),
  (λ e. absurd (h e), λ k. absurd (omega arith)),
)

interrupted≢no_error : interrupted ≢ no_error
interrupted≢no_error e = cc

wait_woken-Takes :
    (mask : ℕ) (r : Returned) (word : ℕ)
    → mask < 2 ^ 32
    → word < 2 ^ 32
    → r ≢ failure no_error
    → Takes word mask (wait_woken mask (record { returned = r; word = word }))
unfolding wait_woken
wait_woken-Takes mask (failure status) word h fits honest =
    nothing_taken word mask status (λ e. honest (ap failure e))
wait_woken-Takes mask success word h fits honest = elim (Bool-cases (bit_and word mask == 0)) [
  | inl p ↦
      let e : bit_and word mask ≡ 0 = ground arith in
      rw (p, e, none_taken word mask fits h e)
        (nothing_taken word mask interrupted interrupted≢no_error)
  | inr p ↦ rw p (common-Takes word mask h (ground arith))
]

-- The word that a wait finds: the one at the start where that has a bit of the mask, and otherwise
-- the one that the kernel leaves, which is asked to wait while the word is what it was.
abbrev pub found_word : ℕ → ℕ → ℕ → Timespec → Futex → ℕ
found_word word mask timeout now futex =
    if bit_and word mask == 0
    then (futex word
        (if timeout == 0 then none else some (add_nanoseconds_to_current_time timeout now))
        mask).word
    else word

-- A wait on a mask of some bits, with a place for the state, in a kernel whose failures are errors
-- and that leaves a word of 32 bits: it takes bits of the mask only; every bit of the word that it
-- finds is either taken or left; and it succeeds exactly if it takes a bit. The kernel waits for
-- the word that the wait found at first.
pub wait_helper-Takes :
    (word mask old timeout : ℕ) (now : Timespec) (futex : Futex)
    → word < 2 ^ 32
    → 0 < mask
    → mask < 2 ^ 32
    → Refuses futex
    → found_word word mask timeout now futex < 2 ^ 32
    → Takes
        (found_word word mask timeout now futex)
        mask
        (wait_helper word mask (some old) timeout now futex)
unfolding wait_helper
wait_helper-Takes word mask old timeout now futex fits pos mask_fits honest found =
    let nonzero : (mask == 0) ≡ false = ground arith in
    elim (Bool-cases (bit_and word mask == 0)) [
      | inl p ↦
          let e : bit_and word mask ≡ 0 = ground arith in
          rw (nonzero, p, none_taken word mask fits mask_fits e)
            (wait_woken-Takes mask _ _ mask_fits (rw p at found) (honest _ _ _))
      | inr p ↦ rw (nonzero, p) (common-Takes word mask mask_fits (ground arith))
    ]

-- Bit `i` of what the mask has and the word has not.
missing :
    (word mask i : ℕ)
    → word < 2 ^ 32
    → i < 32
    → bit (bit_and (complement 32 word) mask) i ≡ min (1 - bit word i) (bit mask i)
missing word mask i fits h =
    omega (arith, bit-bit_and (complement 32 word) mask i, bit-complement 32 word i fits h)

-- The kernel is called, on a mask of which some bit is clear in the word.
abbrev pub Calls : ℕ → ℕ → Option ℕ → Type 0
Calls word mask call =
    (call ≡ some mask) × ((i : ℕ) × (i < 32) × (bit word i ≡ 0) × (bit mask i ≡ 1))

-- It is not, as the word has all bits of the mask.
abbrev pub Deferred : ℕ → ℕ → Status → Option ℕ → Type 0
Deferred word mask status call =
    (call ≡ none) × (status ≡ no_error) × ((i : ℕ) → i < 32 → bit mask i ≤ bit word i)

-- `wake` on words of 32 bits: the bits of the mask are set and the others stay as they are; and
-- the kernel is asked to wake the threads that wait for the mask exactly if a bit of it was clear,
-- where otherwise the call succeeds.
pub wake_lem :
    (word mask : ℕ) (futex_wake : ℕ → Returned)
    → word < 2 ^ 32
    → mask < 2 ^ 32
    → let (status, after, call) = wake word mask futex_wake in
      (after < 2 ^ 32)
      × ((i : ℕ) → bit after i ≡ max (bit word i) (bit mask i))
      × (Deferred word mask status call ⊎ Calls word mask call)
unfolding wake
wake_lem word mask futex_wake fits mask_fits = elim (Bool-cases (mask == 0)) [
  | inl p ↦
      let e : mask ≡ 0 = ground arith in
      let clear : (i : ℕ) → bit mask i ≡ 0 = λ i. ap (λ t. bit t i) e ∙ bit-zero i in
      rw p (fits, λ i. omega (arith, clear i), inl (refl, refl, λ i h. omega (arith, clear i)))
  | inr p ↦ elim (Bool-cases (bit_and (complement 32 word) mask == 0)) [
    | inl q ↦
        let e : bit_and (complement 32 word) mask ≡ 0 = ground arith in
        rw (p, q)
          (
            bit_or-lt 32 word mask fits mask_fits,
            λ i. bit-bit_or word mask i,
            inl (
              refl,
              refl,
              λ i h. omega (
                arith,
                missing word mask i fits h,
                ap (λ t. bit t i) e ∙ bit-zero i,
                bit-lt word i,
                bit-lt mask i,
              ),
            ),
          )
    | inr q ↦
        let (i, h, set) =
          set_bit 32 (bit_and (complement 32 word) mask)
            (bit_and-lt 32 (complement 32 word) mask (omega arith)) (ground arith) in
        rw (p, q)
          (
            bit_or-lt 32 word mask fits mask_fits,
            λ i. bit-bit_or word mask i,
            inr (
              refl,
              (
                i,
                h,
                omega (arith, set, missing word mask i fits h),
                omega (arith, set, missing word mask i fits h, bit-lt mask i),
              ),
            ),
          )
  ]
]

-- No wake-up is lost: after `wake` on a mask, a wait on a mask that shares bit `i` with it returns
-- at once with that bit, whatever the kernel would do.
pub wake-wait_helper :
    (word mask other old timeout i : ℕ) (now : Timespec) (futex_wake : ℕ → Returned) (futex : Futex)
    → word < 2 ^ 32
    → mask < 2 ^ 32
    → bit mask i ≡ 1
    → bit other i ≡ 1
    → let (_, after, _) = wake word mask futex_wake in
      let r = wait_helper after other (some old) timeout now futex in
      (taken : ℕ) × (r.status ≡ no_error)
      × (r.ef_state ≡ some taken)
      × (bit taken i ≡ 1)
      × (r.word ≡ bit_and after (complement 32 other))
unfolding wait_helper
wake-wait_helper word mask other old timeout i now futex_wake futex fits mask_fits set wanted =
    let (status, after, call) = wake word mask futex_wake in
    let (_, bits, _) = wake_lem word mask futex_wake fits mask_fits in
    let common : bit (bit_and after other) i ≡ 1 =
      omega (arith, bit-bit_and after other i, bits i, bit-lt word i) in
    let p : (other == 0) ≡ false = ground (arith, bit_pos other i wanted) in
    let q : (bit_and after other == 0) ≡ false = ground (arith, bit_pos _ i common) in
    rw (p, q) (bit_and after other, refl, refl, common, refl)
