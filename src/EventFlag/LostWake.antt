-- ===== src/EventFlag/LostWake.antt =====
-- No wake-up is lost: nobody sleeps for a bit that is set, unless a thread that has set it is about
-- to call the kernel.
use android_system_libfmq.Base.{
  ℕ, ◌^◌, ◌<◌, ◌≤◌, ◌≡◌, ◌⊎◌, inl, inr, sym, ap, ◌∙◌, arith, false, Bool-cases, Option, none, some,
  List, [], ◌∷◌, ◌++◌, ◌==◌, le-or-lt, complement, bit, bit-lt, bit-zero, bit-bit_and,
  bit-complement, bit_and-lt,
}
use android_system_libfmq.EventFlag.{
  Returned, success, failure, Timespec, Futex, wake, wait_helper, wait_woken,
}
use android_system_libfmq.EventFlag.Bits.{set_bit, bit_pos}
use android_system_libfmq.EventFlag.Wake.{wake_lem}
use android_system_libfmq.EventFlag.Threads.{
  Kernel, KernelLaws, Shared, added, Step, sets, wakes, takes, sleeps, leaves, resumes, Steps, here,
  later,
}
use Prim.Native.Nat.{bit_and}
use mathlib.Core.Path.{subst}

-- A bit that two words have in common.
common_bit :
    (a b : ℕ) → a < 2 ^ 32 → 0 < bit_and a b → (i : ℕ) × (i < 32) × (bit a i ≡ 1) × (bit b i ≡ 1)
common_bit a b fits pos =
    let (i, h, set) = set_bit 32 (bit_and a b) (bit_and-lt 32 a b fits) pos in
    let both = bit-bit_and a b i in
    (i, h, omega (arith, set, both, bit-lt a i), omega (arith, set, both, bit-lt b i))

no_common_bit : (a b i : ℕ) → bit_and a b ≡ 0 → bit b i ≡ 1 → bit a i ≡ 0
no_common_bit a b i e set =
    omega (arith, bit-bit_and a b i, set, ap (λ t. bit t i) e ∙ bit-zero i, bit-lt a i)

-- Fewer bits have no more in common.
fewer_bits :
    (less more mask : ℕ)
    → less < 2 ^ 32
    → ((i : ℕ) → i < 32 → bit less i ≤ bit more i)
    → bit_and more mask ≡ 0
    → bit_and less mask ≡ 0
fewer_bits less more mask fits below e = elim (le-or-lt (bit_and less mask) 0) [
  | inl h ↦ omega arith
  | inr pos ↦
      let (i, h, set, wanted) = common_bit less mask fits pos in
      absurd (omega (arith, set, below i h, no_common_bit more mask i e wanted))
]

without : (word mask i : ℕ) → bit (bit_and word (complement 32 mask)) i ≤ bit word i
without word mask i = omega (arith, bit-bit_and word (complement 32 mask) i)

-- A thread in `wake` has a bit of the mask `m`, and is about to call the kernel.
abbrev pub Announced : List ℕ → ℕ → Type 0
Announced [] m = ⊥
Announced (p ∷ ps) m = (0 < bit_and p m) ⊎ Announced ps m

still-Announced :
    (before : List ℕ) (mask : ℕ) (after : List ℕ) (m : ℕ)
    → bit_and mask m ≡ 0
    → Announced (before ++ mask ∷ after) m
    → Announced (before ++ after) m
still-Announced [] mask after m e (inl pos) = absurd (omega (arith, e, pos))
still-Announced [] mask after m e (inr rest) = rest
still-Announced (p ∷ ps) mask after m e (inl pos) = inl pos
still-Announced (p ∷ ps) mask after m e (inr rest) = inr (still-Announced ps mask after m e rest)

module _ (k : Kernel) (laws : KernelLaws k) where
  pub record IsAwake (s : Shared k) : Type 0 where
    pub fits : s.word < 2 ^ 32
    pub covered : (i m : ℕ) → k.asleep s.queue i m → (bit_and s.word m ≡ 0) ⊎ Announced s.pending m

  -- The word loses bits, and nothing else changes.
  loses :
      {s : Shared k} (word : ℕ)
      → word < 2 ^ 32
      → ((i : ℕ) → i < 32 → bit word i ≤ bit s.word i)
      → IsAwake s
      → IsAwake (record s { word = word })
  loses {s} word fits below inv = record {
    fits = fits;
    covered = λ i m h. elim (inv.covered i m h) [
      | inl free ↦ inl (fewer_bits word s.word m fits below free)
      | inr told ↦ inr told
    ];
  }

  took :
      (word mask old timeout : ℕ) (now : Timespec) (futex : Futex)
      → word < 2 ^ 32
      → (bit_and word mask == 0) ≡ false
      → let after = (wait_helper word mask (some old) timeout now futex).word in
        (after < 2 ^ 32) × ((i : ℕ) → i < 32 → bit after i ≤ bit word i)
  unfolding wait_helper
  took word mask old timeout now futex fits some_bit = elim (Bool-cases (mask == 0)) [
    | inl p ↦ rw p (fits, λ i h. omega arith)
    | inr p ↦
        rw (p, some_bit) (bit_and-lt 32 word (complement 32 mask) fits, λ i h. without word mask i)
  ]

  resumed :
      (word mask : ℕ) (returned : Returned)
      → word < 2 ^ 32
      → let after = (wait_woken mask (record { returned = returned; word = word })).word in
        (after < 2 ^ 32) × ((i : ℕ) → i < 32 → bit after i ≤ bit word i)
  unfolding wait_woken
  resumed word mask success fits =
      (bit_and-lt 32 word (complement 32 mask) fits, λ i h. without word mask i)
  resumed word mask (failure status) fits = (fits, λ i h. omega arith)

  -- After the `fetch_or` of `wake`.
  told :
      (word mask m : ℕ) (futex_wake : ℕ → Returned) (pending : List ℕ)
      → word < 2 ^ 32
      → mask < 2 ^ 32
      → bit_and word m ≡ 0
      → let (status, after, call) = wake word mask futex_wake in
        (bit_and after m ≡ 0) ⊎ Announced (added call pending) m
  told word mask m futex_wake pending fits mask_fits free =
      let (status, after, call) = wake word mask futex_wake in
      let (after_fits, bits, called) = wake_lem word mask futex_wake fits mask_fits in
      elim (le-or-lt (bit_and after m) 0) [
        | inl none_set ↦ inl (omega arith)
        | inr pos ↦
            let (i, h, set, wanted) = common_bit after m after_fits pos in
            let clear = no_common_bit word m i free wanted in
            elim called [
              | inl deferred ↦ absurd (omega (arith, set, bits i, clear, deferred.2 i h))
              | inr calls ↦
                  let common : 0 < bit_and mask m =
                    bit_pos (bit_and mask m) i
                      (omega (arith, bit-bit_and mask m i, set, wanted, bits i, clear)) in
                  inr (subst (λ t. Announced (added t pending) m) (sym calls.0) (inl common))
            ]
      ]

  added-Announced :
      (call : Option ℕ) (pending : List ℕ) (m : ℕ)
      → Announced pending m
      → Announced (added call pending) m
  added-Announced none pending m h = h
  added-Announced (some p) pending m h = inr h

  -- The word that a wait expects has no bit of its mask.
  expected_free :
      (word found mask : ℕ)
      → word < 2 ^ 32
      → mask < 2 ^ 32
      → word ≡ bit_and found (complement 32 mask)
      → bit_and word mask ≡ 0
  expected_free word found mask fits mask_fits e = elim (le-or-lt (bit_and word mask) 0) [
    | inl h ↦ omega arith
    | inr pos ↦
        let (i, h, set, wanted) = common_bit word mask fits pos in
        absurd (
          omega (
            arith,
            set,
            wanted,
            ap (λ t. bit t i) e,
            bit-bit_and found (complement 32 mask) i,
            bit-complement 32 mask i mask_fits h,
          ))
  ]

  Step-IsAwake : {s t : Shared k} → Step k s t → IsAwake s → IsAwake t
  Step-IsAwake {s} (sets mask futex_wake h) inv = record {
    fits = (wake_lem s.word mask futex_wake inv.fits h).0;
    covered = λ i m a. elim (inv.covered i m a) [
      | inl free ↦ told s.word mask m futex_wake s.pending inv.fits h free
      | inr t ↦ inr (added-Announced _ s.pending m t)
    ];
  }
  Step-IsAwake {s} (wakes before mask after e) inv = record {
    fits = inv.fits;
    covered = λ i m a.
        let (slept, missed) = laws.wakes mask s.queue i m a in
        elim (inv.covered i m slept) [
          | inl free ↦ inl free
          | inr t ↦
              inr (still-Announced before mask after m missed (subst (λ ps. Announced ps m) e t))
        ];
  }
  Step-IsAwake {s} (takes mask old timeout now futex some_bit) inv =
      let (fits, below) = took s.word mask old timeout now futex inv.fits some_bit in
      loses _ fits below inv
  Step-IsAwake {s} (sleeps i mask word h e) inv = record {
    fits = inv.fits;
    covered = λ j m a. elim (laws.sleeps i mask s.queue j m a) [
      | inl slept ↦ inv.covered j m slept
      | inr same ↦ inl (ap (bit_and s.word) same ∙ expected_free s.word word mask inv.fits h e)
    ];
  }
  Step-IsAwake {s} (leaves i) inv = record {
    fits = inv.fits;
    covered = λ j m a. inv.covered j m (laws.leaves i s.queue j m a);
  }
  Step-IsAwake {s} (resumes mask returned) inv =
      let (fits, below) = resumed s.word mask returned inv.fits in loses _ fits below inv

  Steps-IsAwake : {s t : Shared k} → Steps k s t → IsAwake s → IsAwake t
  Steps-IsAwake here inv = inv
  Steps-IsAwake (later run step) inv = Step-IsAwake step (Steps-IsAwake run inv)

  -- Where the kernel keeps nobody asleep but by a call for it, and nobody whom a wake-up is for:
  -- from a word of 32 bits, with nobody asleep and nobody in `wake`, after any interleaving of the
  -- atomic operations of `wake` and `wait` and of their futex calls, a thread that sleeps for a
  -- mask finds no bit of it in the word, unless a thread that has set a bit of it is about to wake
  -- it.
  pub no_lost_wake :
      {s t : Shared k}
      → s.word < 2 ^ 32
      → ((i m : ℕ) → k.asleep s.queue i m → ⊥)
      → Steps k s t
      → (i m : ℕ) → k.asleep t.queue i m
      → (bit_and t.word m ≡ 0) ⊎ Announced t.pending m
  no_lost_wake fits nobody run =
      (Steps-IsAwake run (record { fits = fits; covered = λ i m a. absurd (nobody i m a) })).covered
