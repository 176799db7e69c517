-- ===== src/Handshake/Own.antt =====
-- A step of a thread keeps what holds of the thread.
use android_system_libfmq.Base.{
  ℕ, ◌<◌, ◌^◌, ◌≡◌, inl, inr, refl, ap, ◌∙◌, arith, Bool, true, false, Option, ◌==◌, eq_of_==,
  complement, if◌then◌else◌,
}
use Prim.Native.Nat.{bit_and}
use mathlib.Core.Path.{subst}
use android_system_libfmq.Queue.{Queue}
use android_system_libfmq.EventFlag.{wait_woken}
use android_system_libfmq.EventFlag.Bits.{none_taken}
use android_system_libfmq.Blocking.{Attempt}
use android_system_libfmq.Handshake.{
  Phase, outside, attempting, awaiting, asleep, roused, announcing, entering, Move, calls, fails,
  succeeds, tries_last, finds, expects, sleeps, misses, returns, resumes, leaves_early, leaves,
  announces, defers, wakes,
}
use android_system_libfmq.Handshake.Inv.{Disjoint, Told, Served, Tries}

-- The word of a wait that finds no bit.
expected_free :
    (w awaited : ℕ)
    → w < 2 ^ 32
    → awaited < 2 ^ 32
    → bit_and w awaited ≡ 0
    → bit_and (bit_and w (complement 32 awaited)) awaited ≡ 0
expected_free w awaited fits mask e =
    ap (λ t. bit_and t awaited) (none_taken w awaited fits mask e) ∙ e

module _ {try : Attempt} {Good Enough : Queue → Type 0} (tries : Tries Good Enough try)
    {awaited notification : ℕ} (masks : Disjoint awaited notification) where
  after_attempt :
      (q' : Queue) (w : ℕ) (other : Phase) (b : Bool)
      → Served awaited (Enough q') w other (if b then outside else announcing)
  after_attempt q' w other true = tt
  after_attempt q' w other false = tt

  -- The word without the bits of the mask, where a thread that is told is told by the other.
  still-Told :
      {E : Type 0} {w : ℕ} {other : Phase}
      → w < 2 ^ 32
      → bit_and w awaited ≡ 0
      → (E → Told awaited w other)
      → E
      → Told awaited (bit_and w (complement 32 awaited)) other
  still-Told fits e told enough = elim (told enough) [
    | inl pos ↦ absurd (omega (arith, e))
    | inr announced ↦ inr announced
  ]

  after_resume :
      {E : Type 0} (w : ℕ) (other : Phase) (b : Bool)
      → w < 2 ^ 32
      → (bit_and w awaited == 0) ≡ b
      → (E → Told awaited w other)
      → Served awaited E
          (bit_and w (complement 32 awaited))
          other
          (if b then awaiting else attempting)
  after_resume w other true fits e told = still-Told fits (eq_of_== e) told
  after_resume w other false fits e told = tt

  falls_asleep :
      {E : Type 0} (w v : ℕ) (other : Phase)
      → w ≡ v
      → Served awaited E w other (entering v)
      → Served awaited E w other asleep
  falls_asleep w v other same served =
      let free : bit_and w awaited ≡ 0 = ap (λ t. bit_and t awaited) same ∙ served.0 in
      inr (
        free,
        λ enough. elim (served.1 enough) [
          | inl pos ↦ absurd (omega (arith, free))
          | inr announced ↦ announced
        ],
      )

  gets_up :
      {E : Type 0} (w : ℕ) (other : Phase)
      → Served awaited E w other asleep
      → Served awaited E w other roused
  gets_up w other (inl (calling_now, pos)) = λ _. inl pos
  gets_up w other (inr (free, told)) = λ enough. inr (told enough)

  pub own :
      {q q' : Queue} {w w' : ℕ} {call : Option ℕ} {p p' : Phase} (other : Phase)
      → Good q
      → w < 2 ^ 32
      → Move try awaited notification q w p q' w' call p'
      → Served awaited (Enough q) w other p
      → Served awaited (Enough q') w' other p'
  unfolding wait_woken
  own other good fits calls served = tt
  own other good fits (fails d e) served =
      let (same, short) = tries.refused d good e in
      λ enough. absurd (short (subst Enough same enough))
  own {q' = q'} {w} other good fits (succeeds d e) served =
      after_attempt q' w other (notification == 0)
  own other good fits tries_last served = tt
  own other good fits (finds old timeout now futex e) served = tt
  own {w = w} other good fits (expects e) served =
      (expected_free w awaited fits masks.a_fits (eq_of_== e), still-Told fits (eq_of_== e) served)
  own {w = w} other good fits (sleeps {v} e) served = falls_asleep w v other e served
  own other good fits (misses e) served = served.1
  own {w = w} other good fits returns served = gets_up w other served
  own {w = w} other good fits resumes served =
      after_resume w other (bit_and w awaited == 0) fits refl served
  own other good fits leaves_early served = tt
  own other good fits leaves served = tt
  own other good fits (announces f e) served = tt
  own other good fits (defers f e) served = tt
  own other good fits wakes served = tt
