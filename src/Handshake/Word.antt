-- ===== src/Handshake/Word.antt =====
-- The futex word under the steps of a thread.
use android_system_libfmq.Base.{
  ℕ, ◌<◌, ◌^◌, ◌≡◌, inl, inr, refl, ap, ◌∙◌, arith, false, Option, none, some, ◌==◌, complement,
  bit, bit-lt, bit-zero, bit-bit_and, bit-complement, bit_ext, bit_and-lt,
}
use Prim.Native.Nat.{bit_and}
use mathlib.Core.Path.{subst}
use android_system_libfmq.Queue.{Queue}
use android_system_libfmq.EventFlag.{Returned, Futex, Timespec, wake, wait_helper, wait_woken}
use android_system_libfmq.EventFlag.Bits.{set_bit, bit_pos}
use android_system_libfmq.EventFlag.Wake.{wake_lem}
use android_system_libfmq.Blocking.{Attempt}
use android_system_libfmq.Handshake.{
  Phase, Move, calls, fails, succeeds, tries_last, finds, expects, sleeps, misses, returns, resumes,
  leaves_early, leaves, announces, defers, wakes,
}
use android_system_libfmq.Handshake.Inv.{Disjoint}

-- What a wait takes are not the bits of the other mask.
bits_stay :
    (w awaited mask : ℕ)
    → w < 2 ^ 32
    → awaited < 2 ^ 32
    → bit_and awaited mask ≡ 0
    → bit_and (bit_and w (complement 32 awaited)) mask ≡ bit_and w mask
bits_stay w awaited mask fits awaited_fits apart =
    bit_ext 32 _ _
      (bit_and-lt 32 (bit_and w (complement 32 awaited)) mask
        (bit_and-lt 32 w (complement 32 awaited) fits))
      (bit_and-lt 32 w mask fits)
      λ i h. omega (
        arith,
        bit-bit_and (bit_and w (complement 32 awaited)) mask i,
        bit-bit_and w (complement 32 awaited) i,
        bit-bit_and w mask i,
        bit-complement 32 awaited i awaited_fits h,
        bit-bit_and awaited mask i,
        ap (λ t. bit t i) apart ∙ bit-zero i,
        bit-lt awaited i,
        bit-lt w i,
        bit-lt mask i,
      )

-- `wake` leaves bits of its mask, and asks the kernel to wake threads for that mask unless all
-- its bits were set.
pub woken :
    (w mask : ℕ) (futex_wake : ℕ → Returned)
    → w < 2 ^ 32
    → 0 < mask
    → mask < 2 ^ 32
    → let (status, after, call) = wake w mask futex_wake in
      (after < 2 ^ 32)
      × (0 < bit_and after mask)
      × ((m : ℕ) → call ≡ some m → 0 < bit_and m mask)
      × (call ≡ none → 0 < bit_and w mask)
woken w mask futex_wake fits pos mask_fits =
    let (after_fits, bits, called) = wake_lem w mask futex_wake fits mask_fits in
    let (i, h, set) = set_bit 32 mask mask_fits pos in
    (
      after_fits,
      bit_pos _ i
          (omega (arith, bit-bit_and (wake w mask futex_wake).1 mask i, bits i, set, bit-lt w i)),
      λ m e. elim called [
        | inl deferred ↦ absurd (cc (e, deferred.0))
        | inr asked ↦
            let same : mask ≡ m = cc (e, asked.0) in
            subst (λ t. 0 < bit_and t mask) same
              (bit_pos (bit_and mask mask) i (omega (arith, bit-bit_and mask mask i, set)))
      ],
      λ e. elim called [
        | inl deferred ↦
            bit_pos _ i (omega (arith, bit-bit_and w mask i, deferred.2 i h, set, bit-lt w i))
        | inr asked ↦ cc (e, asked.0)
      ],
    )

module _ {awaited mask : ℕ} (masks : Disjoint awaited mask) where
  pub taken :
      (w : ℕ) → w < 2 ^ 32 → bit_and (bit_and w (complement 32 awaited)) mask ≡ bit_and w mask
  taken w fits = bits_stay w awaited mask fits masks.a_fits masks.apart

  pub found :
      (w old timeout : ℕ) (now : Timespec) (futex : Futex)
      → (bit_and w awaited == 0) ≡ false
      → (wait_helper w awaited (some old) timeout now futex).word
        ≡ bit_and w (complement 32 awaited)
  unfolding wait_helper
  found w old timeout now futex e =
      let some_awaited : (awaited == 0) ≡ false = ground (arith, masks) in
      rw (wait_helper, some_awaited, e) refl

  -- The word keeps its 32 bits.
  pub word_fits :
      {try : Attempt} {q q' : Queue} {w w' : ℕ} {call : Option ℕ} {p p' : Phase}
      → w < 2 ^ 32
      → Move try awaited mask q w p q' w' call p'
      → w' < 2 ^ 32
  unfolding wait_woken
  word_fits fits calls = fits
  word_fits fits (fails d e) = fits
  word_fits fits (succeeds d e) = fits
  word_fits fits tries_last = fits
  word_fits {w = w} fits (finds old timeout now futex e) =
      rw (found w old timeout now futex e) (bit_and-lt 32 w (complement 32 awaited) fits)
  word_fits {w = w} fits (expects e) = bit_and-lt 32 w (complement 32 awaited) fits
  word_fits fits (sleeps e) = fits
  word_fits fits (misses e) = fits
  word_fits fits returns = fits
  word_fits {w = w} fits resumes = bit_and-lt 32 w (complement 32 awaited) fits
  word_fits fits leaves_early = fits
  word_fits fits leaves = fits
  word_fits {w = w} fits (announces f e) =
      subst (λ t. t < 2 ^ 32) e.0 (woken w mask f fits masks.b_pos masks.b_fits).0
  word_fits {w = w} fits (defers f e) =
      subst (λ t. t < 2 ^ 32) e.0 (woken w mask f fits masks.b_pos masks.b_fits).0
  word_fits fits wakes = fits
