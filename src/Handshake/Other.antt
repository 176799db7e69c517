-- ===== src/Handshake/Other.antt =====
-- A step of a thread keeps what holds of the other thread.
use android_system_libfmq.Base.{
  ℕ, ◌<◌, ◌^◌, ◌≡◌, refl, sym, arith, Bool, true, false, Option, ◌==◌, eq_of_==, complement,
  if◌then◌else◌,
}
use Prim.Native.Nat.{bit_and}
use mathlib.Core.Path.{subst}
use android_system_libfmq.Queue.{Queue}
use android_system_libfmq.EventFlag.{wait_woken}
use android_system_libfmq.Blocking.{Attempt}
use android_system_libfmq.Handshake.{
  Phase, outside, attempting, awaiting, asleep, roused, announcing, entering, hear, Move, calls,
  fails, succeeds, tries_last, finds, expects, sleeps, misses, returns, resumes, leaves_early,
  leaves, announces, defers, wakes,
}
use android_system_libfmq.Handshake.Inv.{Disjoint, Served, Tries}
use android_system_libfmq.Handshake.Word.{woken, taken, found}
use android_system_libfmq.Handshake.Told.{IsQuiet, unmoved, told_soon, announced, deferred, hears}

IsQuiet-attempting : IsQuiet attempting
IsQuiet-attempting = (λ e. cc e, λ m e. cc e)

IsQuiet-awaiting : IsQuiet awaiting
IsQuiet-awaiting = (λ e. cc e, λ m e. cc e)

module _ {try : Attempt} {Good Own : Queue → Type 0} (Enough : Queue → Type 0)
    (tries : Tries Good Own try) {awaited mask : ℕ} (masks : Disjoint awaited mask) where
  succeeded :
      (q q' : Queue) (w : ℕ) (other : Phase) (b : Bool)
      → (mask == 0) ≡ b
      → Served mask (Enough q) w attempting other
      → Served mask (Enough q') w (if b then outside else announcing) other
  succeeded q q' w other true e served = absurd (omega (arith, masks.b_pos, eq_of_== e))
  succeeded q q' w other false e served =
      told_soon mask (Enough q) (Enough q') w other IsQuiet-attempting served

  pub other_served :
      {q q' : Queue} {w w' : ℕ} {call : Option ℕ} {p p' : Phase} (other : Phase)
      → Good q
      → w < 2 ^ 32
      → Move try awaited mask q w p q' w' call p'
      → Served mask (Enough q) w p other
      → Served mask (Enough q') w' p' (hear mask call other)
  unfolding hear wait_woken
  other_served {q} {w = w} other good fits calls served =
      unmoved mask (Enough q) w w attempting refl (λ e. cc e, λ m e. cc e) other served
  other_served {q} {w = w} other good fits (fails d e) served =
      let (same, short) = tries.refused d good e in
      subst (λ x. Served mask (Enough x) w awaiting other) (sym same)
        (unmoved mask (Enough q) w w awaiting refl IsQuiet-attempting other served)
  other_served {q} {q'} {w} other good fits (succeeds d e) served =
      succeeded q q' w other (mask == 0) refl served
  other_served {q} {w = w} other good fits tries_last served =
      unmoved mask (Enough q) w w attempting refl IsQuiet-awaiting other served
  other_served {q} {w = w} other good fits (finds old timeout now futex e) served =
      rw (found masks w old timeout now futex e) (
        unmoved mask (Enough q) w (bit_and w (complement 32 awaited)) attempting
          (taken masks w fits) IsQuiet-awaiting other served)
  other_served {q} {w = w} other good fits (expects e) served =
      unmoved mask (Enough q) w (bit_and w (complement 32 awaited)) (entering _)
        (taken masks w fits) IsQuiet-awaiting other served
  other_served {q} {w = w} other good fits (sleeps e) served =
      unmoved mask (Enough q) w w asleep refl (λ e. cc e, λ m e. cc e) other served
  other_served {q} {w = w} other good fits (misses e) served =
      unmoved mask (Enough q) w w awaiting refl (λ e. cc e, λ m e. cc e) other served
  other_served {q} {w = w} other good fits returns served =
      unmoved mask (Enough q) w w roused refl (λ e. cc e, λ m e. cc e) other served
  other_served {q} {w = w} other good fits resumes served =
      unmoved mask (Enough q) w (bit_and w (complement 32 awaited)) _ (taken masks w fits)
        (λ e. cc e, λ m e. cc e) other served
  other_served {q} {w = w} other good fits leaves_early served =
      unmoved mask (Enough q) w w outside refl IsQuiet-awaiting other served
  other_served {q} {w = w} other good fits leaves served =
      unmoved mask (Enough q) w w outside refl (λ e. cc e, λ m e. cc e) other served
  other_served {q} {w = w} {w'} other good fits (announces f {mask = m} e) served =
      let (after_fits, pos, asked, clear) = woken w mask f fits masks.b_pos masks.b_fits in
      announced mask (Enough q) w w' m other (subst (λ t. 0 < bit_and t mask) e.0 pos) (asked m e.1)
        served
  other_served {q} {w = w} {w'} other good fits (defers f e) served =
      let (after_fits, pos, asked, clear) = woken w mask f fits masks.b_pos masks.b_fits in
      deferred mask (Enough q) w w' other (subst (λ t. 0 < bit_and t mask) e.0 pos) (clear e.1)
        served
  other_served {q} {w = w} other good fits (wakes {mask = m}) served =
      hears mask (Enough q) w m other served
