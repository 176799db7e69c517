-- ===== src/Handshake/Told.antt =====
-- What a step of a thread means to the other, by what the other does.
use android_system_libfmq.Base.{
  ℕ, ◌<◌, ◌≡◌, inl, inr, refl, ap, ◌∙◌, arith, Bool, true, false, some, ◌==◌, eq_of_==,
  if◌then◌else◌,
}
use Prim.Native.Nat.{bit_and}
use android_system_libfmq.Handshake.{
  Phase, outside, attempting, awaiting, asleep, roused, announcing, entering, calling, hear,
}
use android_system_libfmq.Handshake.Inv.{Told, Served}

-- Neither of the phases of a thread that tells the other.
abbrev pub IsQuiet : Phase → Type 0
IsQuiet p = (p ≡ announcing → ⊥) × ((mask : ℕ) → p ≡ calling mask → ⊥)

module _ (mask : ℕ) (E : Type 0) where
  -- Nothing that concerns the other thread happens.
  module _ (w w' : ℕ) {p : Phase} (p' : Phase) (same : bit_and w' mask ≡ bit_and w mask)
      (quiet : IsQuiet p) where
    still-Told : (E → Told mask w p) → E → Told mask w' p'
    still-Told told enough = elim (told enough) [
      | inl pos ↦ inl (omega (arith, same))
      | inr announced ↦ absurd (quiet.0 announced)
    ]

    pub unmoved : (other : Phase) → Served mask E w p other → Served mask E w' p' other
    unmoved awaiting served = still-Told served
    unmoved roused served = still-Told served
    unmoved (entering v) served = (served.0, still-Told served.1)
    unmoved asleep (inl ((m, now, common), pos)) = absurd (quiet.1 m now)
    unmoved asleep (inr (free, told)) = inr (same ∙ free, λ e. absurd (quiet.0 (told e)))
    unmoved outside served = tt
    unmoved attempting served = tt
    unmoved announcing served = tt
    unmoved (calling m) served = tt

  -- The thread is about to tell the other, whatever there is.
  pub told_soon :
      (E' : Type 0) (w : ℕ) {p : Phase} (other : Phase)
      → IsQuiet p
      → Served mask E w p other
      → Served mask E' w announcing other
  told_soon E' w awaiting quiet served = λ _. inr refl
  told_soon E' w roused quiet served = λ _. inr refl
  told_soon E' w (entering v) quiet served = (served.0, λ _. inr refl)
  told_soon E' w asleep quiet (inl ((m, now, common), pos)) = absurd (quiet.1 m now)
  told_soon E' w asleep quiet (inr (free, told)) = inr (free, λ _. refl)
  told_soon E' w outside quiet served = tt
  told_soon E' w attempting quiet served = tt
  told_soon E' w announcing quiet served = tt
  told_soon E' w (calling m) quiet served = tt

  -- It has set a bit, and goes on to the kernel.
  pub announced :
      (w after m : ℕ) (other : Phase)
      → 0 < bit_and after mask
      → 0 < bit_and m mask
      → Served mask E w announcing other
      → Served mask E after (calling m) other
  announced w after m awaiting pos common served = λ _. inl pos
  announced w after m roused pos common served = λ _. inl pos
  announced w after m (entering v) pos common served = (served.0, λ _. inl pos)
  announced w after m asleep pos common served = inl ((m, refl, common), pos)
  announced w after m outside pos common served = tt
  announced w after m attempting pos common served = tt
  announced w after m announcing pos common served = tt
  announced w after m (calling k) pos common served = tt

  -- It has set a bit that was set, so that nobody sleeps for the mask.
  pub deferred :
      (w after : ℕ) (other : Phase)
      → 0 < bit_and after mask
      → 0 < bit_and w mask
      → Served mask E w announcing other
      → Served mask E after outside other
  deferred w after awaiting pos before served = λ _. inl pos
  deferred w after roused pos before served = λ _. inl pos
  deferred w after (entering v) pos before served = (served.0, λ _. inl pos)
  deferred w after asleep pos before (inl ((m, now, common), set)) = absurd (cc now)
  deferred w after asleep pos before (inr (free, told)) = absurd (omega (arith, free))
  deferred w after outside pos before served = tt
  deferred w after attempting pos before served = tt
  deferred w after announcing pos before served = tt
  deferred w after (calling k) pos before served = tt

  Told-by_bits : (w m : ℕ) (p' : Phase) → (E → Told mask w (calling m)) → E → Told mask w p'
  Told-by_bits w m p' told enough = elim (told enough) [
    | inl pos ↦ inl pos
    | inr announced_now ↦ absurd (cc announced_now)
  ]

  heard :
      (w m : ℕ) (b : Bool)
      → (bit_and m mask == 0) ≡ b
      → Served mask E w (calling m) asleep
      → Served mask E w outside (if b then asleep else roused)
  heard w m true e (inl ((k, now, common), pos)) =
      let same : m ≡ k = cc now in
      absurd (omega (arith, common, eq_of_== e, ap (λ t. bit_and t mask) same))
  heard w m true e (inr (free, told)) = inr (free, λ enough. absurd (cc (told enough)))
  heard w m false e (inl (calling_now, pos)) = λ _. inl pos
  heard w m false e (inr (free, told)) = λ enough. absurd (cc (told enough))

  -- The kernel wakes the threads that sleep for a bit of `m`.
  pub hears :
      (w m : ℕ) (other : Phase)
      → Served mask E w (calling m) other
      → Served mask E w outside (hear mask (some m) other)
  unfolding hear
  hears w m awaiting served = Told-by_bits w m outside served
  hears w m roused served = Told-by_bits w m outside served
  hears w m (entering v) served = (served.0, Told-by_bits w m outside served.1)
  hears w m asleep served = heard w m (bit_and m mask == 0) refl served
  hears w m outside served = tt
  hears w m attempting served = tt
  hears w m announcing served = tt
  hears w m (calling k) served = tt
