-- ===== src/Handshake/Reach.antt =====
-- What holds of a blocking writer and a blocking reader in any state that they reach.
use android_system_libfmq.Base.{
  ℕ, ◌^◌, ◌<◌, refl, sym, ◌∙◌, arith, Bool, true, false, Option, none, some, ◌==◌, if◌then◌else◌,
  bit-bit_and, bit_ext, bit_and-lt,
}
use Prim.Native.Nat.{bit_and}
use mathlib.Core.Path.{subst}
use android_system_libfmq.Queue.{Queue}
use android_system_libfmq.Blocking.{Attempt, try_write, try_read}
use android_system_libfmq.Handshake.{
  Phase, outside, attempting, awaiting, asleep, roused, announcing, entering, calling, hear, Move,
  calls, fails, succeeds, tries_last, finds, expects, sleeps, misses, returns, resumes,
  leaves_early, leaves, announces, defers, wakes, Pair, Step, writes, reads, Steps, here, later,
  launch,
}
use android_system_libfmq.Handshake.Inv.{Disjoint, Served, Tries}
use android_system_libfmq.Handshake.Own.{own}
use android_system_libfmq.Handshake.Word.{word_fits}
use android_system_libfmq.Handshake.Told.{unmoved}
use android_system_libfmq.Handshake.Other.{other_served}
use android_system_libfmq.Handshake.Attempts.{Usable, HasRoom, HasContent, write-Tries, read-Tries}

-- A thread that is woken from its sleep has told nobody anything.
unheard :
    (mask own_mask w : ℕ) (E : Type 0) (call : Option ℕ) (other p : Phase)
    → Served own_mask E w other p
    → Served own_mask E w (hear mask call other) p
unfolding hear
unheard mask own_mask w E none other p served = served
unheard mask own_mask w E (some m) asleep p served = asleep_or_roused (bit_and m mask == 0)
  where
    asleep_or_roused : (b : Bool) → Served own_mask E w (if b then asleep else roused) p
    asleep_or_roused true = served
    asleep_or_roused false =
        unmoved own_mask E w w roused refl ((λ e. absurd (cc e)), λ k e. absurd (cc e)) p served
unheard mask own_mask w E (some m) outside p served = served
unheard mask own_mask w E (some m) attempting p served = served
unheard mask own_mask w E (some m) awaiting p served = served
unheard mask own_mask w E (some m) roused p served = served
unheard mask own_mask w E (some m) announcing p served = served
unheard mask own_mask w E (some m) (entering v) p served = served
unheard mask own_mask w E (some m) (calling k) p served = served

-- An attempt leaves a queue that can be used.
good_after :
    {Good Enough : Queue → Type 0} {try : Attempt} (tries : Tries Good Enough try)
    {awaited notification w w' : ℕ} {q q' : Queue} {call : Option ℕ} {p p' : Phase}
    → Good q
    → Move try awaited notification q w p q' w' call p'
    → Good q'
good_after {Good} tries good (fails d e) = subst Good (sym (tries.refused d good e).0) good
good_after tries good (succeeds d e) = tries.accepted d good e
good_after tries good calls = good
good_after tries good tries_last = good
good_after tries good (finds old timeout now futex e) = good
good_after tries good (expects e) = good
good_after tries good (sleeps e) = good
good_after tries good (misses e) = good
good_after tries good returns = good
good_after tries good resumes = good
good_after tries good leaves_early = good
good_after tries good leaves = good
good_after tries good (announces f e) = good
good_after tries good (defers f e) = good
good_after tries good wakes = good

module _ (nw nr : ℕ) (room content : ℕ) (masks : Disjoint room content) (first : Queue) where
  reverse : Disjoint content room
  reverse = record {
    a_pos = masks.b_pos;
    b_pos = masks.a_pos;
    a_fits = masks.b_fits;
    b_fits = masks.a_fits;
    apart =
        bit_ext 32 (bit_and content room) (bit_and room content)
          (bit_and-lt 32 content room masks.b_fits) (bit_and-lt 32 room content masks.a_fits)
          (λ i h. omega (arith, bit-bit_and content room i, bit-bit_and room content i))
        ∙ masks.apart;
  }

  pub record Inv (s : Pair) : Type 0 where
    pub fits : s.word < 2 ^ 32
    pub usable : Usable nr first s.queue
    pub writer_served : Served room (HasRoom nw s.queue) s.word s.reader s.writer
    pub reader_served : Served content (HasContent nr s.queue) s.word s.writer s.reader

  Step-Inv : {s t : Pair} → Step (try_write nw) (try_read nr) room content s t → Inv s → Inv t
  Step-Inv {s} (writes {call = call} {p} move) inv = record {
    fits = word_fits masks inv.fits move;
    usable = good_after (write-Tries nr nw first) inv.usable move;
    writer_served =
        unheard content room _ _ call s.reader p
          (own (write-Tries nr nw first) masks s.reader inv.usable inv.fits move inv.writer_served);
    reader_served =
        other_served (HasContent nr) (write-Tries nr nw first) masks s.reader inv.usable inv.fits
          move inv.reader_served;
  }
  Step-Inv {s} (reads {call = call} {p} move) inv = record {
    fits = word_fits reverse inv.fits move;
    usable = good_after (read-Tries nr first) inv.usable move;
    writer_served =
        other_served (HasRoom nw) (read-Tries nr first) reverse s.writer inv.usable inv.fits move
          inv.writer_served;
    reader_served =
        unheard room content _ _ call s.writer p
          (own (read-Tries nr first) reverse s.writer inv.usable inv.fits move inv.reader_served);
  }

  pub Steps-Inv : {s t : Pair} → Steps (try_write nw) (try_read nr) room content s t → Inv s → Inv t
  Steps-Inv here inv = inv
  Steps-Inv (later steps step) inv = Step-Inv step (Steps-Inv steps inv)

  pub launch-Inv : (w : ℕ) → w < 2 ^ 32 → Usable nr first first → Inv (launch first w)
  launch-Inv w fits usable = record {
    fits = fits;
    usable = usable;
    writer_served = tt;
    reader_served = tt;
  }
