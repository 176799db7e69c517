-- ===== src/Handshake/Inv.antt =====
-- What holds of a thread in a blocking call, whatever the other does.
use android_system_libfmq.Base.{ℕ, ◌<◌, ◌^◌, ◌≡◌, ◌⊎◌, Option, some, true, false}
use Prim.Native.Nat.{bit_and}
use android_system_libfmq.Memory.{Memory}
use android_system_libfmq.Queue.{Queue}
use android_system_libfmq.Blocking.{Attempt}
use android_system_libfmq.Handshake.{Phase, awaiting, asleep, roused, announcing, entering, calling}

-- The masks of two threads that wait for each other.
pub record Disjoint (a b : ℕ) : Type 0 where
  pub a_pos : 0 < a
  pub b_pos : 0 < b
  pub a_fits : a < 2 ^ 32
  pub b_fits : b < 2 ^ 32
  pub apart : bit_and a b ≡ 0

-- A bit of the mask is set, or the other thread is about to set them.
abbrev pub Told : ℕ → ℕ → Phase → Type 0
Told awaited w other = (0 < bit_and w awaited) ⊎ (other ≡ announcing)

-- The other thread is about to have the kernel wake this one.
abbrev pub IsCalling : ℕ → Phase → Type 0
IsCalling awaited other = (mask : ℕ) × (other ≡ calling mask) × (0 < bit_and mask awaited)

-- A thread for which there is enough is told, unless it is not waiting. `Enough` is what an attempt
-- needs.
abbrev pub Served : ℕ → Type 0 → ℕ → Phase → Phase → Type 0
Served awaited Enough w other awaiting = Enough → Told awaited w other
Served awaited Enough w other roused = Enough → Told awaited w other
Served awaited Enough w other (entering v) =
    (bit_and v awaited ≡ 0) × (Enough → Told awaited w other)
Served awaited Enough w other asleep =
    (IsCalling awaited other × (0 < bit_and w awaited))
    ⊎ ((bit_and w awaited ≡ 0) × (Enough → other ≡ announcing))
Served awaited Enough w other p = Unit

-- What the attempts of a thread say of the queue: a failure changes nothing, and there is not
-- enough.
pub record Tries (Good Enough : Queue → Type 0) (try : Attempt) : Type 0 where
  pub refused :
      {q q' : Queue} (d : Memory) {d' : Option Memory}
      → Good q
      → try q (some d) ≡ some (q', false, d')
      → (q' ≡ q) × (Enough q → ⊥)
  pub accepted :
      {q q' : Queue} (d : Memory) {d' : Option Memory}
      → Good q
      → try q (some d) ≡ some (q', true, d')
      → Good q'
