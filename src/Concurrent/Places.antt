-- ===== src/Concurrent/Places.antt =====
-- The places of the bytes of a transaction in the ring.
use android_system_libfmq.Base.{
  ℕ, ◌+◌, ◌*◌, ◌%◌, ◌<◌, ◌≤◌, ◌≡◌, arith, Bool-cases, inl, inr, ltb, some,
}
use android_system_libfmq.Queue.{ring_regions}
use android_system_libfmq.Queue.Contiguous.{contiguous, Split, split}
use android_system_libfmq.Queue.Copy.{wrap_index}
use android_system_libfmq.Concurrent.{byte_place, poke}
use android_system_libfmq.Memory.{Memory}

-- A byte after a store.
pub poke-same : (m : Memory) {a i : ℕ} (v : ℕ) → i ≡ a → poke m a v i ≡ v
unfolding poke
poke-same m v e = ground arith

pub poke-other : (m : Memory) {a i : ℕ} (v : ℕ) → (i ≡ a → ⊥) → poke m a v i ≡ m i
unfolding poke
poke-other m v e = ground (arith, e)

-- Different distances from one place are different places.
pub mod_add-injective :
    (size o a b : ℕ) → o < size → a < size → b < size → (o + a) % size ≡ (o + b) % size → a ≡ b
mod_add-injective size o a b ho ha hb e =
    ground (arith, wrap_index size o a ho (omega arith), wrap_index size o b ho (omega arith))

module _ (size q off n : ℕ) (pos : 0 < q) (whole : size % q ≡ 0) (aligned : off % q ≡ 0)
    (inside : off < size) (room : n * q ≤ size) where
  abbrev c : ℕ
  c = contiguous size q off

  splits : Split size q off n
  splits = split size q off n pos whole aligned inside

  pub byte_place-ring_regions :
      (k : ℕ) → k < n * q → byte_place q (ring_regions size q off n) k ≡ some ((off + k) % size)
  unfolding byte_place ring_regions
  byte_place-ring_regions k h =
      rw (wrap_index size off k inside (omega arith)) (elim (Bool-cases (ltb c n)) [
        | inl p ↦ rw p (ground (arith, splits))
        | inr p ↦ rw p (ground (arith, splits))
      ])
