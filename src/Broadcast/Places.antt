-- ===== src/Broadcast/Places.antt =====
-- Where the bytes of the messages lie in the ring of the unsynchronized flavor.
use android_system_libfmq.Base.{
  ℕ, ◌+◌, ◌-◌, ◌*◌, ◌%◌, ◌<◌, ◌≤◌, ◌≡◌, ap, sym, ◌∙◌, arith, some, List, mod-mod-eq-zero,
}
use android_system_libfmq.Queue.{Queue, ring_regions}
use android_system_libfmq.Concurrent.{Writer, byte_place}
use android_system_libfmq.Concurrent.Places.{mod_add-injective, byte_place-ring_regions}
use android_system_libfmq.Broadcast.Inv.{Airs}
use native.Mathlib.Nat.{mod-lt, mod-add-mod}

-- Two counts less than a ring apart have different places.
pub places_differ : (size a b : ℕ) → 0 < size → a < b → b < a + size → a % size ≡ b % size → ⊥
places_differ size a b pos lt near e = omega (
  arith,
  mod_add-injective size (a % size) 0 (b - a) (mod-lt a pos) pos (omega arith) (
      mod-add-mod a size 0
      ∙ ap (λ t. t % size) same₀
      ∙ e
      ∙ ap (λ t. t % size) same
      ∙ sym (mod-add-mod a size (b - a))),
)
  where
    same₀ : a + 0 ≡ a
    same₀ = omega arith

    same : b ≡ a + (b - a)
    same = omega arith

module _ {q : Queue} {w : Writer} {wr : List ℕ} {reach : ℕ} (airs : Airs q w wr reach) where
  -- Where byte `k` of `n` messages lies, from any aligned counter.
  pub byte_place-from :
      (ptr n k : ℕ)
      → ptr % q.quantum ≡ 0
      → n * q.quantum ≤ q.size
      → k < n * q.quantum
      → byte_place q.quantum (ring_regions q.size q.quantum (ptr % q.size) n) k
        ≡ some ((ptr + k) % q.size)
  byte_place-from ptr n k aligned fits h =
      byte_place-ring_regions q.size q.quantum (ptr % q.size) n airs.quantum_pos airs.whole
        (mod-mod-eq-zero ptr q.size q.quantum aligned airs.whole) (mod-lt ptr airs.size_pos) fits k
        h
      ∙ ap some (mod-add-mod ptr q.size k)
