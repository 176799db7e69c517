-- ===== src/Concurrent/Begin.antt =====
-- When `beginWrite` and `beginRead` succeed, and where the bytes of their transactions lie.
use android_system_libfmq.Base.{
  ℕ, ◌+◌, ◌-◌, ◌*◌, ◌%◌, ◌<◌, ◌≤◌, ◌≡◌, inl, inr, ap, sym, ◌∙◌, arith, Bool, true, false, some,
  le-or-lt, mod-mod-eq-zero, mul-le_of_le-div,
}
use android_system_libfmq.Memory.{word64}
use android_system_libfmq.Transaction.{MemTransaction, no_transaction}
use android_system_libfmq.Queue.{Queue, ring_regions, begin_write, begin_read, available_to_write}
use android_system_libfmq.Queue.Inv.{Seamless, used, byte_at, read_place, new_index}
use android_system_libfmq.Queue.Refine.{IsReady}
use android_system_libfmq.Queue.Write.{begin_write-regions}
use android_system_libfmq.Queue.Read.{begin_read-regions}
use android_system_libfmq.Concurrent.{byte_place}
use android_system_libfmq.Concurrent.Places.{mod_add-injective, byte_place-ring_regions}
use native.Mathlib.Nat.{mod-lt}

module _ {q : Queue} (r : IsReady q) where
  begin_write-full :
      (n : ℕ)
      → q.size < used q + n * q.quantum
      → begin_write q n no_transaction ≡ some (false, no_transaction)
  unfolding begin_write available_to_write
  begin_write-full n h = ground (arith, r, mul-le_of_le-div n (q.size - used q) q.quantum)

  begin_read-short :
      (n : ℕ)
      → n * q.quantum < word64
      → used q < n * q.quantum
      → begin_read q n ≡ some (q, false, no_transaction)
  unfolding begin_read
  begin_read-short n fits h = ground (arith, r)

  -- A transaction that is begun lies in the free part, or in the used part.
  pub begin_write-free :
      (n : ℕ) {tx : MemTransaction}
      → begin_write q n no_transaction ≡ some (true, tx)
      → (tx ≡ ring_regions q.size q.quantum (q.write_ptr % q.size) n)
        × (used q + n * q.quantum ≤ q.size)
  begin_write-free n e = elim (le-or-lt (used q + n * q.quantum) q.size) [
    | inl h ↦ (cc (e, begin_write-regions r.valid n no_transaction (omega arith) (λ _. h)), h)
    | inr h ↦ cc (e, begin_write-full n h)
  ]

  pub begin_read-used :
      (n : ℕ) {q' : Queue} {begun : Bool} {tx : MemTransaction}
      → n * q.quantum < word64
      → begin_read q n ≡ some (q', begun, tx)
      → (q' ≡ q)
        × (begun ≡ true
            → (tx ≡ ring_regions q.size q.quantum (q.read_ptr % q.size) n)
              × (n * q.quantum ≤ used q))
  begin_read-used n fits e = elim (le-or-lt (n * q.quantum) (used q)) [
    | inl h ↦
        let e' = begin_read-regions r.valid n r.in_step h in (cc (e, e'), λ _. (cc (e, e'), h))
    | inr h ↦ let e' = begin_read-short n fits h in (cc (e, e'), λ b. cc (b, e, e'))
  ]

  module _ (seam : Seamless q 0) where
    pub write_byte_place :
        (n k : ℕ)
        → used q + n * q.quantum ≤ q.size
        → k < n * q.quantum
        → byte_place q.quantum (ring_regions q.size q.quantum (q.write_ptr % q.size) n) k
          ≡ some ((q.write_ptr % q.size + k) % q.size)
    write_byte_place n k free h =
        byte_place-ring_regions q.size q.quantum (q.write_ptr % q.size) n r.valid.quantum_pos
          r.valid.whole
          (mod-mod-eq-zero q.write_ptr q.size q.quantum r.valid.write_aligned r.valid.whole)
          (mod-lt q.write_ptr r.valid.size_pos) (omega arith) k h

    pub read_byte_place :
        (n k : ℕ)
        → n * q.quantum ≤ used q
        → k < n * q.quantum
        → byte_place q.quantum (ring_regions q.size q.quantum (q.read_ptr % q.size) n) k
          ≡ some ((q.read_ptr % q.size + k) % q.size)
    read_byte_place n k free h =
        byte_place-ring_regions q.size q.quantum (q.read_ptr % q.size) n r.valid.quantum_pos
          r.valid.whole
          (mod-mod-eq-zero q.read_ptr q.size q.quantum r.valid.read_aligned r.valid.whole)
          (mod-lt q.read_ptr r.valid.size_pos) (omega (arith, r.in_step)) k h

    -- A free byte and a used one lie at different places.
    pub places-apart :
        (k i : ℕ)
        → used q + k < q.size
        → i < used q
        → (q.write_ptr % q.size + k) % q.size ≡ (q.read_ptr % q.size + i) % q.size
        → ⊥
    places-apart k i free h e = omega (
      arith,
      mod_add-injective q.size (q.read_ptr % q.size) (used q + k) i
          (mod-lt q.read_ptr r.valid.size_pos) free (omega arith)
          (sym (new_index r.valid 0 k seam) ∙ e),
    )

    pub byte_at-place :
        (i : ℕ) → i ≤ used q → byte_at q i ≡ q.ring ((q.read_ptr % q.size + i) % q.size)
    byte_at-place i h = ap q.ring (read_place r.valid 0 i seam (omega arith))
