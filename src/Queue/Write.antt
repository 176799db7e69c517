-- ===== src/Queue/Write.antt =====
-- `beginWrite`, `copyTo` and `commitWrite` together: what `write` does.
use android_system_libfmq.Base.{
  ℕ, ◌+◌, ◌-◌, ◌*◌, ◌%◌, ◌<◌, ◌≤◌, ◌≡◌, ◌⊎◌, inl, inr, ap, ap₂, ◌∙◌, sym, arith, true, some, ◌++◌,
  tabulate, tabulate_ext, tabulate-add, mod-mod-eq-zero, le-div_of_mul-le,
}
use android_system_libfmq.Memory.{word64, add64, Memory}
use android_system_libfmq.Flavor.{is_synchronized}
use android_system_libfmq.Transaction
use android_system_libfmq.Transaction.{MemTransaction}
use android_system_libfmq.Queue.{
  Queue, available_to_write, get_quantum_count, ring_regions, begin_write, commit_write, write,
}
use android_system_libfmq.Queue.Copy.{
  ring_after, copy_to-ring_after, ring_after-inside, ring_after-outside,
}
use android_system_libfmq.Queue.Inv.{
  IsValid, Seamless, used, byte_at, contents, read_place, old_index, new_index, aligned_step,
}
use native.Mathlib.Nat.{mod-lt}

-- The queue after a write of `n` messages.
abbrev pub written : Queue → ℕ → Memory → Queue
written s n d = record s {
  ring = ring_after s.size s.quantum (s.write_ptr % s.size) n d s.ring;
  write_ptr = add64 s.write_ptr (n * s.quantum);
}

module _ {s : Queue} (v : IsValid s) (n : ℕ) where
  open v use {quantum_pos, size_pos, size_fits, whole, write_fits, write_aligned}

  -- `beginWrite` gives the regions if the messages fit the ring and, for the synchronized flavor,
  -- what is free of it.
  pub begin_write-regions :
      (result : MemTransaction)
      → n * s.quantum ≤ s.size
      → (is_synchronized s.flavor ≡ true → used s + n * s.quantum ≤ s.size)
      → begin_write s n result ≡ some (true, ring_regions s.size s.quantum (s.write_ptr % s.size) n)
  unfolding begin_write available_to_write get_quantum_count
  begin_write-regions result fits free =
      ground
        (arith, le-div_of_mul-le n s.size s.quantum, le-div_of_mul-le n (s.size - used s) s.quantum)

  pub write-written :
      (d : Memory)
      → n * s.quantum ≤ s.size
      → (is_synchronized s.flavor ≡ true → used s + n * s.quantum ≤ s.size)
      → write s (some d) n ≡ some (written s n d, true)
  unfolding write commit_write
  write-written d fits free = ground (
    arith,
    begin_write-regions Transaction.no_transaction fits free,
    copy_to-ring_after s.size s.quantum (s.write_ptr % s.size) n quantum_pos size_fits whole
        (mod-mod-eq-zero s.write_ptr s.size s.quantum write_aligned whole)
        (mod-lt s.write_ptr size_pos) fits d s.ring,
  )

  -- The invariant holds after a write, overrun or not.
  pub written-IsValid : (d : Memory) → Seamless s (n * s.quantum) → IsValid (written s n d)
  written-IsValid d seam = record {
    quantum_pos = quantum_pos;
    size_pos = size_pos;
    size_fits = size_fits;
    whole = whole;
    read_fits = v.read_fits;
    write_fits = omega arith;
    read_aligned = v.read_aligned;
    write_aligned = aligned_step v s.write_ptr n write_aligned seam';
  }
    where
      seam' : (word64 % s.size ≡ 0) ⊎ (s.write_ptr + n * s.quantum < word64)
      seam' = elim seam [ inl h ↦ inl h | inr h ↦ inr h.1 ]

module _ {s : Queue} (v : IsValid s) (n : ℕ) (d : Memory) (free : used s + n * s.quantum ≤ s.size)
    (seam : Seamless s (n * s.quantum)) where
  open v use {quantum_pos, size_pos, size_fits, whole, write_fits, read_fits, write_aligned}

  abbrev len : ℕ
  len = n * s.quantum

  abbrev off : ℕ
  off = s.write_ptr % s.size

  off_aligned : off % s.quantum ≡ 0
  off_aligned = mod-mod-eq-zero s.write_ptr s.size s.quantum write_aligned whole

  pub used-written : used (written s n d) ≡ used s + len
  used-written = omega arith

  -- The bytes that were there stay.
  pub old_byte : (i : ℕ) → i < used s → byte_at (written s n d) i ≡ byte_at s i
  old_byte i h =
      ap (written s n d).ring at_index
      ∙ ring_after-outside s.size s.quantum off n quantum_pos size_fits whole off_aligned
          (mod-lt s.write_ptr size_pos) (omega arith) d s.ring (s.size - used s + i) (omega arith)
          (omega arith)
      ∙ ap s.ring (sym at_index)
    where
      at_index : (s.read_ptr + i) % word64 % s.size ≡ (off + (s.size - used s + i)) % s.size
      at_index = read_place v len i seam (omega arith) ∙ sym (old_index v len i seam (omega arith))

  -- The new ones follow.
  new_byte : (i : ℕ) → i < len → byte_at (written s n d) (used s + i) ≡ d i
  new_byte i h =
      rw (read_place v len (used s + i) seam (omega arith), ← new_index v len i seam)
        (ring_after-inside s.size s.quantum off n quantum_pos size_fits whole off_aligned
          (mod-lt s.write_ptr size_pos) (omega arith) d s.ring i h)

  pub contents-written : contents (written s n d) ≡ contents s ++ tabulate len d
  contents-written = rw used-written (
      tabulate-add (used s) len (byte_at (written s n d))
      ∙ ap₂ ◌++◌ (tabulate_ext (used s) _ _ old_byte) (tabulate_ext len _ _ new_byte))
