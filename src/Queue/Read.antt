-- ===== src/Queue/Read.antt =====
-- `beginRead`, `copyFrom` and `commitRead` together: what `read` does.
use android_system_libfmq.Base.{
  ℕ, ◌+◌, ◌-◌, ◌*◌, ◌%◌, ◌<◌, ◌≤◌, ◌≡◌, ◌⊎◌, inl, inr, ap, ◌∙◌, sym, arith, true, some, tabulate,
  tabulate_ext, take, drop, take-tabulate, drop-tabulate, mod-mod-eq-zero,
}
use android_system_libfmq.Memory.{word64, add64, Memory}
use android_system_libfmq.Queue.{Queue, ring_regions, begin_read, commit_read, read}
use android_system_libfmq.Queue.Copy.{buffer_after, copy_from-buffer_after, buffer_after-inside}
use android_system_libfmq.Queue.Inv.{
  IsValid, InStep, Seamless, used, byte_at, contents, read_place, aligned_step,
}
use native.Mathlib.Nat.{mod-lt}

-- The queue and the buffer after a read of `n` messages.
abbrev pub consumed : Queue → ℕ → Queue
consumed s n = record s { read_ptr = add64 s.read_ptr (n * s.quantum) }

abbrev pub buffer_read : Queue → ℕ → Memory → Memory
buffer_read s n d = buffer_after s.size s.quantum (s.read_ptr % s.size) n d s.ring

module _ {s : Queue} (v : IsValid s) (n : ℕ) (in_step : InStep s)
    (enough : n * s.quantum ≤ used s) where
  open v use {
    quantum_pos, size_pos, size_fits, whole, read_fits, read_aligned, write_fits, write_aligned,
  }

  abbrev len : ℕ
  len = n * s.quantum

  pub begin_read-regions :
      begin_read s n ≡ some (s, true, ring_regions s.size s.quantum (s.read_ptr % s.size) n)
  unfolding begin_read
  begin_read-regions = ground arith

  off_aligned : s.read_ptr % s.size % s.quantum ≡ 0
  off_aligned = mod-mod-eq-zero s.read_ptr s.size s.quantum read_aligned whole

  pub read-consumed :
      (d : Memory) → read s (some d) n ≡ some (consumed s n, true, some (buffer_read s n d))
  unfolding read commit_read
  read-consumed d = ground (
    arith,
    begin_read-regions,
    copy_from-buffer_after s.size s.quantum (s.read_ptr % s.size) n quantum_pos size_fits whole
        off_aligned (mod-lt s.read_ptr size_pos) (omega arith) d s.ring,
  )

  pub used-consumed : used (consumed s n) ≡ used s - len
  used-consumed = omega arith

  module _ (seam : Seamless s 0) where
    pub consumed-IsValid : IsValid (consumed s n)
    consumed-IsValid = record {
      quantum_pos = quantum_pos;
      size_pos = size_pos;
      size_fits = size_fits;
      whole = whole;
      read_fits = omega arith;
      write_fits = write_fits;
      read_aligned = aligned_step v s.read_ptr n read_aligned seam';
      write_aligned = write_aligned;
    }
      where
        seam' : (word64 % s.size ≡ 0) ⊎ (s.read_ptr + n * s.quantum < word64)
        seam' = elim seam [ inl h ↦ inl h | inr h ↦ inr (omega arith) ]

    -- The messages read are the oldest bytes.
    pub bytes-read : (d : Memory) → tabulate len (buffer_read s n d) ≡ take len (contents s)
    bytes-read d = tabulate_ext len _ _ same ∙ sym (take-tabulate len (used s) (byte_at s) enough)
      where
        same : (i : ℕ) → i < len → buffer_read s n d i ≡ byte_at s i
        same i h =
            buffer_after-inside s.size s.quantum (s.read_ptr % s.size) n quantum_pos size_fits whole
              off_aligned (mod-lt s.read_ptr size_pos) (omega arith) d s.ring i h
            ∙ ap s.ring (sym (read_place v 0 i seam (omega arith)))

    -- What is left are the others.
    pub contents-consumed : contents (consumed s n) ≡ drop len (contents s)
    contents-consumed =
        rw used-consumed (
          tabulate_ext (used s - len) _ _ same
          ∙ sym (drop-tabulate len (used s) (byte_at s) enough))
      where
        same : (i : ℕ) → i < used s - len → byte_at (consumed s n) i ≡ byte_at s (len + i)
        same i h = ap s.ring (ap (λ t. t % s.size) (omega arith))
