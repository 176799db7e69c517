-- ===== src/Queue/Overrun.antt =====
-- The unsynchronized flavor: a write never waits for the reader, and a reader that is overrun finds
-- out. The writer's calls fall between the steps of one `read`, which is taken apart here; a call of
-- the writer as a whole lies before or after the reader's copy.
use android_system_libfmq.Base.{
  ℕ, ◌+◌, ◌*◌, ◌%◌, ◌<◌, ◌≤◌, ◌≡◌, ◌↔◌, ap, ap₂, ◌∙◌, sym, arith, Bool, true, false, Option, some,
  List, ◌++◌, tabulate, ◌>>=◌, tabulate_ext, take, take-tabulate, mod-mod-eq-zero,
}
use android_system_libfmq.Memory.{word64, Memory}
use android_system_libfmq.Flavor.{is_synchronized}
use android_system_libfmq.Transaction.{copy_from}
use android_system_libfmq.Queue.{Queue, ring_regions, begin_read, commit_read}
use android_system_libfmq.Queue.Copy.{buffer_after, copy_from-buffer_after, buffer_after-inside}
use android_system_libfmq.Queue.Inv.{IsValid, InStep, Seamless, used, byte_at, contents, read_place}
use android_system_libfmq.Queue.Read.{begin_read-regions}
use native.Mathlib.Nat.{mod-lt}
use android_system_libfmq.Queue.Calls.{
  write_all, total, EachFits, all_written, narrow, AllWritten, all_written_lem, total-append,
  EachFits-append, write_all-append,
}

-- One `read` with the writer's calls `before` and `after` its copy.
unfoldable pub racing_read :
    Queue
    → ℕ
    → Memory
    → List (Memory × ℕ)
    → List (Memory × ℕ)
    → Option (Queue × Bool × Option Memory)
racing_read s n d before after = begin_read s n >>= λ (s₁, begun, tx). write_all s₁ before >>= λ s₂.
    copy_from s₂.quantum tx (some d) 0 n s₂.ring >>= λ (copied, buffer).
    write_all s₂ after >>= λ s₃. (let (s₄, done) = commit_read s₃ n in some (s₄, done, buffer))

module _ {s : Queue} (v : IsValid s) (in_step : InStep s)
    (unsync : is_synchronized s.flavor ≡ false) (n : ℕ) (enough : n * s.quantum ≤ used s)
    (before after : List (Memory × ℕ)) (fit : EachFits s.size s.quantum (before ++ after))
    (seam : Seamless s (total s.quantum (before ++ after)))
    (small : used s + total s.quantum (before ++ after) < word64) where
  at_copy : AllWritten s before
  at_copy =
      all_written_lem before v unsync (EachFits-append s.size s.quantum before after fit).0
        (narrow s (total s.quantum before) (total s.quantum (before ++ after)) seam
          (omega (arith, total-append s.quantum before after)))
        (omega (arith, total-append s.quantum before after))

  at_end : AllWritten s (before ++ after)
  at_end = all_written_lem (before ++ after) v unsync fit seam small

  -- The queue when the reader copies, and when it commits.
  abbrev copying : Queue
  copying = all_written s before

  abbrev committing : Queue
  committing = all_written s (before ++ after)

  abbrev data_read : Memory → Memory
  data_read d = buffer_after s.size s.quantum (s.read_ptr % s.size) n d copying.ring

  then_after : write_all copying after ≡ some committing
  then_after = sym (rw at_copy.done at (write_all-append before after s)) ∙ at_end.done

  off_aligned : s.read_ptr % s.size % s.quantum ≡ 0
  off_aligned = mod-mod-eq-zero s.read_ptr s.size s.quantum v.read_aligned v.whole

  copies :
      (d : Memory)
      → copy_from copying.quantum
          (ring_regions s.size s.quantum (s.read_ptr % s.size) n)
          (some d)
          0
          n
          copying.ring
        ≡ some (true, some (data_read d))
  copies d = rw at_copy.same_quantum (
      copy_from-buffer_after s.size s.quantum (s.read_ptr % s.size) n v.quantum_pos v.size_fits
        v.whole off_aligned (mod-lt s.read_ptr v.size_pos) (omega arith) d copying.ring)

  runs :
      (d : Memory)
      → racing_read s n d before after
        ≡ (let (s₄, done) = commit_read committing n in some (s₄, done, some (data_read d)))
  unfolding racing_read
  runs d = rw (begin_read-regions v n in_step enough, at_copy.done) rw (copies d, then_after)

  same_bytes :
      used s + total s.quantum (before ++ after) ≤ s.size
      → (d : Memory) → tabulate (n * s.quantum) (data_read d) ≡ take (n * s.quantum) (contents s)
  same_bytes h d =
      tabulate_ext (n * s.quantum) _ _ same
      ∙ sym (take-tabulate (n * s.quantum) (used s) (byte_at s) enough)
    where
      old :
          (i : ℕ)
          → i < n * s.quantum
          → copying.ring ((s.read_ptr + i) % word64 % s.size) ≡ byte_at s i
      old i k =
          sym (
            ap₂ (λ p z. copying.ring ((p + i) % word64 % z)) at_copy.same_read_ptr
              at_copy.same_size)
          ∙ at_copy.kept (omega (arith, total-append s.quantum before after)) i (omega arith)

      same : (i : ℕ) → i < n * s.quantum → data_read d i ≡ byte_at s i
      same i k =
          buffer_after-inside s.size s.quantum (s.read_ptr % s.size) n v.quantum_pos v.size_fits
            v.whole off_aligned (mod-lt s.read_ptr v.size_pos) (omega arith) d copying.ring i k
          ∙ ap copying.ring
              (sym (read_place v (total s.quantum (before ++ after)) i seam (omega arith)))
          ∙ old i k

  commits :
      let (s₄, done) = commit_read committing n in
      ((done ≡ true) ↔ (used s + total s.quantum (before ++ after) ≤ s.size))
      × (done ≡ false → used s₄ ≡ 0)
  unfolding commit_read
  commits = ground (arith, at_end.moved, at_end.same_size, at_end.valid)

  -- A reader of the unsynchronized flavor, on a valid queue that is not overrun and has the `n`
  -- messages it asks for, with calls of the writer before and after its copy: each fits the ring,
  -- and the counters keep their places and stay less than `2 ^ 64` apart.
  -- Its `read` succeeds exactly if these did not overrun it, and then it has the bytes that were
  -- oldest when it began; otherwise it reports failure and starts over with nothing to read.
  pub racing_read_sound :
      (d : Memory)
      → (s₄ : Queue) × (done : Bool) × (buffer : Memory) × (racing_read s n d before after
          ≡ some (s₄, done, some buffer))
        × ((done ≡ true) ↔ (used s + total s.quantum (before ++ after) ≤ s.size))
        × (done ≡ true → tabulate (n * s.quantum) buffer ≡ take (n * s.quantum) (contents s))
        × (done ≡ false → used s₄ ≡ 0)
  racing_read_sound d =
      let (s₄, done) = commit_read committing n in
      (s₄, done, data_read d, runs d, commits.0, λ e. same_bytes (commits.0.0 e) d, commits.1)
