-- ===== src/Concurrent/Drain.antt =====
-- The reader can always catch up with the writer.
use android_system_libfmq.Base.{
  ℕ, zero, suc, ◌+◌, ◌-◌, ◌*◌, ◌/◌, ◌%◌, ◌<◌, ◌≤◌, ◌≡◌, inl, inr, refl, ap, sym, ◌∙◌, arith, Bool,
  true, List, [], ◌++◌, tabulate, div-mul_of_mod, sub-mod-eq-zero, add-mod-eq-zero, mod-mod-eq-zero,
  mod-mod_of_mod,
}
use android_system_libfmq.Memory.{word64, Memory}
use android_system_libfmq.Queue.{Queue, ring_regions, commit_read}
use android_system_libfmq.Queue.Inv.{Seamless, used, byte_at}
use android_system_libfmq.Queue.Refine.{IsReady}
use android_system_libfmq.Queue.Read.{begin_read-regions}
use android_system_libfmq.Concurrent.{
  Writer, filling, Reader, waiting, draining, System, ReaderMove, reads, Step, Steps, here, later,
  ReaderSteps, stays, moves, launch, byte_place, mark, nothing, poke,
}
use android_system_libfmq.Concurrent
use android_system_libfmq.Concurrent.Begin.{read_byte_place}
use android_system_libfmq.Concurrent.Inv.{Inv, Inv-Seamless, state}
use android_system_libfmq.Concurrent.Order.{Counted, Steps-Inv, launch-Inv}
use mathlib.Core.List.{append-nil}
use mathlib.Core.Path.{subst}
use native.Mathlib.Nat.{zero-mod}

-- The used bytes are whole messages.
pub used-whole : {q : Queue} → IsReady q → Seamless q 0 → used q % q.quantum ≡ 0
used-whole {q} r (inr h) =
    let e : used q ≡ q.write_ptr - q.read_ptr = omega (arith, r, h) in
    rw e
      (sub-mod-eq-zero q.write_ptr q.read_ptr q.quantum r.valid.write_aligned r.valid.read_aligned)
used-whole {q} r (inl h) =
    mod-mod-eq-zero (q.write_ptr + word64 - q.read_ptr) word64 q.quantum
      (sub-mod-eq-zero (q.write_ptr + word64) q.read_ptr q.quantum
        (add-mod-eq-zero q.write_ptr word64 q.quantum r.valid.write_aligned word)
        r.valid.read_aligned)
      word
  where
    word : word64 % q.quantum ≡ 0
    word =
        sym (mod-mod_of_mod word64 q.size q.quantum r.valid.whole)
        ∙ ap (λ t. t % q.quantum) h
        ∙ zero-mod q.quantum

-- The bytes before index `m`.
unfoldable pub marks : ℕ → ℕ → Bool
marks zero = nothing
marks (suc m) = mark (marks m) m

pub marks_all : (m k : ℕ) → k < m → marks m k ≡ true
unfolding marks mark
marks_all zero k h = absurd (omega arith)
marks_all (suc m) k h = ground (arith, marks_all m k)

-- The buffer after as many loads, in their order.
unfoldable pub loading : Queue → ℕ → Memory
loading q zero = λ i. 0
loading q (suc m) = poke (loading q m) m (q.ring ((q.read_ptr % q.size + m) % q.size))

-- A step of the reader that commits nothing.
quietly :
    {s : System} {q q' : Queue} {w : Writer} {r r' : Reader} {wr de : List ℕ}
    → ReaderSteps s (state q w r wr de)
    → ReaderMove q r q' r' []
    → ReaderSteps s (state q' w r' wr de)
quietly {s} {q} {q'} {w} {r} {r'} {wr} {de} run m =
    subst (λ t. ReaderSteps s (state q' w r' wr t)) (append-nil de) (moves run m)

-- They are steps of the system, and the writer takes none.
ReaderSteps-Steps :
    {s t : System} → ReaderSteps s t → Steps s t × (t.written ≡ s.written) × (t.writer ≡ s.writer)
ReaderSteps-Steps stays = (here, refl, refl)
ReaderSteps-Steps (moves run m) =
    let (steps, written, writer) = ReaderSteps-Steps run in (later steps (reads m), written, writer)

module _ (q : Queue) (w : Writer) (wr de : List ℕ) (ready : IsReady q) (seam : Seamless q 0) (n : ℕ)
    (enough : n * q.quantum ≤ used q) where
  abbrev after_loads : ℕ → System
  unfolding loading marks
  after_loads m =
      state q w
        (draining (ring_regions q.size q.quantum (q.read_ptr % q.size) n) n (loading q m) (marks m))
        wr de

  loads_first :
      {s : System} (m : ℕ)
      → m ≤ n * q.quantum
      → ReaderSteps s (after_loads 0)
      → ReaderSteps s (after_loads m)
  unfolding loading marks
  loads_first zero h run = run
  loads_first (suc m) h run = quietly (loads_first m (omega arith) run) (
      Concurrent.ReaderMove.loads m (omega arith)
        (read_byte_place ready seam n m enough (omega arith)))

  -- Begin, load every byte, commit.
  takes : (t : System) × ReaderSteps (state q w waiting wr de) t × (t.queue ≡ (commit_read q n).0)
  unfolding loading marks
  takes = (
    _,
    moves
        (loads_first (n * q.quantum) (omega arith) (
          quietly stays (
            Concurrent.ReaderMove.begins n (λ i. 0) (omega (arith, ready))
              (begin_read-regions ready.valid n ready.in_step enough))))
        (Concurrent.ReaderMove.commits (λ k h. marks_all (n * q.quantum) k h)),
    refl,
  )

emptied : {q : Queue} (n : ℕ) → IsReady q → used q ≡ n * q.quantum → used (commit_read q n).0 ≡ 0
unfolding commit_read
emptied n r e = ground (arith, r, e)

-- In each state that one writer and one reader reach from a fresh, valid, synchronized queue,
-- where `beginRead` is only called for counts of messages that have fewer than `2 ^ 64` bytes, and
-- the size of the ring divides `2 ^ 64` or fewer than `2 ^ 64` bytes were written: a reader that
-- holds no transaction can go on by steps that are all its own, whatever the writer holds, to a
-- state where every byte written so far is delivered, and nothing was written meanwhile.
pub reader_catches_up :
    (q : Queue) {s : System}
    → IsReady (launch q).queue
    → Steps (launch q) s
    → Counted q.size s.written
    → s.reader ≡ waiting
    → (t : System) × ReaderSteps s t
      × (t.delivered ≡ s.written)
      × (t.written ≡ s.written)
      × (t.writer ≡ s.writer)
reader_catches_up q {s} r run counted rest =
    let (steps, written, writer) = ReaderSteps-Steps taken.1 in
    (taken.0, taken.1, all steps written, written, writer)
  where
    inv : Inv s
    inv = (Steps-Inv run counted (launch-Inv q r)).0

    counted' : Counted s.queue.size s.written
    counted' = rw (Steps-Inv run counted (launch-Inv q r)).1 counted

    seam : Seamless s.queue 0
    seam = Inv-Seamless inv counted'

    n : ℕ
    n = used s.queue / s.queue.quantum

    whole : n * s.queue.quantum ≡ used s.queue
    whole = div-mul_of_mod (used s.queue) s.queue.quantum (used-whole inv.ready seam)

    taken : (t : System) × ReaderSteps s t × (t.queue ≡ (commit_read s.queue n).0)
    taken =
        subst
          (λ z.
            (t : System) × ReaderSteps (state s.queue s.writer z s.written s.delivered) t
            × (t.queue ≡ (commit_read s.queue n).0))
          (sym rest)
          (takes s.queue s.writer s.written s.delivered inv.ready seam n (omega (arith, whole)))

    t : System
    t = taken.0

    empty : used t.queue ≡ 0
    empty = rw taken.2 (emptied n inv.ready (sym whole))

    all : Steps s t → t.written ≡ s.written → t.delivered ≡ s.written
    all steps written =
        sym (append-nil t.delivered)
        ∙ ap (λ (m : ℕ). t.delivered ++ tabulate m (byte_at t.queue)) (sym empty)
        ∙ sym (Steps-Inv steps (rw written counted') inv).0.balanced
        ∙ written
