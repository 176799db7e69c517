-- ===== src/Broadcast/Writes.antt =====
-- Each step of the writer keeps what holds of it.
use android_system_libfmq.Base.{
  neq_of_==, ℕ, ◌+◌, ◌-◌, ◌*◌, ◌%◌, ◌<◌, ◌≤◌, ◌≡◌, inl, inr, ap, sym, ◌∙◌, arith, Bool, true, false,
  some, List, ◌++◌, length, length-append, length-tabulate, tabulate, get_elem?,
  get_elem?-append_left, get_elem?-append_right, get_elem?-tabulate, eq_of_==, ◌==◌, Bool-cases,
  mul-le_of_le-div, mul-mod, add-mod-eq-zero, le-or-lt,
}
use android_system_libfmq.Memory.{word64, Memory}
use android_system_libfmq.Transaction.{MemTransaction, no_transaction}
use android_system_libfmq.Queue.{Queue, begin_write, commit_write, ring_regions, get_quantum_count}
use android_system_libfmq.Concurrent.{
  Writer, resting, filling, Reader, waiting, draining, byte_place, poke, mark, WriterMove, stores,
  begun_write,
}
use android_system_libfmq.Concurrent
use android_system_libfmq.Concurrent.Places.{mod_add-injective, poke-same, poke-other}
use android_system_libfmq.Broadcast.{extent}
use android_system_libfmq.Broadcast.Inv.{Fills, Airs}
use mathlib.Core.List.{append-nil}
use native.Mathlib.Nat.{mod-lt, mod-add-mod}
use Prim.Native.Nat.{max}
use android_system_libfmq.Broadcast.Places.{places_differ, byte_place-from}

module _ {q : Queue} {w : Writer} {wr : List ℕ} {reach : ℕ} (airs : Airs q w wr reach) where
  begin_write-begun :
      (n : ℕ) {tx : MemTransaction}
      → begin_write q n no_transaction ≡ some (true, tx)
      → (tx ≡ ring_regions q.size q.quantum (q.write_ptr % q.size) n) × (n * q.quantum ≤ q.size)
  unfolding begin_write get_quantum_count
  begin_write-begun n e =
      ground (arith, e, airs.unsynchronized, mul-le_of_le-div n q.size q.quantum)

-- The ring and the counter stay: the writer begins, fails to begin, or leaves a transaction.
turns :
    {q : Queue} {w : Writer} (w' : Writer) {wr : List ℕ} {reach : ℕ}
    → Airs q w wr reach
    → Fills q w'
    → Airs q w' wr (max reach (extent q w'))
turns w' airs fills = record {
  quantum_pos = airs.quantum_pos;
  size_pos = airs.size_pos;
  size_fits = airs.size_fits;
  whole = airs.whole;
  unsynchronized = airs.unsynchronized;
  write_aligned = airs.write_aligned;
  counted = airs.counted;
  reached = omega arith;
  fills = fills;
  kept = λ p h k. airs.kept p h (omega arith);
}

begins-Airs :
    {q : Queue} {wr : List ℕ} {reach : ℕ} (n : ℕ) (d : Memory) (begun : Bool) {tx : MemTransaction}
    → begin_write q n no_transaction ≡ some (begun, tx)
    → Airs q resting wr reach
    → Airs q (begun_write begun tx n d) wr (max reach (extent q (begun_write begun tx n d)))
begins-Airs n d false e airs = turns resting airs tt
begins-Airs n d true {tx} e airs =
    let (regions, fits) = begin_write-begun airs n e in
    turns (filling tx n d _) airs (regions, fits, λ k h none. cc)

module _ {q : Queue} {tx : MemTransaction} {n : ℕ} {d : Memory} {done : ℕ → Bool} {wr : List ℕ}
    {reach : ℕ} (airs : Airs q (filling tx n d done) wr reach) where
  abbrev len : ℕ
  len = n * q.quantum

  module _ (k : ℕ) {a : ℕ} (below : k < len) (at : byte_place q.quantum tx k ≡ some a) where
    address : a ≡ (q.write_ptr + k) % q.size
    address = cc (
      at,
      airs.fills.0,
      byte_place-from airs q.write_ptr n k airs.write_aligned airs.fills.1 below,
    )

    abbrev stored : Queue
    stored = record q { ring = poke q.ring a (d k) }

    stored_so_far :
        (j : ℕ)
        → j < len
        → mark done k j ≡ true
        → poke q.ring a (d k) ((q.write_ptr + j) % q.size) ≡ d j
    unfolding mark
    stored_so_far j h marked = elim (Bool-cases (j == k)) [
      | inl p ↦
          let e : j ≡ k = eq_of_== p in poke-same q.ring (d k) (rw e (sym address)) ∙ ap d (sym e)
      | inr p ↦
          poke-other q.ring (d k) (λ e. neq_of_== p (
            mod_add-injective q.size (q.write_ptr % q.size) j k (mod-lt q.write_ptr airs.size_pos)
              (omega (arith, airs.fills.1)) (omega (arith, airs.fills.1))
              (mod-add-mod q.write_ptr q.size j
                ∙ e
                ∙ address
                ∙ sym (mod-add-mod q.write_ptr q.size k))))
          ∙ airs.fills.2 j h (ground (arith, marked, p))
    ]

    still_kept :
        (p : ℕ)
        → p < length wr
        → reach ≤ p + q.size
        → get_elem? wr p ≡ some (poke q.ring a (d k) (p % q.size))
    still_kept p h far =
        airs.kept p h far
        ∙ ap some (
            sym (
              poke-other q.ring (d k) (λ e.
                places_differ q.size p (q.write_ptr + k) airs.size_pos (omega (arith, airs.counted))
                  (omega (arith, airs.reached)) (e ∙ address))))

    stores-Airs :
        Airs stored
          (filling tx n d (mark done k))
          wr
          (max reach (extent stored (filling tx n d (mark done k))))
    stores-Airs = record {
      quantum_pos = airs.quantum_pos;
      size_pos = airs.size_pos;
      size_fits = airs.size_fits;
      whole = airs.whole;
      unsynchronized = airs.unsynchronized;
      write_aligned = airs.write_aligned;
      counted = airs.counted;
      reached = omega arith;
      fills = (airs.fills.0, airs.fills.1, stored_so_far);
      kept = λ p h far. still_kept p h (omega arith);
    }

  module _ (few : length wr + len < word64) (full : (k : ℕ) → k < len → done k ≡ true) where
    abbrev committed : Queue
    committed = (commit_write q n).0

    committed_count : committed.write_ptr ≡ q.write_ptr + len
    unfolding commit_write
    committed_count = omega (arith, airs.counted)

    -- A byte is one of before, or of the messages.
    commit_kept :
        (p : ℕ)
        → p < length wr + len
        → reach ≤ p + q.size
        → get_elem? (wr ++ tabulate len d) p ≡ some (q.ring (p % q.size))
    commit_kept p h far = elim (le-or-lt (length wr) p) [
      | inl new ↦
          let e : p ≡ length wr + (p - length wr) = omega arith in
          let e' : q.write_ptr + (p - length wr) ≡ p = omega (arith, airs.counted) in
          ap (get_elem? (wr ++ tabulate len d)) e
          ∙ get_elem?-append_right wr (tabulate len d) (p - length wr)
          ∙ get_elem?-tabulate len d (p - length wr) (omega arith)
          ∙ ap some (
              sym (airs.fills.2 (p - length wr) (omega arith) (full (p - length wr) (omega arith)))
              ∙ ap (λ t. q.ring (t % q.size)) e')
      | inr old ↦ get_elem?-append_left wr (tabulate len d) p old ∙ airs.kept p old far
    ]

    commits-Airs : Airs committed resting (wr ++ tabulate len d) (max reach committed.write_ptr)
    unfolding commit_write
    commits-Airs = record {
      quantum_pos = airs.quantum_pos;
      size_pos = airs.size_pos;
      size_fits = airs.size_fits;
      whole = airs.whole;
      unsynchronized = airs.unsynchronized;
      write_aligned =
          rw committed_count
            (add-mod-eq-zero q.write_ptr len q.quantum airs.write_aligned (mul-mod n q.quantum));
      counted = committed_count ∙ rw (length-append, length-tabulate) (omega (arith, airs.counted));
      reached = omega arith;
      fills = tt;
      kept = λ p h far.
          commit_kept p (omega (arith, h, length-append wr (tabulate len d), length-tabulate len d))
            (omega arith);
    }

-- After a step of the writer, with the bytes that it commits.
pub WriterMove-Airs :
    {q q' : Queue} {w w' : Writer} {wr out : List ℕ} {reach : ℕ}
    → WriterMove q w q' w' out
    → length (wr ++ out) < word64
    → Airs q w wr reach
    → Airs q' w' (wr ++ out) (max reach (extent q' w'))
WriterMove-Airs (Concurrent.WriterMove.begins n d {begun} e) few airs =
    rw append-nil (begins-Airs n d begun e airs)
WriterMove-Airs (stores k below at) few airs = rw append-nil (stores-Airs airs k below at)
WriterMove-Airs {q} {wr = wr} (Concurrent.WriterMove.commits {n = n} {d = d} full) few airs =
    commits-Airs airs
      (omega (
        arith,
        few,
        length-append wr (tabulate (n * q.quantum) d),
        length-tabulate (n * q.quantum) d,
      ))
      full
WriterMove-Airs Concurrent.WriterMove.abandons few airs = rw append-nil (turns resting airs tt)
