-- ===== src/Concurrent/Writes.antt =====
-- Each step of the writer keeps the invariant.
use android_system_libfmq.Base.{
  neq_of_==, ℕ, ◌+◌, ◌*◌, ◌%◌, ◌<◌, ◌≤◌, ◌≡◌, ◌⊎◌, inl, inr, refl, ap, sym, ◌∙◌, arith, Bool, true,
  false, some, List, ◌++◌, length, length-append, length-tabulate, tabulate, tabulate-add,
  tabulate_ext, eq_of_==, ◌==◌, Bool-cases,
}
use android_system_libfmq.Memory.{word64, Memory}
use android_system_libfmq.Transaction.{MemTransaction, no_transaction}
use android_system_libfmq.Queue.{Queue, begin_write, commit_write}
use android_system_libfmq.Queue.Inv.{
  IsValid, Seamless, used, byte_at, contents, read_place, new_index,
}
use android_system_libfmq.Queue.Refine.{IsReady}
use android_system_libfmq.Queue.Write.{written-IsValid}
use android_system_libfmq.Concurrent.{
  Writer, resting, filling, Reader, waiting, draining, System, byte_place, poke, mark, WriterMove,
  stores, begun_write,
}
use android_system_libfmq.Concurrent
use android_system_libfmq.Concurrent.Places.{mod_add-injective, poke-same, poke-other}
use android_system_libfmq.Concurrent.Begin.{begin_write-free, write_byte_place, places-apart}
use android_system_libfmq.Concurrent.Inv.{WriterOk, ReaderOk, Inv, state}
use mathlib.Core.List.{append_assoc, append-nil}
use native.Mathlib.Nat.{mod-lt}

ring_stays : {q : Queue} (ring : Memory) → IsValid q → IsValid (record q { ring = ring })
ring_stays ring v = record {
  quantum_pos = v.quantum_pos;
  size_pos = v.size_pos;
  size_fits = v.size_fits;
  whole = v.whole;
  read_fits = v.read_fits;
  write_fits = v.write_fits;
  read_aligned = v.read_aligned;
  write_aligned = v.write_aligned;
}

-- The reader is not disturbed as long as the used bytes stay.
reader_stays :
    (q : Queue) (ring : Memory) (write_ptr : ℕ) (r : Reader)
    → used q ≤ used (record q { ring = ring; write_ptr = write_ptr })
    → ((i : ℕ)
        → i < used q
        → byte_at (record q { ring = ring; write_ptr = write_ptr }) i ≡ byte_at q i)
    → ReaderOk q r
    → ReaderOk (record q { ring = ring; write_ptr = write_ptr }) r
reader_stays q ring w waiting more same ok = ok
reader_stays q ring w (draining tx n d done) more same (e, enough, loaded) =
    (e, omega arith, λ k h marked. loaded k h marked ∙ sym (same k (omega arith)))

module _ {q : Queue} {tx : MemTransaction} {n : ℕ} {d : Memory} {done : ℕ → Bool} {r : Reader}
    {wr de : List ℕ} (inv : Inv (state q (filling tx n d done) r wr de)) where
  abbrev len : ℕ
  len = n * q.quantum

  abbrev off : ℕ
  off = q.write_ptr % q.size

  module _ (seam : Seamless q 0) (k : ℕ) {a : ℕ} (below : k < len)
      (at : byte_place q.quantum tx k ≡ some a) where
    address : a ≡ (off + k) % q.size
    address = cc (at, inv.writer_ok.0, write_byte_place inv.ready seam n k inv.writer_ok.1 below)

    abbrev stored : Queue
    stored = record q { ring = poke q.ring a (d k) }

    used_stays : (i : ℕ) → i < used q → byte_at stored i ≡ byte_at q i
    used_stays i h = poke-other q.ring (d k) (λ e.
        places-apart inv.ready seam k i (omega (arith, inv.writer_ok.1)) h
          (sym address ∙ sym e ∙ read_place inv.ready.valid 0 i seam (omega arith)))

    stored_so_far :
        (j : ℕ) → j < len → mark done k j ≡ true → stored.ring ((off + j) % q.size) ≡ d j
    unfolding mark
    stored_so_far j h marked = elim (Bool-cases (j == k)) [
      | inl p ↦
          let e : j ≡ k = eq_of_== p in poke-same q.ring (d k) (rw e (sym address)) ∙ ap d (sym e)
      | inr p ↦
          poke-other q.ring (d k) (λ e. neq_of_== p (
            mod_add-injective q.size off j k (mod-lt q.write_ptr inv.ready.valid.size_pos)
              (omega (arith, inv.writer_ok.1)) (omega (arith, inv.writer_ok.1)) (e ∙ address)))
          ∙ inv.writer_ok.2 j h (ground (arith, marked, p))
    ]

    pub stores-Inv : Inv (state stored (filling tx n d (mark done k)) r wr de)
    stores-Inv = record {
      ready = record {
        valid = ring_stays (poke q.ring a (d k)) inv.ready.valid;
        in_step = inv.ready.in_step;
        synchronized = inv.ready.synchronized;
      };
      balanced =
          inv.balanced
          ∙ ap (λ t. de ++ t) (sym (tabulate_ext (used q) (byte_at stored) (byte_at q) used_stays));
      written_count = inv.written_count;
      delivered_count = inv.delivered_count;
      writer_ok = (inv.writer_ok.0, inv.writer_ok.1, stored_so_far);
      reader_ok = reader_stays q stored.ring q.write_ptr r (omega arith) used_stays inv.reader_ok;
    }

  module _ (seam : Seamless q len) (full : (k : ℕ) → k < len → done k ≡ true) where
    abbrev committed : Queue
    committed = (commit_write q n).0

    committed_count : committed.write_ptr ≡ (q.write_ptr + len) % word64
    unfolding commit_write
    committed_count = omega (arith, inv.ready, inv.writer_ok.1)

    committed-IsReady : IsReady committed
    unfolding commit_write
    committed-IsReady = record {
      valid = record {
        quantum_pos = inv.ready.valid.quantum_pos;
        size_pos = inv.ready.valid.size_pos;
        size_fits = inv.ready.valid.size_fits;
        whole = inv.ready.valid.whole;
        read_fits = inv.ready.valid.read_fits;
        write_fits = omega arith;
        read_aligned = inv.ready.valid.read_aligned;
        write_aligned = rw committed_count (written-IsValid inv.ready.valid n d seam).write_aligned;
      };
      in_step = omega (arith, committed_count, inv.ready, inv.writer_ok.1);
      synchronized = inv.ready.synchronized;
    }

    used-committed : used committed ≡ used q + len
    unfolding commit_write
    used-committed = omega (arith, committed_count, inv.ready, inv.writer_ok.1)

    fresh : (k : ℕ) → k < len → byte_at q (used q + k) ≡ d k
    fresh k h =
        ap q.ring (
          read_place inv.ready.valid len (used q + k) seam (omega arith)
          ∙ sym (new_index inv.ready.valid len k seam))
        ∙ inv.writer_ok.2 k h (full k h)

    contents-committed : contents committed ≡ contents q ++ tabulate len d
    unfolding commit_write
    contents-committed = rw used-committed (
        tabulate-add (used q) len (byte_at q)
        ∙ ap (λ t. contents q ++ t) (tabulate_ext len (λ i. byte_at q (used q + i)) d fresh))

    pub commits-Inv : Inv (state committed resting r (wr ++ tabulate len d) de)
    unfolding commit_write
    commits-Inv = record {
      ready = committed-IsReady;
      balanced =
          ap (λ t. t ++ tabulate len d) inv.balanced
          ∙ append_assoc de (contents q) (tabulate len d)
          ∙ sym (ap (λ t. de ++ t) contents-committed);
      written_count =
          committed_count ∙ rw (length-append, length-tabulate) (omega (arith, inv.written_count));
      delivered_count = inv.delivered_count;
      writer_ok = tt;
      reader_ok =
          reader_stays q q.ring committed.write_ptr r (omega (arith, used-committed)) (λ i h. refl)
            inv.reader_ok;
    }

module _ {r : Reader} {wr de : List ℕ} where
  turns :
      {q : Queue} {w w' : Writer}
      → Inv (state q w r wr de)
      → WriterOk q w'
      → Inv (state q w' r wr de)
  turns inv ok = record {
    ready = inv.ready;
    balanced = inv.balanced;
    written_count = inv.written_count;
    delivered_count = inv.delivered_count;
    writer_ok = ok;
    reader_ok = inv.reader_ok;
  }

  -- The bytes of a commit are counted in what is written after it.
  room_left :
      {q : Queue} {w : Writer} (n : ℕ) (d : Memory)
      → Seamless q 0
      → (word64 % q.size ≡ 0) ⊎ (length (wr ++ tabulate (n * q.quantum) d) < word64)
      → Inv (state q w r wr de)
      → Seamless q (n * q.quantum)
  room_left n d seam (inl h) inv = inl h
  room_left {q} n d (inl h) (inr k) inv = inl h
  room_left {q} n d (inr h) (inr k) inv = inr (
    h.0,
    omega (
      arith,
      inv.written_count,
      k,
      length-append wr (tabulate (n * q.quantum) d),
      length-tabulate (n * q.quantum) d,
    ),
  )

  begins-Inv :
      (q : Queue) (n : ℕ) (d : Memory) (begun : Bool) {tx : MemTransaction}
      → begin_write q n no_transaction ≡ some (begun, tx)
      → Inv (state q resting r wr de)
      → Inv (state q (begun_write begun tx n d) r wr de)
  begins-Inv q n d false e inv = inv
  begins-Inv q n d true e inv =
      let (regions, free) = begin_write-free inv.ready n e in
      turns inv (regions, free, λ k h none. cc)

  -- After a step of the writer the invariant holds, if the counter keeps its places.
  pub WriterMove-Inv :
      {q q' : Queue} {w w' : Writer} {out : List ℕ}
      → WriterMove q w q' w' out
      → Seamless q 0
      → (word64 % q.size ≡ 0) ⊎ (length (wr ++ out) < word64)
      → Inv (state q w r wr de)
      → Inv (state q' w' r (wr ++ out) de)
  WriterMove-Inv {q} (Concurrent.WriterMove.begins n d {begun} e) seam unwrapped inv =
      rw append-nil (begins-Inv q n d begun e inv)
  WriterMove-Inv (stores k below at) seam unwrapped inv =
      rw append-nil (stores-Inv inv seam k below at)
  WriterMove-Inv (Concurrent.WriterMove.commits {n = n} {d = d} full) seam unwrapped inv =
      commits-Inv inv (room_left n d seam unwrapped inv) full
  WriterMove-Inv Concurrent.WriterMove.abandons seam unwrapped inv = rw append-nil (turns inv tt)
