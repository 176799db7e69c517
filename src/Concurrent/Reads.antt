-- ===== src/Concurrent/Reads.antt =====
-- Each step of the reader keeps the invariant.
use android_system_libfmq.Base.{
  neq_of_==, ℕ, ◌+◌, ◌*◌, ◌%◌, ◌<◌, ◌≤◌, ◌≡◌, inl, inr, refl, ap, ap₂, sym, ◌∙◌, arith, Bool, true,
  false, some, List, [], ◌++◌, length-append, length-tabulate, tabulate, tabulate_ext, take, drop,
  take-drop, take-tabulate, eq_of_==, ◌==◌, Bool-cases, if◌then◌else◌,
}
use android_system_libfmq.Memory.{word64, Memory}
use android_system_libfmq.Transaction.{MemTransaction}
use android_system_libfmq.Queue.{Queue, begin_read, commit_read}
use android_system_libfmq.Queue.Inv.{Seamless, used, byte_at, contents}
use android_system_libfmq.Queue.Read.{consumed, consumed-IsValid, contents-consumed}
use android_system_libfmq.Concurrent.{
  Writer, resting, filling, Reader, waiting, draining, begun_read, byte_place, poke, mark,
  ReaderMove, loads,
}
use android_system_libfmq.Concurrent
use android_system_libfmq.Concurrent.Places.{poke-same, poke-other}
use android_system_libfmq.Concurrent.Begin.{begin_read-used, read_byte_place, byte_at-place}
use android_system_libfmq.Concurrent.Inv.{WriterOk, ReaderOk, Inv, state}
use mathlib.Core.List.{append_assoc, append-nil}

-- The writer is not disturbed by the read counter, as long as no byte is taken back.
writer_stays :
    (q : Queue) (read_ptr : ℕ) (w : Writer)
    → used (record q { read_ptr = read_ptr }) ≤ used q
    → WriterOk q w
    → WriterOk (record q { read_ptr = read_ptr }) w
writer_stays q read_ptr resting less ok = ok
writer_stays q read_ptr (filling tx n d done) less (e, free, stored) = (e, omega arith, stored)

turns :
    {q : Queue} {w : Writer} {r r' : Reader} {wr de : List ℕ}
    → Inv (state q w r wr de)
    → ReaderOk q r'
    → Inv (state q w r' wr de)
turns inv ok = record {
  ready = inv.ready;
  balanced = inv.balanced;
  written_count = inv.written_count;
  delivered_count = inv.delivered_count;
  writer_ok = inv.writer_ok;
  reader_ok = ok;
}

module _ {q : Queue} {tx : MemTransaction} {n : ℕ} {d : Memory} {done : ℕ → Bool} {w : Writer}
    {wr de : List ℕ} (inv : Inv (state q w (draining tx n d done) wr de))
    (seam : Seamless q 0) where
  abbrev len : ℕ
  len = n * q.quantum

  module _ (k : ℕ) {a : ℕ} (below : k < len) (at : byte_place q.quantum tx k ≡ some a) where
    loaded_byte : q.ring a ≡ byte_at q k
    loaded_byte =
        ap q.ring address ∙ sym (byte_at-place inv.ready seam k (omega (arith, inv.reader_ok.1)))
      where
        address : a ≡ (q.read_ptr % q.size + k) % q.size
        address = cc (at, inv.reader_ok.0, read_byte_place inv.ready seam n k inv.reader_ok.1 below)

    loaded_so_far : (j : ℕ) → j < len → mark done k j ≡ true → poke d k (q.ring a) j ≡ byte_at q j
    unfolding mark
    loaded_so_far j h marked = elim (Bool-cases (j == k)) [
      | inl p ↦
          let e : j ≡ k = eq_of_== p in
          poke-same d (q.ring a) e ∙ loaded_byte ∙ ap (byte_at q) (sym e)
      | inr p ↦
          poke-other d (q.ring a) (neq_of_== p) ∙ inv.reader_ok.2 j h (ground (arith, marked, p))
    ]

    pub loads-Inv : Inv (state q w (draining tx n (poke d k (q.ring a)) (mark done k)) wr de)
    loads-Inv = turns inv (inv.reader_ok.0, inv.reader_ok.1, loaded_so_far)

  commit_read-consumed : commit_read q n ≡ (consumed q n, true)
  unfolding commit_read
  commit_read-consumed = ground (arith, inv.ready, inv.reader_ok.1)

  module _ (full : (k : ℕ) → k < len → done k ≡ true) where
    loaded : tabulate len d ≡ take len (contents q)
    loaded =
        tabulate_ext len d (byte_at q) (λ k h. inv.reader_ok.2 k h (full k h))
        ∙ sym (take-tabulate len (used q) (byte_at q) inv.reader_ok.1)

    consumed-Inv : Inv (state (consumed q n) w waiting wr (de ++ tabulate len d))
    consumed-Inv = record {
      ready = record {
        valid = consumed-IsValid inv.ready.valid n inv.ready.in_step inv.reader_ok.1 seam;
        in_step = omega (arith, inv.ready, inv.reader_ok.1);
        synchronized = inv.ready.synchronized;
      };
      balanced =
          inv.balanced
          ∙ ap (λ t. de ++ t) (sym (take-drop len (contents q)))
          ∙ sym (append_assoc de (take len (contents q)) (drop len (contents q)))
          ∙ ap₂ (λ t u. de ++ t ++ u) (sym loaded)
              (sym (contents-consumed inv.ready.valid n inv.ready.in_step inv.reader_ok.1 seam));
      written_count = inv.written_count;
      delivered_count = rw (length-append, length-tabulate) (omega (arith, inv.delivered_count));
      writer_ok =
          writer_stays q (consumed q n).read_ptr w (omega (arith, inv.ready, inv.reader_ok.1))
            inv.writer_ok;
      reader_ok = tt;
    }

    pub commits-Inv : Inv (
        state
          (commit_read q n).0
          w
          waiting
          wr
          (de ++ (if (commit_read q n).1 then tabulate len d else [])))
    commits-Inv = rw commit_read-consumed consumed-Inv

module _ {w : Writer} {wr de : List ℕ} where
  begins-Inv :
      (q : Queue) (n : ℕ) (d : Memory) (begun : Bool) {q' : Queue} {tx : MemTransaction}
      → n * q.quantum < word64
      → begin_read q n ≡ some (q', begun, tx)
      → Inv (state q w waiting wr de)
      → Inv (state q' w (begun_read begun tx n d) wr de)
  begins-Inv q n d false fits e inv = rw (begin_read-used inv.ready n fits e).0 inv
  begins-Inv q n d true fits e inv =
      let (same, begun) = begin_read-used inv.ready n fits e in
      rw same (turns inv ((begun refl).0, (begun refl).1, λ k h none. cc))

  -- After a step of the reader the invariant holds.
  pub ReaderMove-Inv :
      {q q' : Queue} {r r' : Reader} {out : List ℕ}
      → ReaderMove q r q' r' out
      → Seamless q 0
      → Inv (state q w r wr de)
      → Inv (state q' w r' wr (de ++ out))
  ReaderMove-Inv {q} (Concurrent.ReaderMove.begins n d {begun = begun} fits e) seam inv =
      rw append-nil (begins-Inv q n d begun fits e inv)
  ReaderMove-Inv (loads k below at) seam inv = rw append-nil (loads-Inv inv seam k below at)
  ReaderMove-Inv (Concurrent.ReaderMove.commits full) seam inv = commits-Inv inv seam full
  ReaderMove-Inv Concurrent.ReaderMove.abandons seam inv = rw append-nil (turns inv tt)
