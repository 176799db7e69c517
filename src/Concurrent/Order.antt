-- ===== src/Concurrent/Order.antt =====
-- What one writer and one reader can rely on in every interleaving.
use android_system_libfmq.Base.{
  ℕ, ◌*◌, ◌%◌, ◌<◌, ◌≤◌, ◌≡◌, ◌≢◌, ◌⊎◌, inl, inr, refl, ap, ◌∙◌, arith, Bool, List, ◌++◌, length,
  length-append,
}
use android_system_libfmq.Memory.{word64, Memory}
use android_system_libfmq.Transaction.{MemTransaction}
use android_system_libfmq.Queue.{Queue, commit_write, commit_read}
use android_system_libfmq.Queue.Inv.{InStep, Seamless, contents}
use android_system_libfmq.Queue.Refine.{IsReady}
use android_system_libfmq.Concurrent.{
  Writer, filling, Reader, draining, System, WriterMove, ReaderMove, Step, writes, reads, Steps,
  here, later, launch, byte_place,
}
use android_system_libfmq.Concurrent
use android_system_libfmq.Concurrent.Begin.{
  begin_read-used, write_byte_place, read_byte_place, places-apart,
}
use android_system_libfmq.Concurrent.Inv.{Inv, Unwrapped, Inv-Seamless, state}
use android_system_libfmq.Concurrent.Writes.{WriterMove-Inv}
use android_system_libfmq.Concurrent.Reads.{ReaderMove-Inv}

WriterMove-size :
    {q q' : Queue} {w w' : Writer} {out : List ℕ} → WriterMove q w q' w' out → q'.size ≡ q.size
unfolding commit_write
WriterMove-size (Concurrent.WriterMove.begins n d e) = refl
WriterMove-size (Concurrent.WriterMove.stores k below at) = refl
WriterMove-size (Concurrent.WriterMove.commits full) = refl
WriterMove-size Concurrent.WriterMove.abandons = refl

ReaderMove-size :
    {q q' : Queue} {r r' : Reader} {out : List ℕ}
    → IsReady q
    → ReaderMove q r q' r' out
    → q'.size ≡ q.size
unfolding commit_read
ReaderMove-size ready (Concurrent.ReaderMove.begins n d fits e) =
    ap (λ (p : Queue). p.size) (begin_read-used ready n fits e).0
ReaderMove-size ready (Concurrent.ReaderMove.loads k below at) = refl
ReaderMove-size ready (Concurrent.ReaderMove.commits full) = ground arith
ReaderMove-size ready Concurrent.ReaderMove.abandons = refl

-- The counters keep their places in a ring of `size` bytes while the bytes `written` are counted.
abbrev pub Counted : ℕ → List ℕ → Type 0
Counted size written = (word64 % size ≡ 0) ⊎ (length written < word64)

Step-Inv :
    {s t : System}
    → Step s t
    → Counted s.queue.size t.written
    → Inv s
    → Inv t × (t.queue.size ≡ s.queue.size)
Step-Inv {s} (writes {out = out} m) counted inv =
    (WriterMove-Inv m (Inv-Seamless inv before) counted inv, WriterMove-size m)
  where
    before : Unwrapped s
    before = elim counted [
      | inl h ↦ inl h
      | inr h ↦ inr (omega (arith, length-append s.written out))
    ]
Step-Inv (reads m) counted inv =
    (ReaderMove-Inv m (Inv-Seamless inv counted) inv, ReaderMove-size inv.ready m)

Step-written : {s t : System} → Step s t → length s.written ≤ length t.written
Step-written {s} (writes {out = out} m) = omega (arith, length-append s.written out)
Step-written (reads m) = omega arith

pub Steps-Inv :
    {s t : System}
    → Steps s t
    → Counted s.queue.size t.written
    → Inv s
    → Inv t × (t.queue.size ≡ s.queue.size)
Steps-Inv here counted inv = (inv, refl)
Steps-Inv {s} {t} (later {t = u} run move) counted inv =
    let (inv_u, same) = Steps-Inv run before inv in
    let (inv_t, same_t) = Step-Inv move (rw same counted) inv_u in (inv_t, same_t ∙ same)
  where
    before : Counted s.queue.size u.written
    before = elim counted [ inl h ↦ inl h | inr h ↦ inr (omega (arith, Step-written move)) ]

pub launch-Inv : (q : Queue) → IsReady (launch q).queue → Inv (launch q)
launch-Inv q r = record {
  ready = r;
  balanced = refl;
  written_count = refl;
  delivered_count = refl;
  writer_ok = tt;
  reader_ok = tt;
}

-- From a fresh, valid, synchronized queue, after any steps of one writer and one reader in which
-- `beginRead` is only called for counts of messages that have fewer than `2 ^ 64` bytes, if the
-- size of the ring divides `2 ^ 64` or fewer than `2 ^ 64` bytes were written: the bytes written
-- are those delivered to the reader, in the same order, and behind them those that the queue
-- holds, which are at most its size.
pub delivered_in_order :
    (q : Queue) {s : System}
    → IsReady (launch q).queue
    → Steps (launch q) s
    → Counted q.size s.written
    → (s.written ≡ s.delivered ++ contents s.queue) × InStep s.queue
delivered_in_order q r run counted =
    let inv = (Steps-Inv run counted (launch-Inv q r)).0 in (inv.balanced, inv.ready.in_step)

-- In each state that one writer and one reader reach from a fresh, valid, synchronized queue, where
-- `beginRead` is only called for counts of messages that have fewer than `2 ^ 64` bytes, and the
-- size of the ring divides `2 ^ 64` or fewer than `2 ^ 64` bytes were written: while the writer and
-- the reader both hold a transaction, no byte of the writer's messages lies where a byte of the
-- reader's does.
pub no_race :
    (q : Queue) {s : System} {tx tx' : MemTransaction} {n m : ℕ} {d b : Memory}
    {stored loaded : ℕ → Bool}
    → IsReady (launch q).queue
    → Steps (launch q) s
    → Counted q.size s.written
    → s.writer ≡ filling tx n d stored
    → s.reader ≡ draining tx' m b loaded
    → (i j : ℕ) → i < n * s.queue.quantum
    → j < m * s.queue.quantum
    → byte_place s.queue.quantum tx i ≢ byte_place s.queue.quantum tx' j
no_race q {s} {tx} {tx'} {n} {m} {d} {b} {stored} {loaded} r run counted ew er i j hi hj = apart
  where
    inv :
        Inv (state s.queue (filling tx n d stored) (draining tx' m b loaded) s.written s.delivered)
    inv = rw (← ew, ← er) (Steps-Inv run counted (launch-Inv q r)).0

    seam : Seamless s.queue 0
    seam = Inv-Seamless inv (rw (Steps-Inv run counted (launch-Inv q r)).1 counted)

    apart : byte_place s.queue.quantum tx i ≢ byte_place s.queue.quantum tx' j
    apart same =
        places-apart inv.ready seam i j (omega (arith, inv.writer_ok.1))
          (omega (arith, inv.reader_ok.1))
          (cc (
            same,
            inv.writer_ok.0,
            inv.reader_ok.0,
            write_byte_place inv.ready seam n i inv.writer_ok.1 hi,
            read_byte_place inv.ready seam m j inv.reader_ok.1 hj,
          ))
