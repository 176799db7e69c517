-- ===== src/Concurrent/Inv.antt =====
-- What holds in every state of one writer and one reader that run concurrently.
use android_system_libfmq.Base.{
  ℕ, ◌+◌, ◌*◌, ◌%◌, ◌<◌, ◌≤◌, ◌≡◌, ◌⊎◌, inl, inr, refl, arith, true, List, ◌++◌, length,
  length-append, length-tabulate,
}
use android_system_libfmq.Memory.{word64}
use android_system_libfmq.Queue.{Queue, ring_regions}
use android_system_libfmq.Queue.Inv.{Seamless, used, byte_at, contents}
use android_system_libfmq.Queue.Refine.{IsReady}
use android_system_libfmq.Concurrent.{Writer, resting, filling, Reader, waiting, draining, System}

-- A transaction of the writer lies in the free part, and what is stored is there.
abbrev pub WriterOk : Queue → Writer → Type 0
WriterOk q resting = Unit
WriterOk q (filling tx n d done) =
    (tx ≡ ring_regions q.size q.quantum (q.write_ptr % q.size) n)
    × (used q + n * q.quantum ≤ q.size)
    × ((k : ℕ)
        → k < n * q.quantum
        → done k ≡ true
        → q.ring ((q.write_ptr % q.size + k) % q.size) ≡ d k)

-- One of the reader lies in the used part, and what is loaded are the oldest bytes.
abbrev pub ReaderOk : Queue → Reader → Type 0
ReaderOk q waiting = Unit
ReaderOk q (draining tx n d done) =
    (tx ≡ ring_regions q.size q.quantum (q.read_ptr % q.size) n)
    × (n * q.quantum ≤ used q)
    × ((k : ℕ) → k < n * q.quantum → done k ≡ true → d k ≡ byte_at q k)

pub record Inv (s : System) : Type 0 where
  pub ready : IsReady s.queue
  pub balanced : s.written ≡ s.delivered ++ contents s.queue
  pub written_count : s.queue.write_ptr ≡ length s.written % word64
  pub delivered_count : s.queue.read_ptr ≡ length s.delivered % word64
  pub writer_ok : WriterOk s.queue s.writer
  pub reader_ok : ReaderOk s.queue s.reader

abbrev pub state : Queue → Writer → Reader → List ℕ → List ℕ → System
state q w r written delivered = record {
  queue = q;
  writer = w;
  reader = r;
  written = written;
  delivered = delivered;
}

-- The write counter has not wrapped, or it may because the size divides `2 ^ 64`.
abbrev pub Unwrapped : System → Type 0
Unwrapped s = (word64 % s.queue.size ≡ 0) ⊎ (length s.written < word64)

pub Inv-Seamless : {s : System} → Inv s → Unwrapped s → Seamless s.queue 0
Inv-Seamless i (inl h) = inl h
Inv-Seamless {s} i (inr h) = inr (grind (arith, i, ap_length))
  where
    ap_length : length s.written ≡ length s.delivered + used s.queue
    ap_length = rw (i.balanced, length-append, length-tabulate) refl
