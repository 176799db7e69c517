-- ===== src/Broadcast.antt =====
-- One writer and any number of readers of an unsynchronized queue at the same time, in any
-- interleaving, with every byte of the messages stored or loaded by a step of its own: the moves are
-- those of Concurrent, on include/fmq/MessageQueueBase.h. The flavor has no counter of the readers
-- in shared memory: `initMemory` gives each of them one of its own, which starts at 0.
pub mod Inv
pub mod Places
pub mod Writes
pub mod Further
pub mod Listens
pub mod Sound
pub mod Torn
mod Tests
use android_system_libfmq.Base.{ℕ, ◌+◌, ◌*◌, Bool, ◌==◌, if◌then◌else◌, List, [], ◌++◌}
use android_system_libfmq.Queue.{Queue}
use android_system_libfmq.Concurrent.{
  Writer, resting, filling, Reader, waiting, WriterMove, ReaderMove,
}
use Prim.Native.Nat.{max}

-- One reader: its counter, and where it is.
pub record Listener : Type 0 where
  pub read_ptr : ℕ
  pub reader : Reader

-- The queue as a reader has it mapped.
abbrev pub seen : Queue → Listener → Queue
seen q l = record q { read_ptr = l.read_ptr }

-- The end of what the writer may store to, as a count of bytes.
abbrev pub extent : Queue → Writer → ℕ
extent q resting = q.write_ptr
extent q (filling tx n d done) = q.write_ptr + n * q.quantum

-- `written` are the bytes of all commits, and `reach` the furthest `extent` so far: an abandoned
-- transaction may have left bytes behind the write counter.
pub record Broadcast : Type 0 where
  pub queue : Queue
  pub writer : Writer
  pub listeners : ℕ → Listener
  pub written : List ℕ
  pub reach : ℕ

abbrev pub update : (ℕ → Listener) → ℕ → Listener → ℕ → Listener
update ls i l j = if j == i then l else ls j

pub data Step (s : Broadcast) : Broadcast → Type 0 where
  writes :
      {q : Queue} {w : Writer} {out : List ℕ}
      → WriterMove s.queue s.writer q w out
      → Step s (record s {
        queue = q;
        writer = w;
        written = s.written ++ out;
        reach = max s.reach (extent q w);
      })
  listens :
      (i : ℕ) {q : Queue} {r : Reader} {out : List ℕ}
      → ReaderMove (seen s.queue (s.listeners i)) (s.listeners i).reader q r out
      → Step s (record s {
        listeners = update s.listeners i (record { read_ptr = q.read_ptr; reader = r });
      })

pub data Steps (s : Broadcast) : Broadcast → Type 0 where
  here : Steps s s
  later : {t u : Broadcast} → Steps s t → Step t u → Steps s u

-- Everyone at rest, and all counters 0.
abbrev pub launch : Queue → Broadcast
launch q = record {
  queue = record q { write_ptr = 0 };
  writer = resting;
  listeners = λ i. record { read_ptr = 0; reader = waiting };
  written = [];
  reach = 0;
}
