-- ===== src/Concurrent.antt =====
-- One writer and one reader of a synchronized queue at the same time: `beginWrite`, `commitWrite`,
-- `beginRead` and `commitRead` of include/fmq/MessageQueueBase.h in any interleaving, with every
-- byte of the messages stored or loaded by a step of its own, in any order. Each of the four
-- calls is one step: it loads the other side's counter at most once, and stores only its own.
-- The steps are sequentially consistent, which the acquire loads and the release stores of the
-- counters are for.
pub mod Places
pub mod Inv
pub mod Begin
pub mod Writes
pub mod Reads
pub mod Order
pub mod Drain
mod Tests
use android_system_libfmq.Base.{
  ℕ, ◌+◌, ◌-◌, ◌*◌, ◌<◌, ◌≡◌, Bool, true, false, ltb, ◌==◌, if◌then◌else◌, ◌||◌, Option, some, List,
  [], ◌++◌, tabulate,
}
use android_system_libfmq.Memory.{word64, Memory}
use android_system_libfmq.Transaction.{MemTransaction, no_transaction}
use android_system_libfmq.Queue.{Queue, begin_write, commit_write, begin_read, commit_read}
use mathlib.Core.Option

-- Where byte `k` of the messages of a transaction lies.
unfoldable pub byte_place : ℕ → MemTransaction → ℕ → Option ℕ
byte_place q tx k =
    if ltb k (tx.first.length * q)
    then Option.map (λ a. a + k) tx.first.address
    else Option.map (λ a. a + (k - tx.first.length * q)) tx.second.address

-- One byte of a memory, and one index of a set, replaced.
unfoldable pub poke : Memory → ℕ → ℕ → Memory
poke m a v i = if i == a then v else m i

unfoldable pub mark : (ℕ → Bool) → ℕ → ℕ → Bool
mark done k i = (i == k) || done i

abbrev pub nothing : ℕ → Bool
nothing i = false

-- `filling tx n d done`: `beginWrite(n, &tx)` has returned true, and the bytes of the message `d`
-- that `done` marks are stored.
pub data Writer : Type 0 where
  resting : Writer
  filling : MemTransaction → ℕ → Memory → (ℕ → Bool) → Writer

-- `draining tx n d done`: `beginRead(n, &tx)` has returned true, and the bytes that `done` marks
-- are loaded to the buffer `d`.
pub data Reader : Type 0 where
  waiting : Reader
  draining : MemTransaction → ℕ → Memory → (ℕ → Bool) → Reader

abbrev pub begun_write : Bool → MemTransaction → ℕ → Memory → Writer
begun_write true tx n d = filling tx n d nothing
begun_write false tx n d = resting

abbrev pub begun_read : Bool → MemTransaction → ℕ → Memory → Reader
begun_read true tx n d = draining tx n d nothing
begun_read false tx n d = waiting

-- A step of the writer, with the bytes that it commits.
pub data WriterMove (q : Queue) : Writer → Queue → Writer → List ℕ → Type 0 where
  begins :
      (n : ℕ) (d : Memory) {begun : Bool} {tx : MemTransaction}
      → begin_write q n no_transaction ≡ some (begun, tx)
      → WriterMove q resting q (begun_write begun tx n d) []
  stores :
      {tx : MemTransaction} {n : ℕ} {d : Memory} {done : ℕ → Bool} (k : ℕ) {a : ℕ}
      → k < n * q.quantum
      → byte_place q.quantum tx k ≡ some a
      → WriterMove q
          (filling tx n d done)
          (record q { ring = poke q.ring a (d k) })
          (filling tx n d (mark done k))
          []
  commits :
      {tx : MemTransaction} {n : ℕ} {d : Memory} {done : ℕ → Bool}
      → ((k : ℕ) → k < n * q.quantum → done k ≡ true)
      → WriterMove q (filling tx n d done) (commit_write q n).0 resting (tabulate (n * q.quantum) d)
  abandons :
      {tx : MemTransaction} {n : ℕ} {d : Memory} {done : ℕ → Bool}
      → WriterMove q (filling tx n d done) q resting []

-- A step of the reader, with the bytes that it takes. Its message counts do not wrap in bytes.
pub data ReaderMove (q : Queue) : Reader → Queue → Reader → List ℕ → Type 0 where
  begins :
      (n : ℕ) (d : Memory) {q' : Queue} {begun : Bool} {tx : MemTransaction}
      → n * q.quantum < word64
      → begin_read q n ≡ some (q', begun, tx)
      → ReaderMove q waiting q' (begun_read begun tx n d) []
  loads :
      {tx : MemTransaction} {n : ℕ} {d : Memory} {done : ℕ → Bool} (k : ℕ) {a : ℕ}
      → k < n * q.quantum
      → byte_place q.quantum tx k ≡ some a
      → ReaderMove q (draining tx n d done) q (draining tx n (poke d k (q.ring a)) (mark done k)) []
  commits :
      {tx : MemTransaction} {n : ℕ} {d : Memory} {done : ℕ → Bool}
      → ((k : ℕ) → k < n * q.quantum → done k ≡ true)
      → ReaderMove q
          (draining tx n d done)
          (commit_read q n).0
          waiting
          (if (commit_read q n).1 then tabulate (n * q.quantum) d else [])
  abandons :
      {tx : MemTransaction} {n : ℕ} {d : Memory} {done : ℕ → Bool}
      → ReaderMove q (draining tx n d done) q waiting []

-- `written` and `delivered` are the bytes of all commits so far.
pub record System : Type 0 where
  pub queue : Queue
  pub writer : Writer
  pub reader : Reader
  pub written : List ℕ
  pub delivered : List ℕ

pub data Step (s : System) : System → Type 0 where
  writes :
      {q : Queue} {w : Writer} {out : List ℕ}
      → WriterMove s.queue s.writer q w out
      → Step s (record s { queue = q; writer = w; written = s.written ++ out })
  reads :
      {q : Queue} {r : Reader} {out : List ℕ}
      → ReaderMove s.queue s.reader q r out
      → Step s (record s { queue = q; reader = r; delivered = s.delivered ++ out })

pub data Steps (s : System) : System → Type 0 where
  here : Steps s s
  later : {t u : System} → Steps s t → Step t u → Steps s u

-- Steps of the reader alone.
pub data ReaderSteps (s : System) : System → Type 0 where
  stays : ReaderSteps s s
  moves :
      {t : System} {q : Queue} {r : Reader} {out : List ℕ}
      → ReaderSteps s t
      → ReaderMove t.queue t.reader q r out
      → ReaderSteps s (record t { queue = q; reader = r; delivered = t.delivered ++ out })

-- Both sides at rest on a queue whose counters are 0.
abbrev pub launch : Queue → System
launch q = record {
  queue = record q { read_ptr = 0; write_ptr = 0 };
  writer = resting;
  reader = waiting;
  written = [];
  delivered = [];
}
