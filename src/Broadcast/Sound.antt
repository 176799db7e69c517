-- ===== src/Broadcast/Sound.antt =====
-- What a reader of an unsynchronized queue has when its read succeeds.
use android_system_libfmq.Base.{
  ℕ, ◌+◌, ◌*◌, ◌%◌, ◌<◌, ◌≤◌, ◌≡◌, ◌↔◌, inl, inr, refl, arith, Bool, true, false, some, List,
  length, length-append, tabulate, take, drop, tabulate-drop, get_elem?, ◌==◌, Bool-cases, leb,
}
use android_system_libfmq.Memory.{word64, Memory}
use android_system_libfmq.Flavor.{is_synchronized}
use android_system_libfmq.Transaction.{MemTransaction}
use android_system_libfmq.Queue.{Queue, commit_read}
use android_system_libfmq.Concurrent.{draining}
use android_system_libfmq.Broadcast.{
  Broadcast, Listener, seen, update, Step, writes, listens, Steps, here, later, launch,
}
use android_system_libfmq.Broadcast.Inv.{Airs, Hears}
use android_system_libfmq.Broadcast.Writes.{WriterMove-Airs}
use android_system_libfmq.Broadcast.Further.{WriterMove-Hears}
use android_system_libfmq.Broadcast.Listens.{ReaderMove-Hears, commit_read-ends}
use native.Mathlib.Nat.{zero-mod}

-- A mapped queue of the unsynchronized flavor.
pub record IsFresh (q : Queue) : Type 0 where
  pub quantum_pos : 0 < q.quantum
  pub size_pos : 0 < q.size
  pub size_fits : q.size < word64
  pub whole : q.size % q.quantum ≡ 0
  pub unsynchronized : is_synchronized q.flavor ≡ false

abbrev HearsAll : Queue → (ℕ → Listener) → List ℕ → ℕ → Type 0
HearsAll q ls wr reach = (i : ℕ) → Hears q.size q.quantum (ls i).read_ptr (ls i).reader wr reach

pub record Inv (s : Broadcast) : Type 0 where
  pub airs : Airs s.queue s.writer s.written s.reach
  pub hears : HearsAll s.queue s.listeners s.written s.reach

launch-Inv : (q : Queue) → IsFresh q → Inv (launch q)
launch-Inv q f = record {
  airs = record {
    quantum_pos = f.quantum_pos;
    size_pos = f.size_pos;
    size_fits = f.size_fits;
    whole = f.whole;
    unsynchronized = f.unsynchronized;
    write_aligned = zero-mod q.quantum;
    counted = refl;
    reached = omega arith;
    fills = tt;
    kept = λ p h. absurd (omega arith);
  };
  hears = λ i. record { behind = omega arith; read_aligned = zero-mod q.quantum; loads = tt };
}

-- The other readers do not see the step of one.
updated-HearsAll :
    (q : Queue) (ls : ℕ → Listener) (i : ℕ) (l : Listener) {wr : List ℕ} {reach : ℕ}
    → Hears q.size q.quantum l.read_ptr l.reader wr reach
    → HearsAll q ls wr reach
    → HearsAll q (update ls i l) wr reach
updated-HearsAll q ls i l one all j = elim (Bool-cases (j == i)) [
  | inl p ↦ rw p one
  | inr p ↦ rw p (all j)
]

Step-Inv : {s t : Broadcast} → Step s t → length t.written < word64 → Inv s → Inv t
Step-Inv {s} (writes move) few inv = record {
  airs = WriterMove-Airs move few inv.airs;
  hears = λ i. WriterMove-Hears (s.listeners i).read_ptr (s.listeners i).reader move (inv.hears i);
}
Step-Inv {s} (listens i {q} {r} move) few inv = record {
  airs = inv.airs;
  hears =
      updated-HearsAll s.queue s.listeners i (record { read_ptr = q.read_ptr; reader = r })
        (ReaderMove-Hears (s.listeners i).read_ptr inv.airs few move (inv.hears i)) inv.hears;
}

Step-longer : {s t : Broadcast} → Step s t → length s.written ≤ length t.written
Step-longer {s} (writes {out = out} move) = omega (arith, length-append s.written out)
Step-longer (listens i move) = omega arith

pub Steps-Inv : {s t : Broadcast} → Steps s t → length t.written < word64 → Inv s → Inv t
Steps-Inv here few inv = inv
Steps-Inv (later run step) few inv =
    Step-Inv step few (Steps-Inv run (omega (arith, Step-longer step)) inv)

pub reached-Inv :
    (q : Queue) {s : Broadcast} → IsFresh q → Steps (launch q) s → length s.written < word64 → Inv s
reached-Inv q fresh run few = Steps-Inv run few (launch-Inv q fresh)

module _ {s : Broadcast} (inv : Inv s) (few : length s.written < word64) (i : ℕ)
    {tx : MemTransaction} {n : ℕ} {d : Memory} {done : ℕ → Bool}
    (now : (s.listeners i).reader ≡ draining tx n d done)
    (full : (k : ℕ) → k < n * s.queue.quantum → done k ≡ true) where
  abbrev start : ℕ
  start = (s.listeners i).read_ptr

  abbrev len : ℕ
  len = n * s.queue.quantum

  hears : Hears s.queue.size s.queue.quantum start (draining tx n d done) s.written s.reach
  hears = rw (← now) (inv.hears i)

  right :
      (k : ℕ)
      → k < len
      → s.reach ≤ start + k + s.queue.size
      → get_elem? s.written (start + k) ≡ some (d k)
  right k h = hears.loads.3 k h (full k h)

  commit_ends :
      let (after, ended) = commit_read (seen s.queue (s.listeners i)) n in
      ((ended ≡ true) ↔ (length s.written ≤ start + s.queue.size))
      × (ended ≡ true → after.read_ptr ≡ start + len)
      × (ended ≡ false → after.read_ptr ≡ length s.written)
      × ((k : ℕ)
          → k < len
          → s.reach ≤ start + k + s.queue.size
          → get_elem? s.written (start + k) ≡ some (d k))
      × (ended ≡ true
          → s.reach ≤ length s.written
          → tabulate len d ≡ take len (drop start s.written))
  commit_ends =
      rw (commit_read-ends start inv.airs few hears.behind hears.read_aligned n hears.loads.2)
        (elim (Bool-cases (leb (length s.written) (start + s.queue.size))) [
          | inl p ↦ rw p (
            (λ _. ground arith, λ _. refl),
            λ _. refl,
            λ e. cc,
            right,
            λ _ settled. tabulate-drop len start d s.written (λ k h. right k h (ground arith)),
          )
          | inr p ↦
              rw p ((λ e. cc, λ h. ground arith), λ e. cc, λ _. inv.airs.counted, right, λ e. cc)
        ])

-- One writer and any number of readers have come, by any steps in which `beginRead` is only called
-- for counts of messages that have fewer than `2 ^ 64` bytes, from a fresh, valid, unsynchronized
-- queue to a state where fewer than `2 ^ 64` bytes were written, and a reader has loaded all bytes
-- of the `n` messages that it began to read. Its `commitRead` succeeds exactly if the writer has
-- committed no more than the size of the ring from the reader's counter on. On success the counter
-- goes on by the messages, otherwise to the end of what is written. In either case each byte it
-- has loaded is the one written at that count, unless the writer has begun a transaction that has
-- the byte's place; so if the writer has begun none beyond what is committed, a read that succeeds
-- gives just the messages written.
pub commit_read_sound :
    (q : Queue) {s : Broadcast} (i : ℕ) {tx : MemTransaction} {n : ℕ} {d : Memory} {done : ℕ → Bool}
    → IsFresh q
    → Steps (launch q) s
    → length s.written < word64
    → (s.listeners i).reader ≡ draining tx n d done
    → ((k : ℕ) → k < n * s.queue.quantum → done k ≡ true)
    → let start = (s.listeners i).read_ptr in
      let len = n * s.queue.quantum in
      let (after, ended) = commit_read (seen s.queue (s.listeners i)) n in
      ((ended ≡ true) ↔ (length s.written ≤ start + s.queue.size))
      × (ended ≡ true → after.read_ptr ≡ start + len)
      × (ended ≡ false → after.read_ptr ≡ length s.written)
      × ((k : ℕ)
          → k < len
          → s.reach ≤ start + k + s.queue.size
          → get_elem? s.written (start + k) ≡ some (d k))
      × (ended ≡ true
          → s.reach ≤ length s.written
          → tabulate len d ≡ take len (drop start s.written))
commit_read_sound q i fresh run few now full =
    commit_ends (reached-Inv q fresh run few) few i now full
