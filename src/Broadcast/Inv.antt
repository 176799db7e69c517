-- ===== src/Broadcast/Inv.antt =====
-- What holds in every state of one writer and the readers of an unsynchronized queue.
use android_system_libfmq.Base.{
  ℕ, ◌+◌, ◌*◌, ◌%◌, ◌<◌, ◌≤◌, ◌≡◌, true, false, some, List, length, get_elem?,
}
use android_system_libfmq.Memory.{word64}
use android_system_libfmq.Flavor.{is_synchronized}
use android_system_libfmq.Queue.{Queue, ring_regions}
use android_system_libfmq.Concurrent.{Writer, resting, filling, Reader, waiting, draining}
use android_system_libfmq.Broadcast.{extent}

-- A transaction of the writer starts at its counter, and what is stored is there.
abbrev pub Fills : Queue → Writer → Type 0
Fills q resting = Unit
Fills q (filling tx n d done) =
    (tx ≡ ring_regions q.size q.quantum (q.write_ptr % q.size) n)
    × (n * q.quantum ≤ q.size)
    × ((k : ℕ) → k < n * q.quantum → done k ≡ true → q.ring ((q.write_ptr + k) % q.size) ≡ d k)

-- The queue as the writer has it. A byte is still in the ring as long as the writer has not begun
-- a transaction that has its place.
pub record Airs (q : Queue) (w : Writer) (written : List ℕ) (reach : ℕ) : Type 0 where
  pub quantum_pos : 0 < q.quantum
  pub size_pos : 0 < q.size
  pub size_fits : q.size < word64
  pub whole : q.size % q.quantum ≡ 0
  pub unsynchronized : is_synchronized q.flavor ≡ false
  pub write_aligned : q.write_ptr % q.quantum ≡ 0
  pub counted : q.write_ptr ≡ length written
  pub reached : extent q w ≤ reach
  pub fills : Fills q w
  pub kept :
      (p : ℕ)
      → p < length written
      → reach ≤ p + q.size
      → get_elem? written p ≡ some (q.ring (p % q.size))

-- What a reader has loaded are the bytes from its counter on, but for those whose place the
-- writer has begun to store to since.
abbrev pub Loads : (size quantum read_ptr : ℕ) → Reader → List ℕ → ℕ → Type 0
Loads size quantum read_ptr waiting written reach = Unit
Loads size quantum read_ptr (draining tx n d done) written reach =
    (tx ≡ ring_regions size quantum (read_ptr % size) n)
    × (n * quantum ≤ size)
    × (read_ptr + n * quantum ≤ length written)
    × ((k : ℕ)
        → k < n * quantum
        → done k ≡ true
        → reach ≤ read_ptr + k + size
        → get_elem? written (read_ptr + k) ≡ some (d k))

pub record Hears (size quantum ptr : ℕ) (r : Reader) (written : List ℕ) (reach : ℕ) : Type 0 where
  pub behind : ptr ≤ length written
  pub read_aligned : ptr % quantum ≡ 0
  pub loads : Loads size quantum ptr r written reach
