-- ===== src/Fifo.antt =====
-- What a queue of the synchronized flavor promises its two users: a first-in first-out channel of
-- bytes with a bounded capacity, in which messages are whole multiples of `quantum` bytes.
use android_system_libfmq.Base.{
  ℕ, ◌+◌, ◌*◌, List, [], ◌∷◌, ◌++◌, leb, if◌then◌else◌, length, take, drop, tabulate,
}
use android_system_libfmq.Memory.{Memory}

-- A call of a user. The messages written come from a buffer, those read go to one.
pub data Call : Type 0 where
  put : Memory → ℕ → Call
  get : ℕ → Call

-- What it sees: whether the call succeeded, and the bytes that a read delivered.
pub data Reply : Type 0 where
  accepted refused : Reply
  delivered : List ℕ → Reply

module _ (capacity quantum : ℕ) where
  unfoldable pub step : List ℕ → Call → List ℕ × Reply
  step q (put d n) =
      if leb (length q + n * quantum) capacity
      then (q ++ tabulate (n * quantum) d, accepted)
      else (q, refused)
  step q (get n) =
      if leb (n * quantum) (length q)
      then (drop (n * quantum) q, delivered (take (n * quantum) q))
      else (q, refused)

  unfoldable pub run : List ℕ → List Call → List Reply
  run q [] = []
  run q (c ∷ cs) = let (q', r) = step q c in r ∷ run q' cs
