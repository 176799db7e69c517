-- ===== src/Concurrent/Tests.antt =====
-- One writer and one reader on a small ring, and the theorems at this run.
use android_system_libfmq.Base.{ℕ, ◌+◌, ◌≡◌, inl, refl, arith, false, ◌≢◌, [], ◌∷◌, ◌++◌}
use android_system_libfmq.Memory.{Memory}
use android_system_libfmq.Flavor.{synchronized_read_write}
use android_system_libfmq.Transaction.{MemTransaction, region, no_region}
use android_system_libfmq.Queue.{
  Queue, begin_write, commit_write, begin_read, available_to_write, get_quantum_count,
}
use android_system_libfmq.Queue.Inv.{InStep, contents}
use android_system_libfmq.Queue.Refine.{IsReady}
use android_system_libfmq.Concurrent
use android_system_libfmq.Concurrent.{
  System, writes, reads, Steps, here, later, ReaderSteps, launch, byte_place, mark, filling,
}
use android_system_libfmq.Concurrent.Order.{delivered_in_order, no_race}
use android_system_libfmq.Concurrent.Drain.{reader_catches_up}

-- Two messages of two bytes.
abbrev small : Queue
small = record {
  flavor = synchronized_read_write;
  size = 4;
  quantum = 2;
  ring = λ i. 0;
  read_ptr = 0;
  write_ptr = 0;
}

small-IsReady : IsReady (launch small).queue
small-IsReady = record { valid = omega arith; in_step = omega arith; synchronized = refl }

abbrev message : Memory
message i = i + 5

-- One message from a byte of the ring.
abbrev transaction : ℕ → MemTransaction
transaction a = record { first = region a 1; second = no_region }

-- A message is written, its last byte first; the next is begun.
written_run : (s : System) × Steps (launch small) s
unfolding begin_write commit_write byte_place available_to_write get_quantum_count mark
written_run = (
  _,
  later
      (later
        (later
          (later (later here (writes (Concurrent.WriterMove.begins 1 message refl)))
            (writes (Concurrent.WriterMove.stores 1 (omega arith) refl)))
          (writes (Concurrent.WriterMove.stores 0 (omega arith) refl)))
        (writes (Concurrent.WriterMove.commits (λ k h. ground arith))))
      (writes (Concurrent.WriterMove.begins 1 message refl)),
)

-- The reader begins to read the first.
run : (s : System) × Steps (launch small) s
unfolding written_run begin_read begin_write commit_write byte_place available_to_write
    get_quantum_count mark
run = (_, later written_run.1 (reads (Concurrent.ReaderMove.begins 1 message (omega arith) refl)))

delivered_in_order_example :
    (run.0.written ≡ run.0.delivered ++ contents run.0.queue) × InStep run.0.queue
delivered_in_order_example = delivered_in_order small small-IsReady run.1 (inl (omega arith))

no_race_example : byte_place 2 (transaction 2) 1 ≢ byte_place 2 (transaction 0) 1
unfolding run written_run begin_read begin_write commit_write available_to_write get_quantum_count
no_race_example =
    no_race small small-IsReady run.1 (inl (omega arith)) refl refl 1 1 (omega arith) (omega arith)

reader_catches_up_example :
    (t : System) × ReaderSteps written_run.0 t
    × (t.delivered ≡ 5 ∷ 6 ∷ [])
    × (t.written ≡ 5 ∷ 6 ∷ [])
    × (t.writer ≡ filling (transaction 2) 1 message (λ i. false))
unfolding written_run begin_read begin_write commit_write available_to_write get_quantum_count
reader_catches_up_example =
    reader_catches_up small small-IsReady written_run.1 (inl (omega arith)) refl
