-- ===== src/Handshake/Tests.antt =====
-- A blocking writer and a blocking reader on a ring for two messages, and the theorems at this run.
use android_system_libfmq.Base.{◌+◌, ◌≡◌, ◌⊎◌, refl, arith}
use android_system_libfmq.Memory.{Memory}
use android_system_libfmq.Flavor.{synchronized_read_write}
use android_system_libfmq.Queue.{
  Queue, write, read, begin_write, begin_read, commit_write, available_to_write,
}
use android_system_libfmq.Transaction.{copy_to, get_mem_region_info, copy_out}
use android_system_libfmq.Blocking.{try_write, try_read}
use android_system_libfmq.Handshake.{
  asleep, announcing, Move, writes, reads, Pair, Steps, here, later, launch, hear,
}
use android_system_libfmq.Handshake.Inv.{Disjoint, IsCalling}
use android_system_libfmq.Handshake.Attempts.{Usable}
use android_system_libfmq.Handshake.Sleep.{sleeping_reader_told, no_deadlock}

abbrev small : Queue
small = record {
  flavor = synchronized_read_write;
  size = 4;
  quantum = 2;
  ring = λ i. 0;
  read_ptr = 0;
  write_ptr = 0;
}

-- `FMQ_NOT_FULL` is 1 and `FMQ_NOT_EMPTY` is 2.
masks : Disjoint 1 2
masks = record {
  a_pos = omega arith;
  b_pos = omega arith;
  a_fits = omega arith;
  b_fits = omega arith;
  apart = refl;
}

small-Usable : Usable 1 small small
small-Usable = record {
  ready = record { valid = omega arith; in_step = omega arith; synchronized = refl };
  wraps = refl;
  fits = omega arith;
  same_size = refl;
  same_quantum = refl;
}

abbrev message : Memory
message i = i + 5

-- The reader finds nothing and goes to sleep, then the writer writes a message.
run : (s : Pair) × Steps (try_write 1) (try_read 1) 1 2 (launch small 0) s
unfolding read begin_read hear write begin_write available_to_write copy_to get_mem_region_info
    copy_out commit_write
run = (
  _,
  later
      (later
        (later
          (later (later (later here (reads Move.calls)) (reads (Move.fails message refl)))
            (reads (Move.expects refl)))
          (reads (Move.sleeps refl)))
        (writes Move.calls))
      (writes (Move.succeeds message refl)),
)

sleeping_reader_told_example : (run.0.writer ≡ announcing) ⊎ IsCalling 2 run.0.writer
unfolding run hear commit_write
sleeping_reader_told_example =
    sleeping_reader_told 1 1 1 2 0 small masks small-Usable (omega arith) run.1 refl (omega arith)

no_deadlock_example : ¬ ((run.0.writer ≡ asleep) × (run.0.reader ≡ asleep))
unfolding run hear commit_write
no_deadlock_example =
    no_deadlock 1 1 1 2 0 small masks small-Usable (omega arith) run.1 (omega arith)
