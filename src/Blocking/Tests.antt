-- ===== src/Blocking/Tests.antt =====
-- Blocking calls on a ring for three messages of two bytes.
use android_system_libfmq.Base.{ℕ, ◌+◌, inl, inr, refl, arith, false, some, List, [], ◌∷◌}
use android_system_libfmq.Memory.{Memory}
use android_system_libfmq.Flavor.{synchronized_read_write}
use android_system_libfmq.Queue.{Queue}
use android_system_libfmq.Queue.Refine.{IsReady}
use android_system_libfmq.EventFlag.{success, Futex, Pass}
use android_system_libfmq.EventFlag.Lifetime.{Flag}
use android_system_libfmq.Blocking.{
  Round, Blocking, default_arguments, try_write, try_read, write_blocking, read_blocking,
}
use android_system_libfmq.Blocking.Loop.{Returns}
use android_system_libfmq.Blocking.Ready.{
  Same, Any, Readable, write_blocking-Returns, read_blocking-Returns,
}

abbrev ring : Memory
ring i = 10 + i

-- A ring with `n` bytes in it.
abbrev holding : ℕ → Queue
holding n = record {
  flavor = synchronized_read_write;
  size = 6;
  quantum = 2;
  ring = ring;
  read_ptr = 8;
  write_ptr = 8 + n;
}

full-IsReady : IsReady (holding 6)
full-IsReady = record { valid = omega arith; in_step = omega arith; synchronized = refl }

empty-IsReady : IsReady (holding 0)
empty-IsReady = record { valid = omega arith; in_step = omega arith; synchronized = refl }

abbrev flag : Flag
flag = record { word_ptr = some 64; needs_unmapping = false }

abbrev writing : Blocking
writing = default_arguments 2 10 (some flag)

-- The other side sets both bits before the wait goes on.
abbrev waking : Futex
waking expected until mask = record { returned = success; word = 3 }

-- The wait of the first round starts with the first pass and has another one at its deadline.
abbrev pass : ℕ → Pass
pass elapsed = record {
  elapsed = elapsed;
  now = record { tv_sec = 0; tv_nsec = elapsed };
  word = 0;
  futex = waking;
}

abbrev round : ℕ → Queue → Round
round elapsed queue = record {
  elapsed = elapsed;
  wait_start = elapsed;
  passes = pass elapsed ∷ pass (elapsed + 10) ∷ [];
  queue = queue;
}

-- A full ring that a reader has emptied when the writer wakes up.
abbrev emptied : List Round
emptied = round 102 (holding 0) ∷ round 111 (holding 0) ∷ []

write_blocking-Returns_example :
    Returns IsReady
      (Same ring)
      (try_write 2)
      2
      (write_blocking writing 100 (holding 6) (some ring) emptied)
write_blocking-Returns_example =
    write_blocking-Returns writing 100 (holding 6) ring emptied (omega arith) (omega arith)
      (
        omega arith,
        omega arith,
        inr (
          omega arith,
          omega arith,
          inr (inl (omega arith)),
          (omega arith, omega arith, inl (omega arith)),
        ),
      )
      full-IsReady (empty-IsReady, (empty-IsReady, tt))

-- An empty ring that a writer has filled.
abbrev filled : List Round
filled = round 102 (holding 6) ∷ round 111 (holding 6) ∷ []

read_blocking-Returns_example :
    Returns
      (Readable 2)
      Any
      (try_read 2)
      1
      (read_blocking writing 100 (holding 0) (some ring) filled)
read_blocking-Returns_example =
    read_blocking-Returns writing 100 (holding 0) ring filled (omega arith) (omega arith)
      (
        omega arith,
        omega arith,
        inr (
          omega arith,
          omega arith,
          inr (inl (omega arith)),
          (omega arith, omega arith, inl (omega arith)),
        ),
      )
      (empty-IsReady, omega arith) ((full-IsReady, omega arith), ((full-IsReady, omega arith), tt))
