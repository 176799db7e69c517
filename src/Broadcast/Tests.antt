-- ===== src/Broadcast/Tests.antt =====
-- One writer and readers of a ring of two messages, and the theorems at their runs.
use android_system_libfmq.Base.{
  ℕ, ◌+◌, ◌≤◌, ◌<◌, ◌≡◌, ◌↔◌, refl, arith, true, false, some, List, [], ◌∷◌, get_elem?, length,
  tabulate, take, drop,
}
use android_system_libfmq.Memory.{Memory}
use android_system_libfmq.Flavor.{unsynchronized_write}
use android_system_libfmq.Queue.{
  Queue, begin_write, commit_write, begin_read, commit_read, get_quantum_count,
}
use android_system_libfmq.Concurrent.{waiting, byte_place, mark, poke, ReaderMove}
use android_system_libfmq.Concurrent
use android_system_libfmq.Broadcast.{Broadcast, seen, writes, listens, Steps, here, later, launch}
use android_system_libfmq.Broadcast.Sound.{IsFresh, commit_read_sound}
use android_system_libfmq.Broadcast.Torn.{torn_read}

-- Two messages of one byte.
abbrev tiny : Queue
tiny = record {
  flavor = unsynchronized_write;
  size = 2;
  quantum = 1;
  ring = λ i. 0;
  read_ptr = 0;
  write_ptr = 0;
}

tiny-IsFresh : IsFresh tiny
tiny-IsFresh = record {
  quantum_pos = omega arith;
  size_pos = omega arith;
  size_fits = omega arith;
  whole = refl;
  unsynchronized = refl;
}

abbrev first_messages : Memory
first_messages i = i + 5

abbrev next_message : Memory
next_message i = 9

-- Two messages are written.
written_run : (s : Broadcast) × Steps (launch tiny) s
unfolding begin_write commit_write byte_place get_quantum_count mark
written_run = (
  _,
  later
      (later
        (later (later here (writes (Concurrent.WriterMove.begins 2 first_messages refl)))
          (writes (Concurrent.WriterMove.stores 1 (omega arith) refl)))
        (writes (Concurrent.WriterMove.stores 0 (omega arith) refl)))
      (writes (Concurrent.WriterMove.commits (λ k h. ground arith))),
)

-- The writer has stored the next, and not committed it.
overwriting_run : (s : Broadcast) × Steps (launch tiny) s
unfolding written_run begin_write commit_write byte_place get_quantum_count mark
overwriting_run = (
  _,
  later (later written_run.1 (writes (Concurrent.WriterMove.begins 1 next_message refl)))
      (writes (Concurrent.WriterMove.stores 0 (omega arith) refl)),
)

-- Reader 3 has loaded both messages.
loaded_run : (s : Broadcast) × Steps (launch tiny) s
unfolding written_run begin_write begin_read commit_write byte_place get_quantum_count mark
loaded_run = (
  _,
  later
      (later
        (later written_run.1
          (listens 3 (Concurrent.ReaderMove.begins 2 next_message (omega arith) refl)))
        (listens 3 (Concurrent.ReaderMove.loads 0 (omega arith) refl)))
      (listens 3 (Concurrent.ReaderMove.loads 1 (omega arith) refl)),
)

-- The buffer of reader 3.
abbrev loaded : Memory
loaded = poke (poke next_message 0 5) 1 6

commit_read_sound_example :
    let (after, ended) = commit_read (seen loaded_run.0.queue (loaded_run.0.listeners 3)) 2 in
    ((ended ≡ true) ↔ (length loaded_run.0.written ≤ 2))
    × (ended ≡ true → after.read_ptr ≡ 2)
    × (ended ≡ false → after.read_ptr ≡ length loaded_run.0.written)
    × ((k : ℕ)
        → k < 2
        → loaded_run.0.reach ≤ 0 + k + 2
        → get_elem? loaded_run.0.written (0 + k) ≡ some (loaded k))
    × (ended ≡ true
        → loaded_run.0.reach ≤ length loaded_run.0.written
        → tabulate 2 loaded ≡ take 2 (drop 0 loaded_run.0.written))
unfolding loaded_run written_run begin_write begin_read commit_write byte_place get_quantum_count
    mark commit_read poke
commit_read_sound_example =
    commit_read_sound tiny 3 tiny-IsFresh loaded_run.1 (omega arith) refl (λ k h. ground arith)

-- A reader gets 9 for the first message, which was 5, and its read succeeds.
torn_read_example :
    (t : Broadcast) × (q' : Queue) × (out : List ℕ) × Steps overwriting_run.0 t
    × (t.written ≡ 5 ∷ 6 ∷ [])
    × ReaderMove (seen t.queue (t.listeners 0)) (t.listeners 0).reader q' waiting out
    × (get_elem? out 0 ≡ some 9)
unfolding overwriting_run written_run begin_write commit_write byte_place get_quantum_count mark
torn_read_example =
    torn_read tiny 0 2 0 0 tiny-IsFresh overwriting_run.1 (omega arith) refl (omega arith) refl refl
      (omega arith) (omega arith) (omega arith) (omega arith)
