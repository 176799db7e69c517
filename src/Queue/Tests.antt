-- ===== src/Queue/Tests.antt =====
-- Runs of the queue on a small ring, and the theorems at inputs that meet their conditions.
use android_system_libfmq.Base.{
  ◌+◌, ◌^◌, ◌<◌, ◌≤◌, ◌≡◌, ◌↔◌, inr, refl, arith, Bool, true, false, some, List, [], ◌∷◌, tabulate,
}
use android_system_libfmq.Memory.{Memory, memcpy}
use android_system_libfmq.Flavor.{synchronized_read_write, unsynchronized_write}
use android_system_libfmq.Transaction.{
  MemTransaction, no_transaction, copy_to, copy_from, copy_out, copy_in, get_mem_region_info,
}
use android_system_libfmq.Fifo
use android_system_libfmq.Fifo.{Call, put, get, accepted, refused, delivered}
use android_system_libfmq.Queue.{
  Queue, available_to_write, get_quantum_count, begin_write, commit_write, begin_read, commit_read,
  write, read,
}
use android_system_libfmq.Queue.Inv.{IsValid, used}
use android_system_libfmq.Queue.Refine.{run, answer, run_refines, IsReady}
use android_system_libfmq.Queue.Bounds.{
  Within, Allowed, end_of, begin_write_decides, begin_read-Within, begin_read_wraps,
}
use android_system_libfmq.Queue.Overrun.{racing_read, racing_read_sound}

-- Three messages of two bytes, one of them waiting, with the next write round the end.
abbrev ring : Memory
ring i = 10 + i

abbrev waiting : Queue
waiting = record {
  flavor = synchronized_read_write;
  size = 6;
  quantum = 2;
  ring = ring;
  read_ptr = 8;
  write_ptr = 10;
}

waiting-IsReady : IsReady waiting
waiting-IsReady = record { valid = omega arith; in_step = omega arith; synchronized = refl }

-- Byte `i` of the message is `i + 1`.
abbrev message : Memory
message i = i + 1

abbrev script : List Call
script = put message 2 ∷ put message 1 ∷ get 1 ∷ get 2 ∷ get 1 ∷ []

run-script :
    run waiting script
    ≡ some (
        accepted
        ∷ refused
        ∷ delivered (12 ∷ 13 ∷ [])
        ∷ delivered (1 ∷ 2 ∷ 3 ∷ 4 ∷ [])
        ∷ refused
        ∷ [])
unfolding run answer write read begin_write begin_read commit_write commit_read copy_to copy_from
    copy_out copy_in get_mem_region_info available_to_write get_quantum_count memcpy
run-script = refl

run_refines_example : run waiting script ≡ some (Fifo.run 6 2 (12 ∷ 13 ∷ []) script)
run_refines_example = run_refines script waiting-IsReady (omega arith) (inr (omega arith))

begin_write_decides_example :
    (begun : Bool) × (tx : MemTransaction) × (begin_write waiting 2 no_transaction
      ≡ some (begun, tx))
    × ((begun ≡ true) ↔ Allowed waiting 2)
    × (begun ≡ true → Within waiting 2 tx)
    × (begun ≡ false → tx ≡ no_transaction)
begin_write_decides_example =
    begin_write_decides waiting-IsReady.valid (λ _. waiting-IsReady.in_step) 2 no_transaction

begin_read-Within_example :
    (tx : MemTransaction) × (begin_read waiting 1 ≡ some (waiting, true, tx)) × Within waiting 1 tx
begin_read-Within_example =
    begin_read-Within waiting-IsReady.valid waiting-IsReady.in_step 1 (omega arith)

-- `2 ^ 63` messages of two bytes.
begin_read_wraps_example :
    (tx : MemTransaction) × (begin_read waiting (2 ^ 63) ≡ some (waiting, true, tx))
    × (6 < end_of 2 tx.second)
begin_read_wraps_example =
    begin_read_wraps waiting-IsReady.valid waiting-IsReady.in_step (2 ^ 63) (omega arith)
      (omega arith) (omega arith)

abbrev shared : Queue
shared = record waiting { flavor = unsynchronized_write }

shared-IsValid : IsValid shared
shared-IsValid = omega arith

racing_read_sound_example :
    (s₄ : Queue) × (done : Bool) × (buffer : Memory) × (racing_read shared 1 message
        ((message, 1) ∷ [])
        ((message, 2) ∷ [])
      ≡ some (s₄, done, some buffer))
    × ((done ≡ true) ↔ (8 ≤ 6))
    × (done ≡ true → tabulate 2 buffer ≡ 12 ∷ 13 ∷ [])
    × (done ≡ false → used s₄ ≡ 0)
racing_read_sound_example =
    racing_read_sound shared-IsValid (omega arith) refl 1 (omega arith) ((message, 1) ∷ [])
      ((message, 2) ∷ []) (omega arith) (inr (omega arith)) (omega arith) message
