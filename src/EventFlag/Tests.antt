-- ===== src/EventFlag/Tests.antt =====
-- The event flag on concrete words and kernels.
use android_system_libfmq.Base.{
  ℕ, ◌<◌, ◌≡◌, ◌⊎◌, inl, inr, refl, arith, true, false, Bool, not, ◌&&◌, ◌||◌, ◌==◌, Bool-cases,
  eq_of_==, some, [], ◌∷◌, bit, ◌^◌,
}
use Prim.Native.Nat.{bit_and, max}
use android_system_libfmq.EventFlag.{
  timed_out, Timespec, Futex, success, failure, Pass, wake, wait_helper, wait_woken, wait,
  wait_loop, finished,
}
use android_system_libfmq.EventFlag.Wake.{
  Refuses, Takes, Deferred, Calls, wake_lem, wait_helper-Takes,
}
use android_system_libfmq.EventFlag.Wait.{Settles, wait-Settles}
use android_system_libfmq.EventFlag.Threads.{
  Kernel, KernelLaws, Shared, sets, sleeps, Steps, here, later,
}
use android_system_libfmq.EventFlag.LostWake.{Announced, no_lost_wake}

abbrev clock : Timespec
clock = record { tv_sec = 5; tv_nsec = 999999999 }

-- A kernel that lets the thread go on with the word 6, and one that lets it sleep until the time is
-- over.
abbrev waking : Futex
waking expected until mask = record { returned = success; word = 6 }

abbrev sleeping : Futex
sleeping expected until mask = record { returned = failure timed_out; word = expected }

waking-Refuses : Refuses waking
waking-Refuses expected until mask e = cc

abbrev pass : ℕ → Pass
pass elapsed = record { elapsed = elapsed; now = clock; word = 1; futex = waking }

wake_lem_example :
    let (status, after, call) = wake 1 3 (λ mask. success) in
    (after < 2 ^ 32)
    × ((i : ℕ) → bit after i ≡ max (bit 1 i) (bit 3 i))
    × (Deferred 1 3 status call ⊎ Calls 1 3 call)
wake_lem_example = wake_lem 1 3 (λ mask. success) (omega arith) (omega arith)

wait_helper-Takes_example : Takes 6 2 (wait_helper 1 2 (some 0) 10 clock waking)
wait_helper-Takes_example =
    wait_helper-Takes 1 2 0 10 clock waking (omega arith) (omega arith) (omega arith) waking-Refuses
      (omega arith)

wait-Settles_example : Settles (wait 8 (some 0) 10 true 100 (pass 103 ∷ pass 108 ∷ pass 111 ∷ []))
wait-Settles_example =
    wait-Settles 8 0 10 100 (pass 103 ∷ pass 108 ∷ pass 111 ∷ []) (omega arith) (omega arith)
      (omega arith) (inr (inr (inl (omega arith))))

wait_run :
    wait 8 (some 0) 10 true 100 (pass 103 ∷ pass 108 ∷ pass 111 ∷ [])
    ≡ finished (record { status = timed_out; ef_state = some 0; word = 1 })
unfolding wait wait_loop wait_helper wait_woken
wait_run = refl

-- A kernel that keeps which threads sleep for which masks.
abbrev list_kernel : Kernel
list_kernel = record {
  Queue = ℕ → ℕ → Bool;
  asleep = λ q i m. q i m ≡ true;
  sleep = λ i m q j n. ((j == i) && (n == m)) || q j n;
  wake_up = λ m q j n. q j n && (bit_and m n == 0);
  leave = λ i q j n. q j n && not (j == i);
}

-- Thread 1 waits for bit 0, and another one sets it.
abbrev quiet : Shared list_kernel
quiet = record { word = 0; pending = []; queue = λ i m. false }

slept_or_new : (a b : Bool) (n m : ℕ) → ((a && (n == m)) || b) ≡ true → (b ≡ true) ⊎ (n ≡ m)
slept_or_new true b n m e = elim (Bool-cases (n == m)) [
  | inl p ↦ inr (eq_of_== p)
  | inr p ↦ inl (rw p at e)
]
slept_or_new false b n m e = inl e

still_slept : (a b : Bool) → (a && b) ≡ true → (a ≡ true) × (b ≡ true)
still_slept true b e = (refl, e)
still_slept false b e = cc

list_kernel-laws : KernelLaws list_kernel
list_kernel-laws = record {
  sleeps = λ i m q j n a. slept_or_new (j == i) (q j n) n m a;
  wakes = λ m q j n a.
      let (slept, missed) = still_slept (q j n) (bit_and m n == 0) a in (slept, eq_of_== missed);
  leaves = λ i q j n a. (still_slept (q j n) (not (j == i)) a).0;
}

woken_run : (s : Shared list_kernel) × Steps list_kernel quiet s
unfolding wake
woken_run = (
  _,
  later (later here (sleeps 1 1 0 (omega arith) refl)) (sets 1 (λ mask. success) (omega arith)),
)

no_lost_wake_example : (bit_and woken_run.0.word 1 ≡ 0) ⊎ Announced woken_run.0.pending 1
unfolding woken_run
no_lost_wake_example =
    no_lost_wake list_kernel list_kernel-laws (omega arith) (λ i m a. cc) woken_run.1 1 1 refl
