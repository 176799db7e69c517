-- ===== src/EventFlag/Threads.antt =====
-- Threads that wake and wait on one futex word, in any interleaving of their atomic operations and
-- of their futex calls. What the kernel keeps of the threads that sleep is a parameter.
use android_system_libfmq.Base.{
  ℕ, ◌^◌, ◌<◌, ◌≡◌, ◌⊎◌, false, Option, none, some, List, ◌∷◌, ◌++◌, ◌==◌, complement,
}
use android_system_libfmq.EventFlag.{Returned, Timespec, Futex, wake, wait_helper, wait_woken}
use Prim.Native.Nat.{bit_and}

-- `asleep q i m`: thread `i` sleeps for the bits of the mask `m`.
pub record Kernel : Type 1 where
  pub Queue : Type 0
  pub asleep : Queue → ℕ → ℕ → Type 0
  pub sleep : ℕ → ℕ → Queue → Queue
  pub wake_up : ℕ → Queue → Queue
  pub leave : ℕ → Queue → Queue

-- Nobody sleeps but by a call for it, and nobody whom a call of `FUTEX_WAKE_BITSET` is for goes on
-- sleeping. A thread may leave at any time.
pub record KernelLaws (k : Kernel) : Type 0 where
  pub sleeps :
      (i m : ℕ) (q : k.Queue) (j n : ℕ) → k.asleep (k.sleep i m q) j n → k.asleep q j n ⊎ (n ≡ m)
  pub wakes :
      (m : ℕ) (q : k.Queue) (j n : ℕ)
      → k.asleep (k.wake_up m q) j n
      → k.asleep q j n × (bit_and m n ≡ 0)
  pub leaves : (i : ℕ) (q : k.Queue) (j n : ℕ) → k.asleep (k.leave i q) j n → k.asleep q j n

-- `pending` are the masks of the threads in `wake` that have set the bits of the word and have not yet
-- called the kernel.
pub record Shared (k : Kernel) : Type 0 where
  pub word : ℕ
  pub pending : List ℕ
  pub queue : k.Queue

abbrev pub added : Option ℕ → List ℕ → List ℕ
added none masks = masks
added (some m) masks = m ∷ masks

pub data Step (k : Kernel) (s : Shared k) : Shared k → Type 0 where
  -- The `fetch_or` of `wake`.
  sets :
      (mask : ℕ) (futex_wake : ℕ → Returned)
      → mask < 2 ^ 32
      → Step k s (record s {
        word = (wake s.word mask futex_wake).1;
        pending = added (wake s.word mask futex_wake).2 s.pending;
      })
  -- Its call of the kernel.
  wakes :
      (before : List ℕ) (mask : ℕ) (after : List ℕ)
      → s.pending ≡ before ++ mask ∷ after
      → Step k s (record s { pending = before ++ after; queue = k.wake_up mask s.queue })
  -- A wait that finds a bit of its mask at once.
  takes :
      (mask old timeout : ℕ) (now : Timespec) (futex : Futex)
      → (bit_and s.word mask == 0) ≡ false
      → Step k s (record s { word = (wait_helper s.word mask (some old) timeout now futex).word })
  -- One that has found none in `word`, and whose futex call finds what it expects.
  sleeps :
      (i mask word : ℕ)
      → mask < 2 ^ 32
      → s.word ≡ bit_and word (complement 32 mask)
      → Step k s (record s { queue = k.sleep i mask s.queue })
  -- It leaves the kernel, and later takes what there is.
  leaves : (i : ℕ) → Step k s (record s { queue = k.leave i s.queue })
  resumes :
      (mask : ℕ) (returned : Returned)
      → Step k s (record s {
        word = (wait_woken mask (record { returned = returned; word = s.word })).word;
      })

pub data Steps (k : Kernel) (s : Shared k) : Shared k → Type 0 where
  here : Steps k s s
  later : {t u : Shared k} → Steps k s t → Step k t u → Steps k s u
