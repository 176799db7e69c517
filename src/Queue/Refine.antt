-- ===== src/Queue/Refine.antt =====
-- A queue of the synchronized flavor behaves as the bounded FIFO of the bytes that it holds.
use android_system_libfmq.Base.{
  ℕ, ◌+◌, ◌-◌, ◌*◌, ◌<◌, ◌≤◌, ◌≡◌, inl, inr, refl, arith, Bool, true, false, Option, some, none,
  List, [], ◌∷◌, tabulate, length, length-tabulate, le→leb, lt→leb, le-or-lt, if◌then◌else◌, ◌>>=◌,
  take, mul-le_of_le-div,
}
use android_system_libfmq.Memory.{word64, Memory}
use android_system_libfmq.Flavor.{synchronized_read_write}
use android_system_libfmq.Fifo
use android_system_libfmq.Fifo.{Call, put, get, Reply, accepted, refused, delivered}
use android_system_libfmq.Queue.{Queue, begin_write, begin_read, available_to_write, write, read}
use android_system_libfmq.Queue.Inv.{IsValid, InStep, Seamless, used, contents}
use android_system_libfmq.Queue.Write.{
  written, write-written, written-IsValid, used-written, contents-written,
}
use android_system_libfmq.Queue.Read.{
  consumed, read-consumed, consumed-IsValid, bytes-read, contents-consumed,
}

-- The buffer of a reader before a call; its bytes are overwritten or not looked at.
abbrev pub blank : Memory
blank i = 0

-- The reply to a read of `len` bytes: those that stand in the buffer.
abbrev pub reply : ℕ → Bool → Option Memory → Reply
reply len true (some d) = delivered (tabulate len d)
reply len true none = delivered []
reply len false buffer = refused

-- A call on the queue. `none` where the source has undefined behaviour.
unfoldable pub answer : Queue → Call → Option (Queue × Reply)
answer s (put d n) =
    write s (some d) n >>= λ (s', done). some (s', if done then accepted else refused)
answer s (get n) =
    read s (some blank) n >>= λ (s', done, buffer). some (s', reply (n * s.quantum) done buffer)

unfoldable pub run : Queue → List Call → Option (List Reply)
run s [] = some []
run s (c ∷ cs) = answer s c >>= λ (s', r). run s' cs >>= λ rs. some (r ∷ rs)

-- The state that the calls start from and leave.
pub record IsReady (s : Queue) : Type 0 where
  pub valid : IsValid s
  pub in_step : InStep s
  pub synchronized : s.flavor ≡ synchronized_read_write

-- A write that does not fit is refused and changes nothing.
pub write-full :
    {s : Queue}
    → IsReady s
    → (n : ℕ) (d : Memory) → s.size < used s + n * s.quantum
    → write s (some d) n ≡ some (s, false)
unfolding write begin_write available_to_write
write-full {s} r n d h = ground (arith, mul-le_of_le-div n (s.size - used s) s.quantum)

-- A read of more than there is, is refused and changes nothing.
pub read-short :
    {s : Queue}
    → IsReady s
    → (n : ℕ) (d : Memory) → n * s.quantum < word64
    → used s < n * s.quantum
    → read s (some d) n ≡ some (s, false, some d)
unfolding read begin_read
read-short {s} r n d fits h = ground arith

-- The bytes that a list of calls may write.
abbrev pub demand : ℕ → List Call → ℕ
demand q [] = 0
demand q (put d n ∷ cs) = n * q + demand q cs
demand q (get n ∷ cs) = demand q cs

-- `nMessages * sizeof(T)` of a read does not wrap.
abbrev pub Fits : ℕ → List Call → Type 0
Fits q [] = Unit
Fits q (put d n ∷ cs) = Fits q cs
Fits q (get n ∷ cs) = (n * q < word64) × Fits q cs

length-contents : (s : Queue) → length (contents s) ≡ used s
length-contents s = length-tabulate (used s) _

put_accepted :
    {s : Queue}
    → IsReady s
    → (n : ℕ) (d : Memory) → used s + n * s.quantum ≤ s.size
    → Seamless s (n * s.quantum)
    → (answer s (put d n) ≡ some (written s n d, accepted)) × IsReady (written s n d)
unfolding answer
put_accepted r n d h seam = (
  rw (write-written r.valid n d (omega arith) (λ _. h)),
  record {
    valid = written-IsValid r.valid n d seam;
    in_step = omega (arith, used-written r.valid n d h seam);
    synchronized = r.synchronized;
  },
)

get_delivered :
    {s : Queue}
    → IsReady s
    → (n : ℕ) → n * s.quantum ≤ used s
    → Seamless s 0
    → (answer s (get n) ≡ some (consumed s n, delivered (take (n * s.quantum) (contents s))))
      × IsReady (consumed s n)
unfolding answer
get_delivered r n h seam = (
  rw (read-consumed r.valid n r.in_step h blank, bytes-read r.valid n r.in_step h seam blank),
  record {
    valid = consumed-IsValid r.valid n r.in_step h seam;
    in_step = omega (arith, r.in_step);
    synchronized = r.synchronized;
  },
)

put_refused :
    {s : Queue}
    → IsReady s
    → (n : ℕ) (d : Memory) → s.size < used s + n * s.quantum
    → answer s (put d n) ≡ some (s, refused)
unfolding answer
put_refused r n d h = rw (write-full r n d h)

get_refused :
    {s : Queue}
    → IsReady s
    → (n : ℕ) → n * s.quantum < word64
    → used s < n * s.quantum
    → answer s (get n) ≡ some (s, refused)
unfolding answer
get_refused r n fits h = rw (read-short r n blank fits h)

less : (s : Queue) (a b : ℕ) → Seamless s b → a ≤ b → Seamless s a
less s a b (inl h) k = inl h
less s a b (inr h) k = inr (omega arith)

after_put :
    (s : Queue) (n b : ℕ) (d : Memory) → Seamless s (n * s.quantum + b) → Seamless (written s n d) b
after_put s n b d (inl h) = inl h
after_put s n b d (inr h) = inr (omega arith)

after_get :
    (s : Queue) (n b : ℕ)
    → IsReady s
    → n * s.quantum ≤ used s
    → Seamless s b
    → Seamless (consumed s n) b
after_get s n b r k (inl h) = inl h
after_get s n b r k (inr h) = inr (omega arith)

-- Calls of `write` and `read` on a synchronized queue that is valid and not overrun, where no
-- message count of a read wraps in bytes, and the counters keep their places in the ring if they
-- wrap: the queue answers all of them, as the bounded FIFO of its size does that starts with
-- the bytes it holds.
pub run_refines :
    (cs : List Call) {s : Queue}
    → IsReady s
    → Fits s.quantum cs
    → Seamless s (demand s.quantum cs)
    → run s cs ≡ some (Fifo.run s.size s.quantum (contents s) cs)
unfolding run Fifo.run Fifo.step
run_refines [] r f seam = refl
run_refines (put d n ∷ cs) {s} r f seam = elim (le-or-lt (used s + n * s.quantum) s.size) [
  | inl h ↦
      let seam₁ : Seamless s (n * s.quantum) =
        less s (n * s.quantum) (n * s.quantum + demand s.quantum cs) seam (omega arith) in
      let (run₁, r₁) = put_accepted r n d h seam₁ in
      rw
        (
          run₁,
          run_refines cs r₁ f (after_put s n (demand s.quantum cs) d seam),
          contents-written r.valid n d h seam₁,
          length-contents s,
          le→leb h,
        )
        refl
  | inr h ↦
      rw
        (
          put_refused r n d h,
          run_refines cs r f (
              less s (demand s.quantum cs) (n * s.quantum + demand s.quantum cs) seam
                (omega arith)),
          length-contents s,
          lt→leb h,
        )
        refl
]
run_refines (get n ∷ cs) {s} r f seam = elim (le-or-lt (n * s.quantum) (used s)) [
  | inl h ↦
      let seam₁ : Seamless s 0 = less s 0 (demand s.quantum cs) seam (omega arith) in
      let (run₁, r₁) = get_delivered r n h seam₁ in
      rw
        (
          run₁,
          run_refines cs r₁ f.1 (after_get s n (demand s.quantum cs) r h seam),
          contents-consumed r.valid n r.in_step h seam₁,
          length-contents s,
          le→leb h,
        )
        refl
  | inr h ↦ rw (get_refused r n f.0 h, run_refines cs r f.1 seam, length-contents s, lt→leb h) refl
]
