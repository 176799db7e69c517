-- ===== src/Queue/Calls.antt =====
-- Calls of `write` in a row, on the unsynchronized flavor (include/fmq/MessageQueueBase.h).
use android_system_libfmq.Base.{
  ℕ, ◌+◌, ◌*◌, ◌<◌, ◌≤◌, ◌≡◌, inl, inr, refl, ◌∙◌, arith, false, Option, some, List, [], ◌∷◌, ◌++◌,
  ◌>>=◌, >>=_assoc,
}
use android_system_libfmq.Memory.{word64, Memory}
use android_system_libfmq.Flavor.{is_synchronized}
use android_system_libfmq.Queue.{Queue, write}
use android_system_libfmq.Queue.Inv.{IsValid, Seamless, used, byte_at}
use android_system_libfmq.Queue.Write.{written, write-written, written-IsValid, old_byte}

-- Calls of `write` in a row: the message buffers and the counts.
unfoldable pub write_all : Queue → List (Memory × ℕ) → Option Queue
write_all s [] = some s
write_all s ((d, n) ∷ ws) = write s (some d) n >>= λ (s', done). write_all s' ws

-- The bytes of the writer's calls, and that each fits the ring.
abbrev pub total : ℕ → List (Memory × ℕ) → ℕ
total q [] = 0
total q ((d, n) ∷ ws) = n * q + total q ws

abbrev pub EachFits : ℕ → ℕ → List (Memory × ℕ) → Type 0
EachFits size q [] = Unit
EachFits size q ((d, n) ∷ ws) = (n * q ≤ size) × EachFits size q ws

-- The queue after the calls.
abbrev pub all_written : Queue → List (Memory × ℕ) → Queue
all_written s [] = s
all_written s ((d, n) ∷ ws) = all_written (written s n d) ws

pub narrow : (s : Queue) (a b : ℕ) → Seamless s b → a ≤ b → Seamless s a
narrow s a b (inl h) k = inl h
narrow s a b (inr h) k = inr (omega arith)

pub onward :
    (s : Queue) (n b : ℕ) (d : Memory) → Seamless s (n * s.quantum + b) → Seamless (written s n d) b
onward s n b d (inl h) = inl h
onward s n b d (inr h) = inr (omega arith)

-- What the calls leave: every one succeeds, the counter has moved by their bytes, and while the ring
-- is not overrun the unread bytes stay.
pub record AllWritten (s : Queue) (ws : List (Memory × ℕ)) : Type 0 where
  pub done : write_all s ws ≡ some (all_written s ws)
  pub valid : IsValid (all_written s ws)
  pub same_size : (all_written s ws).size ≡ s.size
  pub same_quantum : (all_written s ws).quantum ≡ s.quantum
  pub same_flavor : (all_written s ws).flavor ≡ s.flavor
  pub same_read_ptr : (all_written s ws).read_ptr ≡ s.read_ptr
  pub moved : used (all_written s ws) ≡ used s + total s.quantum ws
  pub kept :
      used s + total s.quantum ws ≤ s.size
      → (i : ℕ) → i < used s
      → byte_at (all_written s ws) i ≡ byte_at s i

-- One call more in front.
pub AllWritten-cons :
    {s : Queue} (v : IsValid s) (n : ℕ) (d : Memory) (ws : List (Memory × ℕ))
    → is_synchronized s.flavor ≡ false
    → n * s.quantum ≤ s.size
    → Seamless s (n * s.quantum)
    → used s + (n * s.quantum + total s.quantum ws) < word64
    → AllWritten (written s n d) ws
    → AllWritten s ((d, n) ∷ ws)
unfolding write_all
AllWritten-cons {s} v n d ws u fits seam small rest = record {
  done = rw (write-written v n d fits (λ e. cc)) rest.done;
  valid = rest.valid;
  same_size = rest.same_size;
  same_quantum = rest.same_quantum;
  same_flavor = rest.same_flavor;
  same_read_ptr = rest.same_read_ptr;
  moved = omega (arith, rest.moved);
  kept =
      λ fits i h. rest.kept (omega arith) i (omega arith) ∙ old_byte v n d (omega arith) seam i h;
}

pub all_written_lem :
    (ws : List (Memory × ℕ)) {s : Queue}
    → IsValid s
    → is_synchronized s.flavor ≡ false
    → EachFits s.size s.quantum ws
    → Seamless s (total s.quantum ws)
    → used s + total s.quantum ws < word64
    → AllWritten s ws
unfolding write_all
all_written_lem [] v u f seam small = record {
  done = refl;
  valid = v;
  same_size = refl;
  same_quantum = refl;
  same_flavor = refl;
  same_read_ptr = refl;
  moved = omega arith;
  kept = λ _ i h. refl;
}
all_written_lem ((d, n) ∷ ws) {s} v u f seam small =
    let seam₁ : Seamless s (n * s.quantum) =
      narrow s (n * s.quantum) (n * s.quantum + total s.quantum ws) seam (omega arith) in
    AllWritten-cons v n d ws u f.0 seam₁ small (
      all_written_lem ws (written-IsValid v n d seam₁) u f.1
        (onward s n (total s.quantum ws) d seam) (omega arith))

pub total-append :
    (q : ℕ) (us ws : List (Memory × ℕ)) → total q (us ++ ws) ≡ total q us + total q ws
total-append q [] ws = omega arith
total-append q ((d, n) ∷ us) ws = omega (arith, total-append q us ws)

pub all_written-append :
    (s : Queue) (us ws : List (Memory × ℕ))
    → all_written s (us ++ ws) ≡ all_written (all_written s us) ws
all_written-append s [] ws = refl
all_written-append s ((d, n) ∷ us) ws = all_written-append (written s n d) us ws

pub EachFits-append :
    (size q : ℕ) (us ws : List (Memory × ℕ))
    → EachFits size q (us ++ ws)
    → EachFits size q us × EachFits size q ws
EachFits-append size q [] ws f = (tt, f)
EachFits-append size q ((d, n) ∷ us) ws f =
    let (g, h) = EachFits-append size q us ws f.1 in ((f.0, g), h)

pub write_all-append :
    (us ws : List (Memory × ℕ)) (s : Queue)
    → write_all s (us ++ ws) ≡ (write_all s us >>= λ t. write_all t ws)
unfolding write_all
write_all-append [] ws s = refl
write_all-append ((d, n) ∷ us) ws s = simp (write_all-append us ws, >>=_assoc)
