-- ===== src/Handshake/Attempts.antt =====
-- The attempts of `writeBlocking` and `readBlocking` on a queue that is ready.
use android_system_libfmq.Base.{ℕ, ◌+◌, ◌*◌, ◌%◌, ◌<◌, ◌≤◌, ◌≡◌, inl, inr, arith, le-or-lt}
use mathlib.Core.Path.{subst}
use android_system_libfmq.Memory.{Memory, word64}
use android_system_libfmq.Queue.{Queue}
use android_system_libfmq.Queue.Inv.{used}
use android_system_libfmq.Queue.Write.{written, write-written, written-IsValid, used-written}
use android_system_libfmq.Queue.Read.{consumed, read-consumed, consumed-IsValid}
use android_system_libfmq.Queue.Refine.{IsReady, write-full, read-short}
use android_system_libfmq.Blocking.{try_write, try_read}
use android_system_libfmq.Handshake.Inv.{Tries}

-- The queue `first` after some attempts: a read of `n` messages does not wrap in bytes, and the
-- counters keep their places when they wrap.
pub record Usable (n : ℕ) (first q : Queue) : Type 0 where
  pub ready : IsReady q
  pub wraps : word64 % q.size ≡ 0
  pub fits : n * q.quantum < word64
  pub same_size : q.size ≡ first.size
  pub same_quantum : q.quantum ≡ first.quantum

abbrev pub HasRoom : ℕ → Queue → Type 0
HasRoom n q = used q + n * q.quantum ≤ q.size

abbrev pub HasContent : ℕ → Queue → Type 0
HasContent n q = n * q.quantum ≤ used q

written-Usable :
    (m n : ℕ) (first q : Queue) (d : Memory)
    → Usable m first q
    → HasRoom n q
    → Usable m first (written q n d)
written-Usable m n first q d u room = record {
  ready = record {
    valid = written-IsValid u.ready.valid n d (inl u.wraps);
    in_step = omega (arith, used-written u.ready.valid n d room (inl u.wraps));
    synchronized = u.ready.synchronized;
  };
  wraps = u.wraps;
  fits = u.fits;
  same_size = u.same_size;
  same_quantum = u.same_quantum;
}

consumed-Usable :
    (n : ℕ) (first q : Queue) → Usable n first q → HasContent n q → Usable n first (consumed q n)
consumed-Usable n first q u content = record {
  ready = record {
    valid = consumed-IsValid u.ready.valid n u.ready.in_step content (inl u.wraps);
    in_step = omega (arith, u.ready.in_step);
    synchronized = u.ready.synchronized;
  };
  wraps = u.wraps;
  fits = u.fits;
  same_size = u.same_size;
  same_quantum = u.same_quantum;
}

pub write-Tries : (m n : ℕ) (first : Queue) → Tries (Usable m first) (HasRoom n) (try_write n)
write-Tries m n first = record {
  refused = λ {q} d u e. elim (le-or-lt (used q + n * q.quantum) q.size) [
    | inl room ↦ absurd (cc (rw (write-written u.ready.valid n d (omega arith) (λ _. room)) at e))
    | inr full ↦ (cc (rw (write-full u.ready n d full) at e), λ room. omega arith)
  ];
  accepted = λ {q} d u e. elim (le-or-lt (used q + n * q.quantum) q.size) [
    | inl room ↦
        subst (Usable m first)
          (cc (rw (write-written u.ready.valid n d (omega arith) (λ _. room)) at e))
          (written-Usable m n first q d u room)
    | inr full ↦ absurd (cc (rw (write-full u.ready n d full) at e))
  ];
}

pub read-Tries : (n : ℕ) (first : Queue) → Tries (Usable n first) (HasContent n) (try_read n)
read-Tries n first = record {
  refused = λ {q} d u e. elim (le-or-lt (n * q.quantum) (used q)) [
    | inl content ↦ absurd (cc (read-consumed u.ready.valid n u.ready.in_step content d, e))
    | inr short ↦ (cc (read-short u.ready n d u.fits short, e), λ content. omega arith)
  ];
  accepted = λ {q} d u e. elim (le-or-lt (n * q.quantum) (used q)) [
    | inl content ↦
        subst (Usable n first) (cc (read-consumed u.ready.valid n u.ready.in_step content d, e))
          (consumed-Usable n first q u content)
    | inr short ↦ absurd (cc (read-short u.ready n d u.fits short, e))
  ];
}
