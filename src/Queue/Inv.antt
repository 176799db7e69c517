-- ===== src/Queue/Inv.antt =====
-- The representation invariant of a mapped queue, and the bytes that it holds.
use android_system_libfmq.Base.{
  ℕ, ◌+◌, ◌-◌, ◌*◌, ◌%◌, ◌<◌, ◌≤◌, ◌≡◌, ◌⊎◌, inl, inr, ap, ◌∙◌, sym, arith, List, tabulate,
  mod-mod_of_mod, add-mod-eq-zero, mul-mod,
}
use android_system_libfmq.Memory.{word64, sub64}
use android_system_libfmq.Queue.{Queue}
use native.Mathlib.Nat.{mod-add-mod, mod-eq_of_lt, zero-mod, add-mod_right}

pub record IsValid (s : Queue) : Type 0 where
  pub quantum_pos : 0 < s.quantum
  pub size_pos : 0 < s.size
  pub size_fits : s.size < word64
  pub whole : s.size % s.quantum ≡ 0
  pub read_fits : s.read_ptr < word64
  pub write_fits : s.write_ptr < word64
  pub read_aligned : s.read_ptr % s.quantum ≡ 0
  pub write_aligned : s.write_ptr % s.quantum ≡ 0

-- The counters wrap at `2 ^ 64`. That keeps the place in the ring if the size divides `2 ^ 64`;
-- otherwise the counters must not wrap while `len` more bytes are counted.
abbrev pub Seamless : Queue → ℕ → Type 0
Seamless s len = (word64 % s.size ≡ 0) ⊎ ((s.read_ptr ≤ s.write_ptr) × (s.write_ptr + len < word64))

-- Not overrun: the bytes between the counters fit the ring.
abbrev pub InStep : Queue → Type 0
InStep s = sub64 s.write_ptr s.read_ptr ≤ s.size

abbrev pub used : Queue → ℕ
used s = sub64 s.write_ptr s.read_ptr

-- Byte `i` behind the read counter.
abbrev pub byte_at : Queue → ℕ → ℕ
byte_at s i = s.ring ((s.read_ptr + i) % word64 % s.size)

-- What is written and not yet read, oldest byte first.
abbrev pub contents : Queue → List ℕ
contents s = tabulate (used s) (byte_at s)

-- A counter that goes on by `i`, as a place in the ring.
pub place :
    (size ptr i : ℕ)
    → ((word64 % size ≡ 0) ⊎ (ptr + i < word64))
    → (ptr + i) % word64 % size ≡ (ptr % size + i) % size
place size ptr i (inl h) = mod-mod_of_mod (ptr + i) word64 size h ∙ sym (mod-add-mod ptr size i)
place size ptr i (inr h) = rw (mod-eq_of_lt h) (sym (mod-add-mod ptr size i))

module _ {s : Queue} (v : IsValid s) where
  open v use {whole, read_fits, write_fits}

  -- The write counter lies `used` bytes beyond the read counter.
  pub write_place :
      (len : ℕ) → Seamless s len → s.write_ptr % s.size ≡ (s.read_ptr % s.size + used s) % s.size
  write_place len (inl h) =
      let e : s.write_ptr ≡ (s.read_ptr + used s) % word64 = omega arith in
      ap (λ t. t % s.size) e ∙ place s.size s.read_ptr (used s) (inl h)
  write_place len (inr h) =
      let e : s.write_ptr ≡ (s.read_ptr + used s) % word64 = omega arith in
      ap (λ t. t % s.size) e ∙ place s.size s.read_ptr (used s) (inr (omega arith))

  -- An index up to the end of the next `len` bytes, as a place in the ring.
  pub read_place :
      (len i : ℕ)
      → Seamless s len
      → i ≤ used s + len
      → (s.read_ptr + i) % word64 % s.size ≡ (s.read_ptr % s.size + i) % s.size
  read_place len i (inl h) k = place s.size s.read_ptr i (inl h)
  read_place len i (inr h) k = place s.size s.read_ptr i (inr (omega arith))

  -- A whole number of messages keeps a counter aligned, wrapped or not.
  pub aligned_step :
      (ptr n : ℕ)
      → ptr % s.quantum ≡ 0
      → (word64 % s.size ≡ 0) ⊎ (ptr + n * s.quantum < word64)
      → (ptr + n * s.quantum) % word64 % s.quantum ≡ 0
  aligned_step ptr n h (inl w) =
      let e : word64 % s.quantum ≡ 0 =
        sym (mod-mod_of_mod word64 s.size s.quantum whole)
        ∙ ap (λ t. t % s.quantum) w
        ∙ zero-mod s.quantum in
      mod-mod_of_mod (ptr + n * s.quantum) word64 s.quantum e
      ∙ add-mod-eq-zero ptr (n * s.quantum) s.quantum h (mul-mod n s.quantum)
  aligned_step ptr n h (inr w) =
      rw (mod-eq_of_lt w) (add-mod-eq-zero ptr (n * s.quantum) s.quantum h (mul-mod n s.quantum))

  -- The places behind the write counter, seen from the read counter.
  pub new_index :
      (len i : ℕ)
      → Seamless s len
      → (s.write_ptr % s.size + i) % s.size ≡ (s.read_ptr % s.size + (used s + i)) % s.size
  new_index len i seam = rw (write_place len seam, mod-add-mod) (ap (λ t. t % s.size) (omega arith))

  pub old_index :
      (len i : ℕ)
      → Seamless s len
      → used s ≤ s.size
      → (s.write_ptr % s.size + (s.size - used s + i)) % s.size ≡ (s.read_ptr % s.size + i) % s.size
  old_index len i seam h =
      rw (new_index len (s.size - used s + i) seam)
        (ap (λ t. t % s.size) e ∙ add-mod_right (s.read_ptr % s.size + i) s.size)
    where
      e : s.read_ptr % s.size + (used s + (s.size - used s + i)) ≡ s.read_ptr % s.size + i + s.size
      e = omega arith
