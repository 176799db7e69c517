-- ===== src/Broadcast/Listens.antt =====
-- Each step of a reader keeps what holds of it.
use android_system_libfmq.Base.{
  neq_of_==, ℕ, ◌+◌, ◌-◌, ◌*◌, ◌%◌, ◌<◌, ◌≤◌, ◌≡◌, ◌⊎◌, inl, inr, refl, ap, sym, ◌∙◌, arith, Bool,
  true, false, some, List, length, get_elem?, eq_of_==, ◌==◌, Bool-cases, mul-mod, add-mod-eq-zero,
  if◌then◌else◌, leb, ltb,
}
use android_system_libfmq.Memory.{word64, Memory}
use android_system_libfmq.Transaction.{MemTransaction, no_transaction}
use android_system_libfmq.Queue.{Queue, begin_read, commit_read, ring_regions}
use android_system_libfmq.Concurrent.{
  Writer, Reader, waiting, draining, begun_read, byte_place, poke, mark, ReaderMove, loads,
}
use android_system_libfmq.Concurrent
use android_system_libfmq.Concurrent.Places.{poke-same, poke-other}
use android_system_libfmq.Broadcast.Inv.{Airs, Hears}
use android_system_libfmq.Broadcast.Places.{byte_place-from}

module _ {q : Queue} {w : Writer} {wr : List ℕ} {reach : ℕ} (ptr : ℕ) (airs : Airs q w wr reach)
    (few : length wr < word64) where
  abbrev mine : Queue
  mine = record q { read_ptr = ptr }

  module _ (behind : ptr ≤ length wr) (read_aligned : ptr % q.quantum ≡ 0) (n : ℕ) where
    -- `beginRead` in plain numbers.
    pub begin_read-decides :
        n * q.quantum < word64
        → begin_read mine n ≡ (
            if ltb q.size (length wr - ptr)
            then some (record q { read_ptr = q.write_ptr }, false, no_transaction)
            else if ltb (length wr - ptr) (n * q.quantum)
            then some (mine, false, no_transaction)
            else some (mine, true, ring_regions q.size q.quantum (ptr % q.size) n))
    unfolding begin_read
    begin_read-decides fits = ground (arith, airs)

    begin_read-begun :
        {q' : Queue} {begun : Bool} {tx : MemTransaction}
        → n * q.quantum < word64
        → begin_read mine n ≡ some (q', begun, tx)
        → ((q'.read_ptr ≡ ptr) ⊎ (q'.read_ptr ≡ q.write_ptr))
          × (begun ≡ true
              → (q'.read_ptr ≡ ptr)
                × (tx ≡ ring_regions q.size q.quantum (ptr % q.size) n)
                × (n * q.quantum ≤ q.size)
                × (ptr + n * q.quantum ≤ length wr))
    begin_read-begun fits e = elim (Bool-cases (ltb q.size (length wr - ptr))) [
      | inl far ↦ let e' = rw (begin_read-decides fits, far) at e in (inr (cc e'), λ b. cc (e', b))
      | inr near ↦ elim (Bool-cases (ltb (length wr - ptr) (n * q.quantum))) [
        | inl short ↦
            let e' = rw (begin_read-decides fits, near, short) at e in
            (inl (cc e'), λ b. cc (e', b))
        | inr enough ↦
            let e' = rw (begin_read-decides fits, near, enough) at e in
            (inl (cc e'), λ b. (cc e', cc e', ground arith, ground arith))
      ]
    ]

    pub commit_read-ends :
        ptr + n * q.quantum ≤ length wr
        → commit_read mine n ≡ (
            if leb (length wr) (ptr + q.size)
            then (record q { read_ptr = ptr + n * q.quantum }, true)
            else (record q { read_ptr = q.write_ptr }, false))
    unfolding commit_read
    commit_read-ends enough = ground (arith, airs)

  begins-Hears :
      (n : ℕ) (d : Memory) (begun : Bool) {q' : Queue} {tx : MemTransaction}
      → n * q.quantum < word64
      → begin_read mine n ≡ some (q', begun, tx)
      → Hears q.size q.quantum ptr waiting wr reach
      → Hears q.size q.quantum q'.read_ptr (begun_read begun tx n d) wr reach
  begins-Hears n d true fits e hears =
      let (same, regions, inside, enough) =
        (begin_read-begun hears.behind hears.read_aligned n fits e).1 refl in
      rw same (record {
        behind = hears.behind;
        read_aligned = hears.read_aligned;
        loads = (regions, inside, enough, λ k h none. cc);
      })
  begins-Hears n d false fits e hears =
      elim (begin_read-begun hears.behind hears.read_aligned n fits e).0 [
        | inl same ↦ rw same hears
        | inr moved ↦ rw moved (at_end)
      ]
    where
      at_end : Hears q.size q.quantum q.write_ptr waiting wr reach
      at_end = record {
        behind = omega (arith, airs.counted);
        read_aligned = airs.write_aligned;
        loads = tt;
      }

  module _ {tx : MemTransaction} {n : ℕ} {d : Memory} {done : ℕ → Bool}
      (hears : Hears q.size q.quantum ptr (draining tx n d done) wr reach) where
    module _ (k : ℕ) {a : ℕ} (below : k < n * q.quantum)
        (at : byte_place q.quantum tx k ≡ some a) where
      address : a ≡ (ptr + k) % q.size
      address =
          cc
            (at, hears.loads.0, byte_place-from airs ptr n k hears.read_aligned hears.loads.1 below)

      loaded_so_far :
          (j : ℕ)
          → j < n * q.quantum
          → mark done k j ≡ true
          → reach ≤ ptr + j + q.size
          → get_elem? wr (ptr + j) ≡ some (poke d k (q.ring a) j)
      unfolding mark
      loaded_so_far j h marked far = elim (Bool-cases (j == k)) [
        | inl p ↦
            let e : j ≡ k = eq_of_== p in
            airs.kept (ptr + j) (omega (arith, hears.loads.2)) far
            ∙ ap some (
                ap q.ring (ap (λ t. (ptr + t) % q.size) e ∙ sym address)
                ∙ sym (poke-same d (q.ring a) e))
        | inr p ↦
            hears.loads.3 j h (ground (arith, marked, p)) far
            ∙ ap some (sym (poke-other d (q.ring a) (neq_of_== p)))
      ]

      loads-Hears :
          Hears q.size q.quantum ptr (draining tx n (poke d k (q.ring a)) (mark done k)) wr reach
      loads-Hears = record {
        behind = hears.behind;
        read_aligned = hears.read_aligned;
        loads = (hears.loads.0, hears.loads.1, hears.loads.2, loaded_so_far);
      }

    commits-Hears : Hears q.size q.quantum (commit_read mine n).0.read_ptr waiting wr reach
    commits-Hears =
        rw (commit_read-ends hears.behind hears.read_aligned n hears.loads.2)
          (elim (Bool-cases (leb (length wr) (ptr + q.size))) [
            | inl p ↦ rw p (record {
              behind = hears.loads.2;
              read_aligned =
                  add-mod-eq-zero ptr (n * q.quantum) q.quantum hears.read_aligned
                    (mul-mod n q.quantum);
              loads = tt;
            })
            | inr p ↦ rw p (record {
              behind = omega (arith, airs.counted);
              read_aligned = airs.write_aligned;
              loads = tt;
            })
          ])

  -- After a step of a reader.
  pub ReaderMove-Hears :
      {q' : Queue} {r r' : Reader} {out : List ℕ}
      → ReaderMove mine r q' r' out
      → Hears q.size q.quantum ptr r wr reach
      → Hears q.size q.quantum q'.read_ptr r' wr reach
  ReaderMove-Hears (Concurrent.ReaderMove.begins n d {begun = begun} fits e) hears =
      begins-Hears n d begun fits e hears
  ReaderMove-Hears (loads k below at) hears = loads-Hears hears k below at
  ReaderMove-Hears (Concurrent.ReaderMove.commits full) hears = commits-Hears hears
  ReaderMove-Hears Concurrent.ReaderMove.abandons hears = record {
    behind = hears.behind;
    read_aligned = hears.read_aligned;
    loads = tt;
  }
