-- ===== src/Broadcast/Torn.antt =====
-- A read that succeeds with bytes of messages that the writer has not committed.
use android_system_libfmq.Base.{
  ℕ, zero, suc, ◌+◌, ◌*◌, ◌%◌, ◌<◌, ◌≤◌, ◌≡◌, inr, inl, refl, ap, sym, ◌∙◌, arith, Bool, true,
  length, fun_ext, List, tabulate, some, get_elem?, get_elem?-tabulate, ◌==◌, Bool-cases, eq_of_==,
  neq_of_==,
}
use android_system_libfmq.Memory.{word64, Memory}
use android_system_libfmq.Transaction.{MemTransaction}
use android_system_libfmq.Queue.{Queue, ring_regions, begin_read, commit_read}
use android_system_libfmq.Concurrent.{
  Reader, waiting, draining, filling, ReaderMove, poke, mark, nothing, byte_place,
}
use android_system_libfmq.Concurrent
use android_system_libfmq.Concurrent.Drain.{marks, marks_all, loading}
use android_system_libfmq.Concurrent.Places.{poke-same, poke-other}
use android_system_libfmq.Broadcast.{
  Broadcast, Listener, seen, update, Step, listens, Steps, here, later, launch,
}
use android_system_libfmq.Broadcast.Inv.{Fills}
use android_system_libfmq.Broadcast.Places.{byte_place-from}
use android_system_libfmq.Broadcast.Listens.{begin_read-decides, commit_read-ends}
use android_system_libfmq.Broadcast.Sound.{IsFresh, Inv, reached-Inv}
use mathlib.Core.Path.{subst}
use native.Mathlib.Nat.{mod-add-mod, add-mod_right}

update-update :
    (ls : ℕ → Listener) (i : ℕ) (l l' : Listener) → update (update ls i l) i l' ≡ update ls i l'
update-update ls i l l' = fun_ext (λ j. ground arith)

update-same : (ls : ℕ → Listener) (i : ℕ) (l : Listener) → update ls i l i ≡ l
update-same ls i l = ground arith

-- The buffer after the loads, whatever their number.
loading-below :
    (q : Queue) (m i : ℕ) → i < m → loading q m i ≡ q.ring ((q.read_ptr % q.size + i) % q.size)
unfolding loading
loading-below q zero i h = absurd (omega arith)
loading-below q (suc m) i h = elim (Bool-cases (i == m)) [
  | inl p ↦
      let e : i ≡ m = eq_of_== p in
      poke-same (loading q m) _ e ∙ ap (λ t. q.ring ((q.read_ptr % q.size + t) % q.size)) (sym e)
  | inr p ↦
      poke-other (loading q m) _ (neq_of_== p) ∙ loading-below q m i (ground (arith, neq_of_== p))
]

-- A step of reader `i`, which is `l`.
moves :
    (t : Broadcast) (i : ℕ) (l : Listener) {q : Queue} {r : Reader} {out : List ℕ}
    → t.listeners i ≡ l
    → ReaderMove (seen t.queue l) l.reader q r out
    → Step t (record t {
      listeners = update t.listeners i (record { read_ptr = q.read_ptr; reader = r });
    })
moves t i l {q} {r} {out} e move =
    listens i (subst (λ l'. ReaderMove (seen t.queue l') l'.reader q r out) (sym e) move)

module _ {s : Broadcast} (inv : Inv s) (few : length s.written < word64) (i m : ℕ)
    (still : (s.listeners i).reader ≡ waiting)
    (enough : (s.listeners i).read_ptr + m * s.queue.quantum ≤ length s.written)
    (near : length s.written ≤ (s.listeners i).read_ptr + s.queue.size) where
  abbrev start : ℕ
  start = (s.listeners i).read_ptr

  abbrev len : ℕ
  len = m * s.queue.quantum

  abbrev mine : Queue
  mine = seen s.queue (s.listeners i)

  abbrev loader : ℕ → Listener
  unfolding loading marks
  loader j = record {
    read_ptr = start;
    reader =
        draining (ring_regions s.queue.size s.queue.quantum (start % s.queue.size) m) m
          (loading mine j) (marks j);
  }

  abbrev loader_state : ℕ → Broadcast
  unfolding loading marks
  loader_state j = record s { listeners = update s.listeners i (loader j) }

  aligned : start % s.queue.quantum ≡ 0
  aligned = (inv.hears i).read_aligned

  begun :
      begin_read mine m
      ≡ some (mine, true, ring_regions s.queue.size s.queue.quantum (start % s.queue.size) m)
  begun =
      begin_read-decides start inv.airs few (inv.hears i).behind aligned m (omega (arith, inv.airs))
      ∙ ground arith

  place_of :
      (j : ℕ)
      → j < len
      → byte_place s.queue.quantum
          (ring_regions s.queue.size s.queue.quantum (start % s.queue.size) m)
          j
        ≡ some ((start % s.queue.size + j) % s.queue.size)
  place_of j h =
      byte_place-from inv.airs start m j aligned (omega arith) h
      ∙ ap some (sym (mod-add-mod start s.queue.size j))

  loads_first : (j : ℕ) → j ≤ len → Steps s (loader_state j)
  unfolding loading marks
  loads_first zero h = later here (
      moves s i (record { read_ptr = start; reader = waiting })
        (ap (λ r. record { read_ptr = start; reader = r }) still)
        (Concurrent.ReaderMove.begins m (λ _. 0) (omega (arith, inv.airs)) begun))
  loads_first (suc j) h = later (loads_first j (omega arith)) (
      subst (λ ls. Step (loader_state j) (record s { listeners = ls }))
        (update-update s.listeners i (loader j) (loader (suc j)))
        (moves (loader_state j) i (loader j) (update-same s.listeners i (loader j))
          (Concurrent.ReaderMove.loads j (omega arith) (place_of j (omega arith)))))

  ends : (commit_read mine m).1 ≡ true
  ends =
      rw (commit_read-ends start inv.airs few (inv.hears i).behind aligned m enough) (ground arith)

  commits_now :
      ReaderMove mine
        (loader len).reader
        (commit_read mine m).0
        waiting
        (tabulate len (loading mine len))
  unfolding loading marks
  commits_now =
      subst (λ out. ReaderMove mine (loader len).reader (commit_read mine m).0 waiting out)
        (rw ends) (Concurrent.ReaderMove.commits (λ k h. marks_all len k h))

  -- Byte `x` of what the reader gets is the one that is in the ring.
  pub takes :
      (t : Broadcast) × (q' : Queue) × (out : List ℕ) × Steps s t
      × (t.written ≡ s.written)
      × ReaderMove (seen t.queue (t.listeners i)) (t.listeners i).reader q' waiting out
      × ((x : ℕ) → x < len → get_elem? out x ≡ some (s.queue.ring ((start + x) % s.queue.size)))
  unfolding loading marks
  takes = (
    loader_state len,
    (commit_read mine m).0,
    tabulate len (loading mine len),
    loads_first len (omega arith),
    refl,
    subst
        (λ l.
          ReaderMove (seen s.queue l) l.reader (commit_read mine m).0 waiting
            (tabulate len (loading mine len)))
        (sym (update-same s.listeners i (loader len))) commits_now,
    λ x h.
        get_elem?-tabulate len (loading mine len) x h
        ∙ ap some (loading-below mine len x h ∙ ap s.queue.ring (mod-add-mod start s.queue.size x)),
  )

-- From each state that one writer and any readers reach from a fresh, valid, unsynchronized queue,
-- where `beginRead` is only called for counts of messages that have fewer than `2 ^ 64` bytes, and
-- fewer than `2 ^ 64` bytes were written: if the writer holds a transaction and has stored
-- its byte `k`, then a waiting reader can begin to read `m` messages that are committed and not
-- overrun, where its byte `x` has the place of that one, and its `commitRead` succeeds and gives
-- it the byte that the writer has not committed.
pub torn_read :
    (q : Queue) {s : Broadcast} (i m k x : ℕ) {tx : MemTransaction} {n : ℕ} {d : Memory}
    {done : ℕ → Bool}
    → IsFresh q
    → Steps (launch q) s
    → length s.written < word64
    → s.writer ≡ filling tx n d done
    → k < n * s.queue.quantum
    → done k ≡ true
    → (s.listeners i).reader ≡ waiting
    → (s.listeners i).read_ptr + m * s.queue.quantum ≤ length s.written
    → length s.written ≤ (s.listeners i).read_ptr + s.queue.size
    → x < m * s.queue.quantum
    → (s.listeners i).read_ptr + x + s.queue.size ≡ length s.written + k
    → (t : Broadcast) × (q' : Queue) × (out : List ℕ) × Steps s t
      × (t.written ≡ s.written)
      × ReaderMove (seen t.queue (t.listeners i)) (t.listeners i).reader q' waiting out
      × (get_elem? out x ≡ some (d k))
torn_read q {s} i m k x {tx} {n} {d} {done} fresh run few now below stored still enough near inside
      same =
    let inv = reached-Inv q fresh run few in
    let (t, q', out, run', written, move, got) = takes inv few i m still enough near in
    (t, q', out, run', written, move, got x inside ∙ ap some (in_ring inv))
  where
    fills : Inv s → Fills s.queue (filling tx n d done)
    fills inv = subst (Fills s.queue) now inv.airs.fills

    in_ring : Inv s → s.queue.ring (((s.listeners i).read_ptr + x) % s.queue.size) ≡ d k
    in_ring inv =
        ap s.queue.ring (
          sym (add-mod_right ((s.listeners i).read_ptr + x) s.queue.size)
          ∙ ap (λ c. c % s.queue.size) (same ∙ ap (λ c. c + k) (sym inv.airs.counted)))
        ∙ (fills inv).2 k below stored
