-- ===== src/Broadcast/Further.antt =====
-- Each step of the writer keeps what holds of the readers.
use android_system_libfmq.Base.{
  ℕ, ◌+◌, ◌≤◌, ◌≡◌, refl, ◌∙◌, arith, List, ◌++◌, length-append, get_elem?-append_left,
}
use android_system_libfmq.Queue.{Queue, commit_write}
use android_system_libfmq.Concurrent.{
  Writer, resting, filling, Reader, waiting, draining, byte_place, poke, mark, WriterMove, stores,
  begun_write,
}
use android_system_libfmq.Concurrent
use android_system_libfmq.Broadcast.{extent}
use android_system_libfmq.Broadcast.Inv.{Hears}
use Prim.Native.Nat.{max}

pub WriterMove-same :
    {q q' : Queue} {w w' : Writer} {out : List ℕ}
    → WriterMove q w q' w' out
    → (q'.size ≡ q.size) × (q'.quantum ≡ q.quantum)
unfolding commit_write
WriterMove-same (Concurrent.WriterMove.begins n d e) = (refl, refl)
WriterMove-same (stores k below at) = (refl, refl)
WriterMove-same (Concurrent.WriterMove.commits full) = (refl, refl)
WriterMove-same Concurrent.WriterMove.abandons = (refl, refl)

-- A reader keeps what it has when more is written, and the writer reaches further.
later-Hears :
    (size quantum ptr : ℕ) (r : Reader) {wr : List ℕ} {reach reach' : ℕ} (out : List ℕ)
    → reach ≤ reach'
    → Hears size quantum ptr r wr reach
    → Hears size quantum ptr r (wr ++ out) reach'
later-Hears size quantum ptr waiting {wr} out further hears = record {
  behind = omega (arith, hears.behind, length-append wr out);
  read_aligned = hears.read_aligned;
  loads = tt;
}
later-Hears size quantum ptr (draining tx n d done) {wr} out further hears = record {
  behind = omega (arith, hears.behind, length-append wr out);
  read_aligned = hears.read_aligned;
  loads = (
    hears.loads.0,
    hears.loads.1,
    omega (arith, hears.loads.2, length-append wr out),
    λ k h marked far.
        get_elem?-append_left wr out (ptr + k) (omega (arith, hears.loads.2))
        ∙ hears.loads.3 k h marked (omega arith),
  );
}

pub WriterMove-Hears :
    {q q' : Queue} {w w' : Writer} {wr out : List ℕ} {reach : ℕ} (ptr : ℕ) (r : Reader)
    → WriterMove q w q' w' out
    → Hears q.size q.quantum ptr r wr reach
    → Hears q'.size q'.quantum ptr r (wr ++ out) (max reach (extent q' w'))
WriterMove-Hears {q} {q'} {w' = w'} {wr} {out} {reach} ptr r move hears =
    let (size, quantum) = WriterMove-same move in
    rw (size, quantum) (later-Hears q.size q.quantum ptr r out (omega arith) hears)
