-- ===== src/Mapping/View.antt =====
-- The queue as its operations find it: the descriptor's size, and what the queue's pointers lead to.
use android_system_libfmq.Base.{ℕ, ◌+◌, ◌≡◌, refl, ap, ◌∙◌, Bool, true, Option, some, ◌>>=◌}
use android_system_libfmq.Flavor.{MqFlavor}
use android_system_libfmq.Shim.{Shim, get_size}
use android_system_libfmq.Mapping.{
  Pointer, Counter, MessageQueue, World, Host, all_aligned, from_descriptor,
}
use android_system_libfmq.Mapping.Init.{counter_value, Maps, Acceptable, from_descriptor_maps}
use android_system_libfmq.Queue.{Queue}

-- A queue whose counters and ring are there; `bytes` are those of the shared files.
abbrev pub seen : (ℕ → ℕ → ℕ) → MqFlavor → ℕ → Shim → World → Counter → Pointer → Pointer → Queue
seen bytes flavor quantum d w read_ptr write_ptr ring = record {
  flavor = flavor;
  size = get_size d;
  quantum = quantum;
  ring = λ a. bytes ring.file (ring.position + a);
  read_ptr = counter_value w read_ptr;
  write_ptr = w.words write_ptr.file write_ptr.position;
}

-- `none` where the queue has a null pointer.
abbrev pub view : (ℕ → ℕ → ℕ) → MessageQueue → World → Option Queue
view bytes q w = q.desc >>= λ d. q.read_ptr >>= λ read_ptr. q.write_ptr >>= λ write_ptr.
    q.ring >>= λ ring. some (seen bytes q.flavor q.quantum d w read_ptr write_ptr ring)

-- A queue that the constructor from a descriptor made is seen at the places that its descriptor
-- names, whatever is written to them meanwhile.
pub from_descriptor-view :
    (bytes : ℕ → ℕ → ℕ) (host : Host) (flavor : MqFlavor) (quantum : ℕ) (d : Shim) (reset : Bool)
    (w w' now : World) (m : Maps host d flavor) (q : MessageQueue)
    → Acceptable d quantum
    → all_aligned d.grantors ≡ true
    → from_descriptor host flavor quantum (some d) reset w ≡ some (q, w')
    → view bytes q now ≡ some (seen bytes flavor quantum d now m.read_ptr m.write_ptr m.ring)
from_descriptor-view bytes host flavor quantum d reset w w' now m q fit aligned made =
    let (q₁, w₁, made₁, _, read, write, ring, desc, same_flavor, same_quantum, _, _, _) =
      from_descriptor_maps host flavor quantum d reset w m fit aligned in
    let result : MessageQueue × World = (q, w') in
    let result₁ : MessageQueue × World = (q₁, w₁) in
    let same : result ≡ result₁ = cc (made, made₁) in
    ap (λ (t : MessageQueue × World). view bytes t.0 now) same
    ∙ rw (desc, read, write, ring, same_flavor, same_quantum) refl
