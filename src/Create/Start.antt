-- ===== src/Create/Start.antt =====
-- A new queue, as the constructor leaves it, and as its operations find it.
use android_system_libfmq.Base.{
  ℕ, suc, ◌+◌, ◌-◌, ◌*◌, ◌%◌, ◌^◌, ◌<◌, ◌≤◌, ◌≡◌, refl, sym, ap, ◌∙◌, arith, Bool, true, false,
  Option, none, some, List, [], ◌∷◌, length, mul-mod, le-div_of_mul-le, mul-le-mul,
}
use native.Mathlib.Nat.{zero-mod}
use android_system_libfmq.Memory.{mul64}
use android_system_libfmq.Flavor.{MqFlavor}
use android_system_libfmq.Descriptor.{GrantorDescriptor, min_grantor_count}
use android_system_libfmq.Descriptor.Align.{is_aligned_iff}
use android_system_libfmq.Shim.{
  NativeHandle, Shim, mem_sizes, from_sizes, get_size, is_handle_valid, count_grantors,
}
use android_system_libfmq.Shim.Layout.{Laid, extents, needed, from_sizes-Laid}
use android_system_libfmq.Mapping.{
  MessageQueue, World, Host, is_valid, all_aligned, init_memory, unmapped_queue, from_descriptor,
}
use android_system_libfmq.Mapping.Init.{Maps, Acceptable, from_descriptor_maps}
use android_system_libfmq.Mapping.View.{seen, view, from_descriptor-view}
use android_system_libfmq.Queue.{Queue}
use android_system_libfmq.Queue.Inv.{used, IsValid, InStep, contents}
use android_system_libfmq.Create.{
  Maker, Request, ashmem_size, fill_handle, make_descriptor, is_refused, create,
}

Laid-all_aligned :
    (low high : ℕ) (gs : List GrantorDescriptor) → Laid low gs high → all_aligned gs ≡ true
Laid-all_aligned low high [] laid = refl
Laid-all_aligned low high (g ∷ gs) (after, word, rest) =
    rw ((is_aligned_iff g.offset).1 word) (Laid-all_aligned (g.offset + g.extent) high gs rest)

length-extents : (gs : List GrantorDescriptor) → length (extents gs) ≡ length gs
length-extents [] = refl
length-extents (g ∷ gs) = ap suc (length-extents gs)

enough : (b : ℕ) (ev : Bool) → min_grantor_count ≤ length (mem_sizes b ev)
enough b true = omega arith
enough b false = omega arith

count :
    (s : Shim) (b : ℕ) (ev : Bool)
    → extents s.grantors ≡ mem_sizes b ev
    → min_grantor_count ≤ count_grantors s
unfolding count_grantors
count s b ev e = rw (sym (length-extents s.grantors), e) (enough b ev)

handle_kept : (s : Shim) (handle : NativeHandle) → s.handle ≡ some handle → is_handle_valid s ≡ true
unfolding is_handle_valid
handle_kept s handle e = rw e refl

-- A ring whose counters are 0.
fresh :
    (s : Queue) (n : ℕ)
    → 0 < s.quantum
    → 0 < n
    → n * s.quantum ≤ 2 ^ 31 - 24
    → s.size ≡ n * s.quantum
    → s.read_ptr ≡ 0
    → s.write_ptr ≡ 0
    → IsValid s × InStep s × (contents s ≡ [])
fresh s n pos some_n small size r w =
    let none_used : used s ≡ 0 = omega arith in
    let whole : s.size % s.quantum ≡ 0 = rw size (mul-mod n s.quantum) in
    let room : 0 < s.size = omega (arith, mul-le-mul s.quantum some_n) in
    (
      record {
        quantum_pos = pos;
        size_pos = room;
        size_fits = omega arith;
        whole = whole;
        read_fits = omega arith;
        write_fits = omega arith;
        read_aligned = rw r (zero-mod s.quantum);
        write_aligned = rw w (zero-mod s.quantum);
      },
      omega arith,
      rw none_used refl,
    )

-- The descriptor of a new queue, with a handle.
descriptor :
    (flavor : MqFlavor) (b : ℕ) (handle : NativeHandle) (m : ℕ) (ev : Bool)
    → b ≤ 2 ^ 31 - 24
    → m < 2 ^ 31
    → (s : Shim) × (from_sizes flavor b (some handle) m ev ≡ some s)
      × Acceptable s m
      × (all_aligned s.grantors ≡ true)
      × (get_size s ≡ b)
descriptor flavor b handle m ev h k =
    let (s, made, laid, sizes, size, quantum, kept) =
      from_sizes-Laid flavor b (some handle) m ev h k in
    (
      s,
      made,
      record {
        handle_valid = handle_kept s handle kept;
        enough = count s b ev sizes;
        same_quantum = quantum;
      },
      Laid-all_aligned 0 (needed b ev) s.grantors laid,
      size,
    )

module _ (maker : Maker) (host : Host) (flavor : MqFlavor) (q n : ℕ) (ev : Bool) (buffer_size : ℕ)
    (w : World) (handle filled : NativeHandle) (r : ℕ) where
  abbrev request : Request
  request = record {
    num_elements_in_queue = n;
    configure_event_flag_word = ev;
    buffer_fd = none;
    buffer_size = buffer_size;
  }

  allowed : 0 < q → n * q ≤ 2 ^ 31 - 24 → is_refused q request ≡ false
  unfolding is_refused
  allowed pos small = ground (arith, le-div_of_mul-le n (2 ^ 64 - 1) q pos (omega arith))

  made :
      (d : Shim)
      → 0 < q
      → n * q ≤ 2 ^ 31 - 24
      → ashmem_size (n * q) ev false ≡ some r
      → maker.native_handle_create 1 0 ≡ some handle
      → fill_handle none (maker.ashmem_create_region r) handle ≡ some filled
      → from_sizes flavor (n * q) (some filled) q ev ≡ some d
      → maker.descriptor_memory ≡ true
      → create maker host flavor q request w
        ≡ init_memory host true (unmapped_queue flavor q (some d)) w
  unfolding create make_descriptor
  made d pos small asked got full desc memory =
      let fits : is_refused q request ≡ false = allowed pos small in
      let whole : mul64 n q ≡ n * q = omega arith in
      rw (create, fits, whole, asked, got, full, make_descriptor, whole, desc, memory) refl

  -- What the constructor leaves: a valid queue, and what its operations find through its pointers,
  -- which are those that the system maps for the descriptor; `bytes` are those of the shared files.
  abbrev pub Begun :
      (d : Shim) → Maps host d flavor → (ℕ → ℕ → ℕ) → Option (MessageQueue × World) → Type 0
  Begun d m bytes result =
      (mq : MessageQueue) × (w' : World) × (s : Queue) × (result ≡ some (mq, w'))
      × (is_valid mq ≡ true)
      × (mq.read_ptr ≡ some m.read_ptr)
      × (mq.write_ptr ≡ some m.write_ptr)
      × (mq.ring ≡ some m.ring)
      × (view bytes mq w' ≡ some s)
      × (s.flavor ≡ flavor)
      × (s.size ≡ n * q)
      × (s.quantum ≡ q)
      × IsValid s
      × InStep s
      × (contents s ≡ [])

  -- The constructor on arguments without a caller's ring, for `n` messages of `q` bytes, neither
  -- of them 0, where `n * q` is at most `2 ^ 31 - 24` and `q` below `2 ^ 31`, with memory for the
  -- handle and the descriptor `d`, on a system that maps what `d` names: it leaves a valid queue,
  -- whose counters and ring are those that `d` names, as the system maps them, and whose operations find, through its
  -- descriptor and its pointers, a ring of `n * q` bytes with counters that satisfy the invariant of
  -- the ring operations, which holds nothing, whatever bytes are in the shared memory.
  pub create_begins :
      0 < q
      → 0 < n
      → n * q ≤ 2 ^ 31 - 24
      → q < 2 ^ 31
      → ashmem_size (n * q) ev false ≡ some r
      → maker.native_handle_create 1 0 ≡ some handle
      → fill_handle none (maker.ashmem_create_region r) handle ≡ some filled
      → maker.descriptor_memory ≡ true
      → (d : Shim) → from_sizes flavor (n * q) (some filled) q ev ≡ some d
      → (m : Maps host d flavor) (bytes : ℕ → ℕ → ℕ)
      → Begun d m bytes (create maker host flavor q request w)
  unfolding from_descriptor
  create_begins pos some_n small fits asked got full memory d desc m bytes =
      let (d', desc', accepted', word', size') = descriptor flavor (n * q) filled q ev small fits in
      let e : d' ≡ d = cc in
      let accepted : Acceptable d q = rw e at accepted' in
      let word : all_aligned d.grantors ≡ true = rw e at word' in
      let size : get_size d ≡ n * q = rw e at size' in
      let (mq, w', run, valid, read, write, ring, _, _, _, _, _, counters) =
        from_descriptor_maps host flavor q d true w m accepted word in
      let s = seen bytes flavor q d w' m.read_ptr m.write_ptr m.ring in
      let (good, in_step, empty) = fresh s n pos some_n small size counters.0 counters.1 in
      (
        mq,
        w',
        s,
        made d pos small asked got full desc memory ∙ run,
        valid,
        read,
        write,
        ring,
        from_descriptor-view bytes host flavor q d true w w' w' m mq accepted word run,
        refl,
        size,
        refl,
        good,
        in_step,
        empty,
      )
