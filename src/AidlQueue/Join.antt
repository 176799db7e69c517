-- ===== src/AidlQueue/Join.antt =====
-- A second process joins a queue: the constructor from the descriptor that `dupeDesc` makes, which
-- keeps the counters.
use android_system_libfmq.Base.{
  ℕ, ◌+◌, ◌≡◌, refl, sym, ap, ap₂, ◌∙◌, Bool, true, false, some, List, length, if◌then◌else◌,
}
use android_system_libfmq.Flavor.{is_synchronized}
use android_system_libfmq.Descriptor.{GrantorDescriptor, read_ptr_pos, write_ptr_pos, data_ptr_pos}
use android_system_libfmq.Shim.{
  NativeHandle, Shim, get_size, get_quantum, is_handle_valid, count_grantors,
}
use android_system_libfmq.Convert.{AidlDescriptor, dupe_desc, from_aidl, assign}
use android_system_libfmq.Convert.RoundTrip.{Portable}
use android_system_libfmq.Convert.Peer.{InHandle}
use android_system_libfmq.Mapping.{
  Pointer, MessageQueue, World, Host, is_valid, all_aligned, from_descriptor, map_grantor_descr,
}
use android_system_libfmq.Mapping.Init.{
  counter_value, Maps, Acceptable, Started, from_descriptor_maps,
}
use android_system_libfmq.Mapping.View.{seen, view, from_descriptor-view}
use android_system_libfmq.Queue.{Queue}
use android_system_libfmq.AidlQueue.{
  FlavorType, flavor_type_value, Process, HandleCall, from_shim, from_mq_descriptor, destroy_shim,
}
use android_system_libfmq.AidlQueue
use android_system_libfmq.AidlQueue.Copies.{Holds, Sized}
use android_system_libfmq.AidlQueue.Peer.{
  SameFiles, OneByte, memory_at, owner, joined, arrives, copies, one_byte, shared_counter,
  own_counter,
}

module _ (process : Process) (sized : Sized process.native_handle_create)
    (grantors : List GrantorDescriptor) (quantum flags : ℕ) (h made : NativeHandle)
    (portable : Portable grantors quantum flags) (fds ints : List ℕ) (holds : Holds h fds ints)
    (room : process.native_handle_create (length fds) (length ints) ≡ some made) where
  abbrev here : Shim
  here = owner process sized grantors quantum flags h made portable fds ints holds room

  abbrev there : Shim
  there = joined process sized grantors quantum flags h made portable fds ints holds room

  same_size : get_size there ≡ get_size here
  unfolding get_size
  same_size = refl

  acceptable : Acceptable here quantum → Acceptable there quantum
  unfolding is_handle_valid count_grantors get_quantum
  acceptable a = record { handle_valid = refl; enough = a.enough; same_quantum = a.same_quantum }

  copy_of_sent :
      (desc : AidlDescriptor)
      → dupe_desc process.dup (some here) ≡ some desc
      → assign process.native_handle_create process.dup
          (from_aidl process.native_handle_create process.dup desc)
        ≡ some there
  copy_of_sent desc sent =
      let (desc₁, sent₁, received) =
        arrives process sized grantors quantum flags h made portable fds ints holds room in
      let one : desc ≡ desc₁ = cc (sent, sent₁) in
      ap (assign process.native_handle_create process.dup)
        (ap (from_aidl process.native_handle_create process.dup) one ∙ received)
      ∙ copies process sized grantors quantum flags h made portable fds ints holds room

  constructs :
      (flavor : FlavorType) (desc : AidlDescriptor) (w w'' : World) (mq : MessageQueue)
      → process.descriptor_memory ≡ true
      → dupe_desc process.dup (some here) ≡ some desc
      → from_descriptor process.host (flavor_type_value flavor) quantum (some there) false w
        ≡ some (mq, w'')
      → (closed : List HandleCall) × (from_mq_descriptor process flavor quantum desc false w
          ≡ some (mq, w'', closed))
  unfolding from_mq_descriptor from_shim
  constructs flavor desc w w'' mq memory sent run =
      let shim = from_aidl process.native_handle_create process.dup desc in
      let built : from_shim process (flavor_type_value flavor) quantum shim false w
          ≡ some (mq, w'') =
        rw (from_shim, memory, copy_of_sent desc sent, run) refl in
      (destroy_shim shim, rw built refl)

  module _ (file_of : ℕ → ℕ) (same : (f : ℕ) → file_of (process.dup f) ≡ file_of f)
      (inside : InHandle (length fds) grantors) (host : Host) (w w' : World)
      (same_files : SameFiles file_of w w') where
    one :
        (i : ℕ) (p p' : Pointer)
        → map_grantor_descr host.mmap here i ≡ some (some p)
        → map_grantor_descr process.host.mmap there i ≡ some (some p')
        → OneByte file_of p p'
    one i p p' =
        one_byte process sized grantors quantum flags h made portable fds ints holds room file_of
          same inside host.mmap process.host.mmap i p p'

    same_word :
        (i : ℕ) (p p' : Pointer)
        → map_grantor_descr host.mmap here i ≡ some (some p)
        → map_grantor_descr process.host.mmap there i ≡ some (some p')
        → w'.words p'.file p'.position ≡ w.words p.file p.position
    same_word i p p' mapped mapped' =
        let (file, position) = one i p p' mapped mapped' in
        ap (w'.words p'.file) position ∙ same_files p.file p'.file p.position file

    same_ring :
        (bytes : ℕ → ℕ → ℕ) (p p' : Pointer)
        → map_grantor_descr host.mmap here data_ptr_pos ≡ some (some p)
        → map_grantor_descr process.host.mmap there data_ptr_pos ≡ some (some p')
        → memory_at bytes file_of p' ≡ memory_at bytes file_of p
    same_ring bytes p p' mapped mapped' =
        let (file, position) = one data_ptr_pos p p' mapped mapped' in
        ap₂ (λ f at a. bytes f (at + a)) file position

    -- The read counter, and the words, after a constructor that keeps them.
    counters :
        (flavor : FlavorType) (m : Maps host here (flavor_type_value flavor))
        (m' : Maps process.host there (flavor_type_value flavor)) (w'' : World)
        → Started false (flavor_type_value flavor) m'.read_ptr m'.write_ptr w' w''
        → (counter_value w'' m'.read_ptr ≡ (
            if is_synchronized (flavor_type_value flavor) then counter_value w m.read_ptr else 0))
          × (w''.words ≡ w'.words)
    unfolding flavor_type_value
    counters AidlQueue.FlavorType.synchronized_read_write m m' w'' started =
        let (p, e, mapped) = shared_counter host here m.read_ptr m.read_mapped in
        let (p', e', mapped') = shared_counter process.host there m'.read_ptr m'.read_mapped in
        (
          ap (counter_value w'') e'
              ∙ ap (λ (x : World). x.words p'.file p'.position) started
              ∙ same_word read_ptr_pos p p' mapped mapped'
              ∙ sym (ap (counter_value w) e),
          ap (λ (x : World). x.words) started,
        )
    counters AidlQueue.FlavorType.unsynchronized_write m m' w'' started =
        let e' = own_counter process.host there m'.read_ptr m'.read_mapped in
        (ap (counter_value w'') e' ∙ started.0, started.1)

    -- The owner of a queue, made from a descriptor with a handle whose files are the first of its
    -- words, numbers that fit AIDL's, aligned offsets, and grantors for files of the handle, gives
    -- the descriptor that `dupeDesc` makes of it to a second process, where `dup` gives a
    -- descriptor of the same open file and there is memory, and both see the same words and bytes
    -- of the open files, and map the descriptor, each with its own `mmap`. Then the second
    -- process's `AidlMessageQueue`, without a reset, is a valid queue; no word of the shared files
    -- changes; and its operations find, through its descriptor and its pointers, the size, the
    -- ring, the write counter and, if the queue is synchronized, the read counter that the owner's
    -- find through those of the owner's queue, at the places that the descriptor names; an
    -- unsynchronized reader starts at 0.
    pub join_sees :
        (flavor : FlavorType) (m : Maps host here (flavor_type_value flavor))
        (m' : Maps process.host there (flavor_type_value flavor)) (desc : AidlDescriptor)
        (bytes : ℕ → ℕ → ℕ) (reset : Bool) (before after : World) (owned : MessageQueue)
        → Acceptable here quantum
        → all_aligned grantors ≡ true
        → from_descriptor host (flavor_type_value flavor) quantum (some here) reset before
          ≡ some (owned, after)
        → process.descriptor_memory ≡ true
        → dupe_desc process.dup (some here) ≡ some desc
        → (mq : MessageQueue) × (w'' : World) × (closed : List HandleCall) × (s : Queue)
          × (from_mq_descriptor process flavor quantum desc false w' ≡ some (mq, w'', closed))
          × (is_valid mq ≡ true)
          × (w''.words ≡ w'.words)
          × (s
              ≡ seen
                  (λ f. bytes (file_of f))
                  (flavor_type_value flavor)
                  quantum
                  here
                  w
                  m.read_ptr
                  m.write_ptr
                  m.ring)
          × (view (λ f. bytes (file_of f)) owned w ≡ some s)
          × (view (λ f. bytes (file_of f)) mq w''
              ≡ some (record s {
                read_ptr = if is_synchronized (flavor_type_value flavor) then s.read_ptr else 0;
              }))
    join_sees flavor m m' desc bytes reset before after owned fit aligned built_here memory sent =
        let open_bytes : ℕ → ℕ → ℕ = λ f. bytes (file_of f) in
        let (mq, w'', run, valid, _, _, _, _, _, _, _, _, started) =
          from_descriptor_maps process.host (flavor_type_value flavor) quantum there false w' m'
            (acceptable fit) aligned in
        let (closed, built) = constructs flavor desc w' w'' mq memory sent run in
        let (read, words) = counters flavor m m' w'' started in
        let write =
          ap (λ (ws : ℕ → ℕ → ℕ). ws m'.write_ptr.file m'.write_ptr.position) words
          ∙ same_word write_ptr_pos m.write_ptr m'.write_ptr m.write_mapped m'.write_mapped in
        let ring = same_ring bytes m.ring m'.ring m.ring_mapped m'.ring_mapped in
        (
          mq,
          w'',
          closed,
          seen open_bytes (flavor_type_value flavor) quantum here w m.read_ptr m.write_ptr m.ring,
          built,
          valid,
          words,
          refl,
          from_descriptor-view open_bytes host (flavor_type_value flavor) quantum here reset before
              after w m owned fit aligned built_here,
          from_descriptor-view open_bytes process.host (flavor_type_value flavor) quantum there
                false w' w'' w'' m' mq (acceptable fit) aligned run
              ∙ cc (read, write, ring, same_size),
        )
