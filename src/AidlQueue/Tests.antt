-- ===== src/AidlQueue/Tests.antt =====
-- A second process that joins a queue of three messages.
use android_system_libfmq.Base.{
  ℕ, ◌+◌, ◌%◌, ◌≡◌, refl, arith, true, false, none, some, List, [], ◌∷◌, if◌then◌else◌, ◌==◌,
}
use android_system_libfmq.Flavor.{is_synchronized}
use android_system_libfmq.Descriptor.{GrantorDescriptor, is_aligned_to_word_boundary}
use android_system_libfmq.Shim.{NativeHandle, Shim, is_handle_valid, count_grantors, get_quantum}
use android_system_libfmq.Convert.{dupe_desc}
use android_system_libfmq.Convert.RoundTrip.{Portable, carried}
use android_system_libfmq.Mapping.{
  Mmap, Host, World, MessageQueue, shared, pointer, map_grantor_descr, map_read_counter, is_valid,
  from_descriptor, init_memory, map_memory, reset_counters, all_aligned,
}
use android_system_libfmq.Mapping.Init.{Maps, Acceptable}
use android_system_libfmq.Mapping.View.{seen, view}
use android_system_libfmq.Queue.{Queue}
use android_system_libfmq.AidlQueue.{
  flavor_type_value, synchronized_read_write, Process, HandleCall, from_mq_descriptor,
}
use android_system_libfmq.AidlQueue.Copies.{Holds, Sized}
use android_system_libfmq.AidlQueue.Join.{join_sees}

abbrev grantor : ℕ → ℕ → GrantorDescriptor
grantor offset extent = record { flags = 0; fd_index = 0; offset = offset; extent = extent }

abbrev grantors : List GrantorDescriptor
grantors = grantor 0 8 ∷ grantor 8 8 ∷ grantor 16 12 ∷ []

abbrev handle : NativeHandle
handle = record { num_fds = 1; num_ints = 1; data_words = 7 ∷ 40 ∷ [] }

abbrev made : NativeHandle
made = record { num_fds = 1; num_ints = 1; data_words = 0 ∷ 0 ∷ [] }

-- A duplicate has a number that is larger by 100, and the same open file.
abbrev file_of : ℕ → ℕ
file_of fd = fd % 100

abbrev map_at : ℕ → Mmap
map_at address file offset length = some address

abbrev host_at : ℕ → Host
host_at address = record { mmap = map_at address; counter_memory = true; flag_memory = true }

abbrev process : Process
process = record {
  native_handle_create = λ num_fds num_ints.
      some (record { num_fds = num_fds; num_ints = num_ints; data_words = 0 ∷ 0 ∷ [] });
  dup = λ fd. fd + 100;
  descriptor_memory = true;
  host = host_at 8192;
}

process-Sized : Sized process.native_handle_create
process-Sized a b h e = (cc e, cc e)

handle-Holds : Holds handle (7 ∷ []) (40 ∷ [])
handle-Holds = record { words = refl; as_many_files = refl; as_many_integers = refl }

portable : Portable grantors 4 1
portable = record {
  in_range = (
    refl,
    omega arith,
    omega arith,
    omega arith,
    (
      refl,
      omega arith,
      omega arith,
      omega arith,
      (refl, omega arith, omega arith, omega arith, tt),
    ),
  );
  quantum_fits = omega arith;
  flags_fit = omega arith;
}

abbrev here : Shim
here = record { grantors = grantors; handle = some handle; quantum = 4; flags = 1 }

abbrev there : Shim
there = record {
  grantors = grantors;
  handle = some (record { num_fds = 1; num_ints = 1; data_words = 307 ∷ 40 ∷ [] });
  quantum = 4;
  flags = 1;
}

maps_here : Maps (host_at 4096) here (flavor_type_value synchronized_read_write)
unfolding map_grantor_descr map_read_counter count_grantors flavor_type_value
maps_here = record {
  read_ptr = shared (pointer 7 (grantor 0 8) 4096);
  write_ptr = pointer 7 (grantor 8 8) 4096;
  ring = pointer 7 (grantor 16 12) 4096;
  read_mapped = refl;
  write_mapped = refl;
  ring_mapped = refl;
  flag_mapped = λ e. cc;
}

maps_there : Maps process.host there (flavor_type_value synchronized_read_write)
unfolding map_grantor_descr map_read_counter count_grantors flavor_type_value
maps_there = record {
  read_ptr = shared (pointer 307 (grantor 0 8) 8192);
  write_ptr = pointer 307 (grantor 8 8) 8192;
  ring = pointer 307 (grantor 16 12) 8192;
  read_mapped = refl;
  write_mapped = refl;
  ring_mapped = refl;
  flag_mapped = λ e. cc;
}

-- 8 bytes were written, and 4 of them read.
abbrev world : World
world = record {
  words = λ file position. if position == 8 then 8 else (if position == 0 then 4 else 0);
  own_counter = 0;
}

acceptable : Acceptable here 4
unfolding is_handle_valid count_grantors get_quantum
acceptable = record { handle_valid = refl; enough = omega arith; same_quantum = refl }

aligned : all_aligned grantors ≡ true
unfolding is_aligned_to_word_boundary
aligned = refl

sent : dupe_desc process.dup (some here) ≡ some (carried process.dup grantors 4 1 handle)
unfolding dupe_desc
sent = refl

abbrev bytes : ℕ → ℕ → ℕ
bytes file position = file + position

-- The owner's queue, as it was made.
abbrev owned : MessageQueue
owned = record {
  flavor = flavor_type_value synchronized_read_write;
  quantum = 4;
  desc = some here;
  read_ptr = some maps_here.read_ptr;
  write_ptr = some maps_here.write_ptr;
  ring = some maps_here.ring;
  ev_flag_word = none;
  event_flag = none;
}

owned_made :
    from_descriptor
      (host_at 4096)
      (flavor_type_value synchronized_read_write)
      4
      (some here)
      false
      world
    ≡ some (owned, world)
unfolding from_descriptor init_memory map_memory map_grantor_descr map_read_counter reset_counters
    is_handle_valid count_grantors get_quantum flavor_type_value is_aligned_to_word_boundary
    maps_here
owned_made = refl

join_sees_example :
    (mq : MessageQueue) × (w'' : World) × (closed : List HandleCall) × (s : Queue)
    × (from_mq_descriptor process synchronized_read_write 4
          (carried process.dup grantors 4 1 handle)
          false
          world
        ≡ some (mq, w'', closed))
    × (is_valid mq ≡ true)
    × (w''.words ≡ world.words)
    × (s
        ≡ seen
            (λ f. bytes (file_of f))
            (flavor_type_value synchronized_read_write)
            4
            here
            world
            maps_here.read_ptr
            maps_here.write_ptr
            maps_here.ring)
    × (view (λ f. bytes (file_of f)) owned world ≡ some s)
    × (view (λ f. bytes (file_of f)) mq w''
        ≡ some (record s {
          read_ptr =
              if is_synchronized (flavor_type_value synchronized_read_write) then s.read_ptr else 0;
        }))
join_sees_example =
    join_sees process process-Sized grantors 4 1 handle made portable (7 ∷ []) (40 ∷ [])
      handle-Holds refl file_of (λ f. omega arith) (omega arith, (omega arith, (omega arith, tt)))
      (host_at 4096) world world (λ f g position e. refl) synchronized_read_write maps_here
      maps_there (carried process.dup grantors 4 1 handle) bytes false world world owned acceptable
      aligned owned_made refl sent
