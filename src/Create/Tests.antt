-- ===== src/Create/Tests.antt =====
-- The constructor of a new queue, run for three messages of four bytes.
use android_system_libfmq.Base.{
  ℕ, ◌+◌, ◌%◌, ◌<◌, ◌≡◌, refl, arith, true, false, none, some, List, [], ◌∷◌,
}
use android_system_libfmq.Flavor.{synchronized_read_write, flavor_value}
use android_system_libfmq.Descriptor.{GrantorDescriptor, align_to_word_boundary}
use android_system_libfmq.Shim.{
  NativeHandle, Shim, from_sizes, contiguous_grantors, mem_sizes, count_grantors,
}
use android_system_libfmq.Shim.Layout.{Laid, extents, needed}
use android_system_libfmq.Mapping.{
  Host, World, shared, page_size, pointer, map_grantor_descr, map_read_counter,
}
use android_system_libfmq.Mapping.Init.{Maps}
use android_system_libfmq.Create.{
  Maker, ashmem_size, metadata_size, page_aligned, buffer_grantors, fill_handle, create,
}
use android_system_libfmq.Create.Region.{
  in_file, ashmem_size-from_sizes, ashmem_size-buffer_grantors,
}
use android_system_libfmq.Create.Start.{Begun, create_begins}

abbrev empty_handle : NativeHandle
empty_handle = record { num_fds = 1; num_ints = 0; data_words = 0 ∷ [] }

abbrev handle : NativeHandle
handle = record { num_fds = 1; num_ints = 0; data_words = 7 ∷ [] }

abbrev maker : Maker
maker = record {
  native_handle_create = λ files ints. some empty_handle;
  ashmem_create_region = λ size. 7;
  descriptor_memory = true;
}

abbrev host : Host
host = record { mmap = λ file offset len. some 4096; counter_memory = true; flag_memory = true }

-- The words of the new memory hold anything.
abbrev world : World
world = record { words = λ file position. position + 5; own_counter = 3 }

abbrev grantor : ℕ → ℕ → GrantorDescriptor
grantor offset extent = record { flags = 0; fd_index = 0; offset = offset; extent = extent }

abbrev desc : Shim
desc = record {
  grantors = grantor 0 8 ∷ grantor 8 8 ∷ grantor 16 12 ∷ grantor 32 4 ∷ [];
  handle = some handle;
  quantum = 4;
  flags = 1;
}

abbrev bytes : ℕ → ℕ → ℕ
bytes file position = position

made : from_sizes synchronized_read_write 12 (some handle) 4 true ≡ some desc
unfolding from_sizes contiguous_grantors align_to_word_boundary flavor_value
made = refl

asked : ashmem_size 12 true false ≡ some 65536
unfolding ashmem_size metadata_size page_aligned align_to_word_boundary
asked = refl

filled : fill_handle none 7 empty_handle ≡ some handle
unfolding fill_handle
filled = refl

maps : Maps host desc synchronized_read_write
unfolding map_grantor_descr map_read_counter count_grantors
maps = record {
  read_ptr = shared (pointer 7 (grantor 0 8) 4096);
  write_ptr = pointer 7 (grantor 8 8) 4096;
  ring = pointer 7 (grantor 16 12) 4096;
  read_mapped = refl;
  write_mapped = refl;
  ring_mapped = refl;
  flag_mapped = λ e. (pointer 7 (grantor 32 4) 4096, refl);
}

create_begins_example :
    Begun maker host synchronized_read_write 4 3 true 0 world empty_handle handle 65536 desc maps
      bytes
      (create maker host synchronized_read_write 4
        (record {
          num_elements_in_queue = 3;
          configure_event_flag_word = true;
          buffer_fd = none;
          buffer_size = 0;
        })
        world)
create_begins_example =
    create_begins maker host synchronized_read_write 4 3 true 0 world empty_handle handle 65536
      (omega arith) (omega arith) (omega arith) (omega arith) asked refl filled refl desc made maps
      bytes

ashmem_size-from_sizes_example :
    (s : Shim) × (r : ℕ) × (from_sizes synchronized_read_write 12 (some handle) 4 true ≡ some s)
    × (ashmem_size 12 true false ≡ some r)
    × (r % page_size ≡ 0)
    × (r < needed 12 true + page_size)
    × Laid 0 s.grantors r
    × (extents s.grantors ≡ mem_sizes 12 true)
ashmem_size-from_sizes_example =
    ashmem_size-from_sizes synchronized_read_write 12 (some handle) 4 true (omega arith)
      (omega arith)

ashmem_size-buffer_grantors_example :
    (gs : List GrantorDescriptor) × (r : ℕ) × (buffer_grantors 0 0 (mem_sizes 12 true) ≡ some gs)
    × (ashmem_size 12 true true ≡ some r)
    × Laid 0 (in_file 0 gs) r
    × Laid 0 (in_file 1 gs) 12
    × (extents gs ≡ mem_sizes 12 true)
ashmem_size-buffer_grantors_example = ashmem_size-buffer_grantors 12 true
