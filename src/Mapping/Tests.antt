-- ===== src/Mapping/Tests.antt =====
-- Mapping on a descriptor of a ring of 12 bytes.
use android_system_libfmq.Base.{
  get_elem?, ap, ltb, ℕ, ◌+◌, ◌%◌, ◌≡◌, refl, arith, true, false, some, [], ◌∷◌,
}
use android_system_libfmq.Flavor.{synchronized_read_write}
use android_system_libfmq.Descriptor.{GrantorDescriptor, is_aligned_to_word_boundary}
use android_system_libfmq.Shim.{NativeHandle, Shim, is_handle_valid, count_grantors, get_quantum}
use android_system_libfmq.Mapping.{
  MessageQueue, destroy, Mmap, Host, World, shared, page_size, pointer, map_offset, map_length,
  map_grantor_descr, unmap_grantor_descr, map_read_counter, from_descriptor, all_aligned,
}
use android_system_libfmq.EventFlag.{success}
use android_system_libfmq.Mapping.Release.{Placed, from_descriptor-destroy}
use android_system_libfmq.Mapping.Grantor.{Small, pages, map_grantor_descr-unmap_grantor_descr}
use android_system_libfmq.Mapping.Init.{Maps, Acceptable, Ready, from_descriptor_maps}

abbrev grantor : ℕ → ℕ → GrantorDescriptor
grantor offset extent = record { flags = 0; fd_index = 0; offset = offset; extent = extent }

abbrev handle : NativeHandle
handle = record { num_fds = 1; num_ints = 0; data_words = 7 ∷ [] }

abbrev desc : Shim
desc = record {
  grantors = grantor 0 8 ∷ grantor 8 8 ∷ grantor 65552 12 ∷ [];
  handle = some handle;
  quantum = 4;
  flags = 1;
}

-- Every mapping starts at the same address.
abbrev mmap : Mmap
mmap file offset len = some 4096

abbrev host : Host
host = record { mmap = mmap; counter_memory = true; flag_memory = true }

abbrev world : World
world = record { words = λ file position. position; own_counter = 3 }

map_grantor_descr-unmap_grantor_descr_example :
    let p = pointer 7 (grantor 65552 12) 4096 in
    (map_grantor_descr mmap desc 2 ≡ some (some p))
    × (p.position ≡ 65552)
    × (map_offset (grantor 65552 12) % page_size ≡ 0)
    × (map_offset (grantor 65552 12) + map_length (grantor 65552 12) ≡ 65552 + 12)
    × (unmap_grantor_descr (some p.address) desc 2 ≡ (4096, 28) ∷ [])
map_grantor_descr-unmap_grantor_descr_example =
    map_grantor_descr-unmap_grantor_descr mmap desc handle 2 (grantor 65552 12) 7 4096 refl refl
      refl refl (omega arith) (omega arith) (omega arith)

maps : Maps host desc synchronized_read_write
unfolding map_grantor_descr map_read_counter count_grantors
maps = record {
  read_ptr = shared (pointer 7 (grantor 0 8) 4096);
  write_ptr = pointer 7 (grantor 8 8) 4096;
  ring = pointer 7 (grantor 65552 12) 4096;
  read_mapped = refl;
  write_mapped = refl;
  ring_mapped = refl;
  flag_mapped = λ e. cc;
}

acceptable : Acceptable desc 4
unfolding is_handle_valid count_grantors get_quantum
acceptable = record { handle_valid = refl; enough = omega arith; same_quantum = refl }

aligned : all_aligned desc.grantors ≡ true
unfolding is_aligned_to_word_boundary
aligned = refl

from_descriptor_maps_example :
    Ready host synchronized_read_write 4 desc false world maps
      (from_descriptor host synchronized_read_write 4 (some desc) false world)
from_descriptor_maps_example =
    from_descriptor_maps host synchronized_read_write 4 desc false world maps acceptable aligned

abbrev with_flag : Shim
with_flag = record desc {
  grantors = grantor 0 8 ∷ grantor 8 8 ∷ grantor 65552 12 ∷ grantor 65568 4 ∷ [];
}

-- Each file and offset has its own pages.
abbrev spread : Host
spread = record host { mmap = λ file offset len. some (65536 + offset) }

abbrev placed :
    (i : ℕ) (g : GrantorDescriptor)
    → get_elem? with_flag.grantors i ≡ some g
    → g.fd_index ≡ 0
    → Small g
    → Placed spread with_flag i
placed i g found first small = record {
  handle = handle;
  grantor = g;
  file = 7;
  address = 65536 + map_offset g;
  has_handle = refl;
  has_grantor = found;
  has_file = ap (get_elem? handle.data_words) first;
  maps_there = refl;
  small = small;
  not_null = omega arith;
  low = omega (arith, pages g small);
}

with_flag-Acceptable : Acceptable with_flag 4
unfolding is_handle_valid count_grantors get_quantum
with_flag-Acceptable = record { handle_valid = refl; enough = omega arith; same_quantum = refl }

flag_counted : ltb 3 (count_grantors with_flag) ≡ true
unfolding count_grantors
flag_counted = refl

all_words : all_aligned with_flag.grantors ≡ true
unfolding is_aligned_to_word_boundary
all_words = refl

from_descriptor-destroy_example :
    (q : MessageQueue) × (w' : World) × (from_descriptor spread synchronized_read_write 4
        (some with_flag)
        true
        world
      ≡ some (q, w'))
    × ((destroy (λ addr. success) q).unmapped
        ≡ (65536, 8) ∷ (65536, 16) ∷ (131072, 28) ∷ (131072, 36) ∷ [])
    × ((destroy (λ addr. success) q).flag_unmapped ≡ [])
    × ((destroy (λ addr. success) q).counter_deleted ≡ false)
from_descriptor-destroy_example =
    from_descriptor-destroy spread with_flag (placed 0 (grantor 0 8) refl refl (omega arith))
      (placed 1 (grantor 8 8) refl refl (omega arith))
      (placed 2 (grantor 65552 12) refl refl (omega arith))
      (placed 3 (grantor 65568 4) refl refl (omega arith)) flag_counted 4 true world
      (λ addr. success) with_flag-Acceptable all_words
