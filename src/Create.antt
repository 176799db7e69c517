-- ===== src/Create.antt =====
-- The constructor of include/fmq/MessageQueueBase.h that makes a new queue, in the build without
-- `_MSC_VER`. Shared memory (libcutils' ashmem), native handles and the allocator are parameters.
-- `none` stands for an abort or undefined behaviour.
pub mod Region
pub mod Start
mod Tests
use Prim.Native.Nat.{bit_and}
use android_system_libfmq.Base.{
  ℕ, zero, suc, ◌+◌, ◌-◌, ◌*◌, ◌/◌, ◌^◌, Bool, true, false, ◌&&◌, Option, none, some, List, [], ◌∷◌,
  ltb, ◌==◌, if◌then◌else◌, ◌>>=◌, is_some, take,
}
use android_system_libfmq.Memory.{add64, sub64, mul64}
use android_system_libfmq.Flavor.{MqFlavor}
use android_system_libfmq.Descriptor.{
  GrantorDescriptor, align_to_word_boundary, data_ptr_pos, min_grantor_count,
  min_grantor_count_for_ev_flag_support,
}
use android_system_libfmq.Shim.{NativeHandle, Shim, from_grantors, from_sizes, mem_sizes, u32}
use android_system_libfmq.Mapping.{
  page_size, MessageQueue, World, Host, init_memory, unmapped_queue,
}

-- What the constructor calls: `native_handle_create` with the numbers of files and integers,
-- `ashmem_create_region` with a size, and whether the descriptor can be allocated.
pub record Maker : Type 0 where
  pub native_handle_create : ℕ → ℕ → Option NativeHandle
  pub ashmem_create_region : ℕ → ℕ
  pub descriptor_memory : Bool

-- Its arguments; `none` is the file descriptor -1.
pub record Request : Type 0 where
  pub num_elements_in_queue : ℕ
  pub configure_event_flag_word : Bool
  pub buffer_fd : Option ℕ
  pub buffer_size : ℕ

-- `kMetaDataSize`
unfoldable pub metadata_size : Bool → ℕ
metadata_size configure = if configure then 2 * 8 + 4 else 2 * 8

-- `n + PAGE_SIZE - 1 & ~(PAGE_SIZE - 1)`, where `PAGE_SIZE` is an `int`.
unfoldable pub page_aligned : ℕ → ℕ
page_aligned n = bit_and (sub64 (add64 n page_size) 1) (2 ^ 64 - page_size)

-- `kAshmemSizePageAligned`
unfoldable pub ashmem_size : ℕ → Bool → Bool → Option ℕ
unfolding metadata_size page_aligned
ashmem_size queue_size configure buffer_given =
    if buffer_given
    then some (page_aligned (metadata_size configure))
    else (align_to_word_boundary queue_size >>= λ aligned.
        some (page_aligned (add64 aligned (metadata_size configure))))

-- The loop over the grantors where the caller gives the ring: it lies alone in the second file.
unfoldable pub buffer_grantors : ℕ → ℕ → List ℕ → Option (List GrantorDescriptor)
buffer_grantors pos offset [] = some []
buffer_grantors pos offset (m ∷ ms) =
    let ring = pos == data_ptr_pos in
    align_to_word_boundary (if ring then 0 else offset) >>= λ at.
    buffer_grantors (suc pos) (if ring then offset else add64 offset m) ms >>= λ rest.
    some
      (record { flags = 0; fd_index = if ring then 1 else 0; offset = u32 at; extent = m } ∷ rest)

-- `handle->data[i] = v`
abbrev pub set_word : ℕ → ℕ → List ℕ → Option (List ℕ)
set_word i v [] = none
set_word zero v (x ∷ xs) = some (v ∷ xs)
set_word (suc i) v (x ∷ xs) = set_word i v xs >>= λ ys. some (x ∷ ys)

-- The handle with the files of the counters and, where the caller gives it, of the ring.
unfoldable pub fill_handle : Option ℕ → ℕ → NativeHandle → Option NativeHandle
fill_handle buffer_fd ashmem_fd handle = set_word 0 ashmem_fd handle.data_words >>= λ words.
    elim buffer_fd [
      | none ↦ some (record handle { data_words = words })
      | some fd ↦ set_word 1 fd words >>= λ both. some (record handle { data_words = both })
    ]

unfoldable pub make_descriptor : MqFlavor → ℕ → ℕ → Request → NativeHandle → Option Shim
unfolding from_sizes
make_descriptor flavor quantum queue_size r handle =
    if is_some r.buffer_fd
    then (buffer_grantors 0 0 (mem_sizes queue_size r.configure_event_flag_word) >>= λ grantors.
        some (from_grantors flavor grantors (some handle) quantum))
    else from_sizes flavor queue_size (some handle) quantum r.configure_event_flag_word

-- The arguments that the constructor turns down before it makes anything.
unfoldable pub is_refused : ℕ → Request → Bool
is_refused quantum r =
    if ltb ((2 ^ 64 - 1) / quantum) r.num_elements_in_queue
    then true
    else is_some r.buffer_fd && ltb r.buffer_size (mul64 r.num_elements_in_queue quantum)

-- The queue and the shared memory after the constructor.
unfoldable pub create :
    Maker → Host → MqFlavor → ℕ → Request → World → Option (MessageQueue × World)
unfolding ashmem_size fill_handle make_descriptor is_refused
create maker host flavor quantum r w =
    let queue_size = mul64 r.num_elements_in_queue quantum in
    let nothing = unmapped_queue flavor quantum none in
    if is_refused quantum r
    then some (nothing, w)
    else (ashmem_size queue_size r.configure_event_flag_word (is_some r.buffer_fd) >>= λ region.
        elim (maker.native_handle_create (if is_some r.buffer_fd then 2 else 1) 0) [
          | none ↦ some (nothing, w)
          | some handle ↦
              fill_handle r.buffer_fd (maker.ashmem_create_region region) handle >>= λ filled.
              make_descriptor flavor quantum queue_size r filled >>= λ desc.
              if maker.descriptor_memory
              then init_memory host true (unmapped_queue flavor quantum (some desc)) w
              else some (nothing, w)
        ])
