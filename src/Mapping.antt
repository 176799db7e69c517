-- ===== src/Mapping.antt =====
-- How a queue of include/fmq/MessageQueueBase.h gets at its memory: `mapGrantorDescr`,
-- `unmapGrantorDescr`, `initMemory`, `isValid`, the constructor from a descriptor and the
-- destructor. `none` stands for an abort or undefined behaviour. The kernel's `mmap`, to which
-- `system_porting_mmap` hands its arguments on, and the allocator are parameters.
pub mod Grantor
pub mod Init
pub mod Valid
pub mod View
pub mod Release
mod Tests
use android_system_libfmq.Base.{
  ℕ, ◌-◌, ◌+◌, ◌*◌, ◌/◌, ◌%◌, ◌^◌, Bool, true, false, not, ◌&&◌, ◌||◌, Option, none, some, List, [],
  ◌∷◌, ◌++◌, ltb, ◌==◌, if◌then◌else◌, ◌>>=◌, get_elem?, is_some,
}
use android_system_libfmq.Memory.{add64, sub64}
use android_system_libfmq.Flavor.{MqFlavor, is_synchronized}
use android_system_libfmq.Descriptor.{
  GrantorDescriptor, is_aligned_to_word_boundary, read_ptr_pos, write_ptr_pos, data_ptr_pos,
  ev_flag_word_pos, min_grantor_count,
}
use android_system_libfmq.Shim.{NativeHandle, Shim, get_quantum, is_handle_valid, count_grantors}
use android_system_libfmq.EventFlag.{Returned, Status}
use android_system_libfmq.EventFlag.Lifetime.{Flag, create_event_flag, delete_event_flag}

abbrev pub page_size : ℕ
page_size = 2 ^ 16

-- An `int` that becomes a 64-bit argument.
abbrev pub sign_extend : ℕ → ℕ
sign_extend n = if ltb n (2 ^ 31) then n else n + (2 ^ 64 - 2 ^ 32)

-- An address, and the byte of a shared file that stands there.
pub record Pointer : Type 0 where
  pub address : ℕ
  pub file : ℕ
  pub position : ℕ

-- `mmap` of a file from an offset on with a length: the address, or `MAP_FAILED`.
abbrev pub Mmap : Type 0
Mmap = ℕ → ℕ → ℕ → Option ℕ

-- `offset - mapOffset`
abbrev pub page_distance : GrantorDescriptor → ℕ
page_distance g = (g.offset + 2 ^ 32 - g.offset / page_size * page_size) % 2 ^ 32

abbrev pub map_offset : GrantorDescriptor → ℕ
map_offset g = sign_extend (g.offset / page_size * page_size)

abbrev pub map_length : GrantorDescriptor → ℕ
map_length g = sign_extend (add64 (page_distance g) g.extent % 2 ^ 32)

abbrev pub pointer : ℕ → GrantorDescriptor → ℕ → Pointer
pointer file g address = record {
  address = add64 address (page_distance g);
  file = file;
  position = add64 (map_offset g) (page_distance g);
}

-- The inner `none` is a null pointer. The index of the file is not compared with their number.
unfoldable pub map_grantor_descr : Mmap → Shim → ℕ → Option (Option Pointer)
map_grantor_descr mmap d i = elim d.handle [
  | none ↦ some none
  | some handle ↦ elim (get_elem? d.grantors i) [
    | none ↦ some none
    | some g ↦ get_elem? handle.data_words g.fd_index >>= λ file.
        some (mmap file (map_offset g) (map_length g) >>= λ address. some (pointer file g address))
  ]
]

-- The calls of `munmap`, each with an address and a length.
unfoldable pub unmap_grantor_descr : Option ℕ → Shim → ℕ → List (ℕ × ℕ)
unmap_grantor_descr none d i = []
unmap_grantor_descr (some address) d i = elim (get_elem? d.grantors i) [
  | none ↦ []
  | some g ↦
      let base = sub64 address (page_distance g) in
      if base == 0 then [] else (base, map_length g) ∷ []
]

-- The read counter lies in shared memory or, in the unsynchronized flavor, in the reader's own.
pub data Counter : Type 0 where
  shared : Pointer → Counter
  own : Counter

-- `mDesc`, `sizeof(T)` and the pointers of the queue.
pub record MessageQueue : Type 0 where
  pub flavor : MqFlavor
  pub quantum : ℕ
  pub desc : Option Shim
  pub read_ptr : Option Counter
  pub write_ptr : Option Pointer
  pub ring : Option Pointer
  pub ev_flag_word : Option Pointer
  pub event_flag : Option Flag

unfoldable pub is_valid : MessageQueue → Bool
is_valid q = is_some q.ring && is_some q.read_ptr && is_some q.write_ptr

-- The 64-bit words of the shared files, by file and position, and the reader's own counter.
pub record World : Type 0 where
  pub words : ℕ → ℕ → ℕ
  pub own_counter : ℕ

abbrev pub store : (ℕ → ℕ → ℕ) → Pointer → ℕ → ℕ → ℕ → ℕ
store words p v file position =
    if (file == p.file) && (position == p.position) then v else words file position

abbrev pub store_counter : World → Counter → ℕ → World
store_counter w (shared p) v = record w { words = store w.words p v }
store_counter w own v = record w { own_counter = v }

-- The system: `mmap`, and whether the read counter and the event flag can be allocated.
pub record Host : Type 0 where
  pub mmap : Mmap
  pub counter_memory : Bool
  pub flag_memory : Bool

-- A pointer that has to be there.
abbrev pub mapped : Host → Shim → ℕ → Option Pointer
mapped host d i = map_grantor_descr host.mmap d i >>= λ p. p

unfoldable pub map_read_counter : Host → MqFlavor → Shim → Option Counter
unfolding map_grantor_descr
map_read_counter host flavor d =
    if is_synchronized flavor
    then (mapped host d read_ptr_pos >>= λ p. some (shared p))
    else if host.counter_memory
    then some own
    else none

unfoldable pub reset_counters : Bool → MqFlavor → Counter → Pointer → World → World
reset_counters reset flavor read_ptr write_ptr w =
    if reset
    then (let w' = store_counter w read_ptr 0 in record w' { words = store w'.words write_ptr 0 })
    else if not (is_synchronized flavor)
    then store_counter w read_ptr 0
    else w

-- `initMemory` from the first mapping on.
unfoldable pub map_memory :
    Host → Bool → Shim → MessageQueue → World → Option (MessageQueue × World)
unfolding map_grantor_descr map_read_counter reset_counters
map_memory host reset d q w = map_read_counter host q.flavor d >>= λ read_ptr.
    mapped host d write_ptr_pos >>= λ write_ptr.
    let w' = reset_counters reset q.flavor read_ptr write_ptr w in
    mapped host d data_ptr_pos >>= λ ring.
    let q' = record q { read_ptr = some read_ptr; write_ptr = some write_ptr; ring = some ring } in
    if ltb ev_flag_word_pos (count_grantors d)
    then (mapped host d ev_flag_word_pos >>= λ word.
        let (_, flag) =
          create_event_flag host.flag_memory (some word.address) (some q'.event_flag) in
        some (record q' { ev_flag_word = some word; event_flag = flag >>= λ f. f }, w'))
    else some (q', w')

abbrev pub all_aligned : List GrantorDescriptor → Bool
all_aligned [] = true
all_aligned (g ∷ gs) = is_aligned_to_word_boundary g.offset && all_aligned gs

unfoldable pub init_memory : Host → Bool → MessageQueue → World → Option (MessageQueue × World)
unfolding map_memory
init_memory host reset q w = elim q.desc [
  | none ↦ some (q, w)
  | some d ↦
      let memory = map_memory host reset d q w in
      if not (is_handle_valid d) || ltb (count_grantors d) min_grantor_count
      then some (q, w)
      else if not (get_quantum d == q.quantum)
      then some (q, w)
      else if not (all_aligned d.grantors)
      then none
      else memory
]

-- A queue without memory.
abbrev pub unmapped_queue : MqFlavor → ℕ → Option Shim → MessageQueue
unmapped_queue flavor quantum desc = record {
  flavor = flavor;
  quantum = quantum;
  desc = desc;
  read_ptr = none;
  write_ptr = none;
  ring = none;
  ev_flag_word = none;
  event_flag = none;
}

-- The constructor from a descriptor, of which `copied` is the copy, if there is memory for it.
unfoldable pub from_descriptor :
    Host → MqFlavor → ℕ → Option Shim → Bool → World → Option (MessageQueue × World)
unfolding init_memory
from_descriptor host flavor quantum copied reset w =
    init_memory host reset (unmapped_queue flavor quantum copied) w

-- What the destructor does: the calls of `munmap` for the grantors, whether it deletes the reader's
-- own counter, and what `deleteEventFlag` returns and the words that it unmaps, where it is called.
pub record Destroyed : Type 0 where
  pub unmapped : List (ℕ × ℕ)
  pub counter_deleted : Bool
  pub flag_deleted : Option Status
  pub flag_unmapped : List (Option ℕ)

abbrev pub unmap_pointer : Option Pointer → Option Shim → ℕ → List (ℕ × ℕ)
unmap_pointer none d i = []
unmap_pointer (some p) none i = []
unmap_pointer (some p) (some d) i = unmap_grantor_descr (some p.address) d i

abbrev pub unmap_counter : Option Counter → Option Shim → List (ℕ × ℕ)
unmap_counter (some (shared p)) d = unmap_pointer (some p) d read_ptr_pos
unmap_counter (some own) d = []
unmap_counter none d = []

unfoldable pub destroy : (Option ℕ → Returned) → MessageQueue → Destroyed
unfolding unmap_grantor_descr
destroy munmap q = record {
  counter_deleted = not (is_synchronized q.flavor) && is_some q.read_ptr;
  unmapped =
      (if is_synchronized q.flavor then unmap_counter q.read_ptr q.desc else [])
      ++ unmap_pointer q.write_ptr q.desc write_ptr_pos
      ++ unmap_pointer q.ring q.desc data_ptr_pos
      ++ unmap_pointer q.ev_flag_word q.desc ev_flag_word_pos;
  flag_deleted =
      if is_some q.ev_flag_word
      then some (delete_event_flag munmap (some q.event_flag)).0
      else none;
  flag_unmapped =
      if is_some q.ev_flag_word then (delete_event_flag munmap (some q.event_flag)).2 else [];
}
