-- ===== src/Convert.antt =====
-- The descriptors of AIDL and HIDL and the shim: the shim's constructor from an AIDL descriptor and
-- its `operator=` (include/fmq/AidlMQDescriptorShim.h), `dupeDesc` (include/fmq/AidlMessageQueue.h)
-- and `unsafeHidlToAidlMQDescriptor` (include/fmq/ConvertMQDescriptors.h), in the build without
-- `_MSC_VER`. A signed number is its two's complement pattern. `dup` and libcutils'
-- `native_handle_create` are parameters; a handle that is made has room for what it is asked for.
-- `none` as a result stands for undefined behaviour: a null handle is read.
pub mod RoundTrip
pub mod Peer
mod Tests
use android_system_libfmq.Base.{
  ℕ, ◌+◌, ◌%◌, ◌^◌, Bool, true, false, not, ◌||◌, Option, none, some, List, [], ◌∷◌, ◌++◌, map, leb,
  ◌==◌, if◌then◌else◌, ◌>>=◌, take, drop, length,
}
use android_system_libfmq.Flavor.{MqFlavor, flavor_value}
use android_system_libfmq.Descriptor.{GrantorDescriptor}
use android_system_libfmq.Shim.{NativeHandle, Shim, u32}

-- AIDL's `GrantorDescriptor`, with an `int`, an `int` and a `long`.
pub record AidlGrantor : Type 0 where
  pub fd_index : ℕ
  pub offset : ℕ
  pub extent : ℕ

-- AIDL's `MQDescriptor`, with the files and the integers of its handle.
pub record AidlDescriptor : Type 0 where
  pub grantors : List AidlGrantor
  pub fds : List ℕ
  pub ints : List ℕ
  pub quantum : ℕ
  pub flags : ℕ

abbrev pub no_descriptor : AidlDescriptor
no_descriptor = record { grantors = []; fds = []; ints = []; quantum = 0; flags = 0 }

abbrev pub negative32 : ℕ → Bool
negative32 n = leb (2 ^ 31) n

abbrev pub negative64 : ℕ → Bool
negative64 n = leb (2 ^ 63) n

-- `native_handle_create` with the numbers of files and of integers.
abbrev pub CreateHandle : Type 0
CreateHandle = ℕ → ℕ → Option NativeHandle

abbrev pub no_grantor : GrantorDescriptor
no_grantor = record { flags = 0; fd_index = 0; offset = 0; extent = 0 }

abbrev pub grantor_from_aidl : AidlGrantor → GrantorDescriptor
grantor_from_aidl g = record {
  flags = 0;
  fd_index = g.fd_index;
  offset = g.offset;
  extent = g.extent;
}

-- The loop over the grantors of an AIDL descriptor, and whether it goes to the end. From a negative
-- number on, the grantors stay as `resize` made them.
unfoldable pub grantors_from_aidl : List AidlGrantor → List GrantorDescriptor × Bool
grantors_from_aidl [] = ([], true)
grantors_from_aidl (g ∷ gs) =
    let (rest, whole) = grantors_from_aidl gs in
    if negative32 g.offset || negative64 g.extent || negative32 g.fd_index
    then (no_grantor ∷ map (λ _. no_grantor) gs, false)
    else (grantor_from_aidl g ∷ rest, whole)

unfoldable pub from_aidl : CreateHandle → (ℕ → ℕ) → AidlDescriptor → Shim
unfolding grantors_from_aidl
from_aidl create dup desc =
    let shim : List GrantorDescriptor → Option NativeHandle → Shim = λ grantors handle. record {
      grantors = grantors;
      handle = handle;
      quantum = desc.quantum;
      flags = desc.flags;
    } in
    let (grantors, whole) = grantors_from_aidl desc.grantors in
    if negative32 desc.quantum || negative32 desc.flags
    then shim [] none
    else if not whole
    then shim grantors none
    else elim (create (length desc.fds) (length desc.ints)) [
      | none ↦ shim grantors none
      | some handle ↦
          shim grantors (some (record handle { data_words = map dup desc.fds ++ desc.ints }))
    ]

-- The copy constructor, which assigns to a shim without a handle. The new handle is not compared
-- with null.
unfoldable pub assign : CreateHandle → (ℕ → ℕ) → Shim → Option Shim
assign create dup other = elim other.handle [
  | none ↦ some other
  | some h ↦ create h.num_fds h.num_ints >>= λ handle.
      let words =
        map dup (take h.num_fds h.data_words) ++ take h.num_ints (drop h.num_fds h.data_words) in
      some (record other { handle = some (record handle { data_words = words }) })
]

abbrev pub grantor_to_aidl : GrantorDescriptor → AidlGrantor
grantor_to_aidl g = record { fd_index = u32 g.fd_index; offset = u32 g.offset; extent = g.extent }

unfoldable pub dupe_desc : (ℕ → ℕ) → Option Shim → Option AidlDescriptor
dupe_desc dup none = some no_descriptor
dupe_desc dup (some s) = s.handle >>= λ h. some (record {
  grantors = map grantor_to_aidl s.grantors;
  fds = map dup (take h.num_fds h.data_words);
  ints = take h.num_ints (drop h.num_fds h.data_words);
  quantum = u32 s.quantum;
  flags = u32 s.flags;
})

-- HIDL's `MQDescriptor`, by what its accessors give.
pub record HidlDescriptor : Type 0 where
  pub grantors : List GrantorDescriptor
  pub handle : Option NativeHandle
  pub quantum : ℕ
  pub flags : ℕ

-- The grantors that are pushed to the AIDL descriptor, and whether the loop goes to the end. The
-- index of the file becomes an `int64_t` in the test, and an `int32_t` afterwards.
unfoldable pub push_grantors : List GrantorDescriptor → List AidlGrantor × Bool
push_grantors [] = ([], true)
push_grantors (g ∷ gs) =
    let (rest, whole) = push_grantors gs in
    if negative32 (u32 g.offset) || negative64 g.extent || negative64 g.fd_index
    then ([], false)
    else (grantor_to_aidl g ∷ rest, whole)

-- The result, and the AIDL descriptor after it.
unfoldable pub hidl_to_aidl :
    MqFlavor → (ℕ → ℕ) → HidlDescriptor → AidlDescriptor → Option (Bool × AidlDescriptor)
unfolding push_grantors flavor_value
hidl_to_aidl flavor dup hidl aidl =
    let (pushed, whole) = push_grantors hidl.grantors in
    if not (length aidl.grantors == 0)
    then some (false, aidl)
    else if not whole
    then some (false, record aidl { grantors = pushed })
    else (hidl.handle >>= λ h.
        let filled : AidlDescriptor = record aidl {
          grantors = pushed;
          fds = map dup (take h.num_fds h.data_words);
          ints = take h.num_ints (drop h.num_fds h.data_words);
        } in
        if negative32 (u32 hidl.quantum) || negative32 (u32 hidl.flags)
        then some (false, filled)
        else if not (hidl.flags == flavor_value flavor)
        then some (false, filled)
        else some (true, record filled { quantum = u32 hidl.quantum; flags = u32 hidl.flags }))
