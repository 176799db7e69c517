-- ===== src/Porting/Tests.antt =====
-- The port on a small model of Win32 and of the JSON library.
use android_system_libfmq.Base.{
  ℕ, ◌+◌, ◌≡◌, ◌≢◌, refl, arith, Bool, true, false, Option, none, some, List, [], ◌∷◌, ltb, ◌==◌,
  if◌then◌else◌,
}
use android_system_libfmq.Descriptor.{GrantorDescriptor}
use android_system_libfmq.Shim.{NativeHandle}
use android_system_libfmq.Porting.{Win32, translate, has, map_fixed, system_porting_mmap}
use android_system_libfmq.Porting.Rights.{IsView, Allows, system_porting_mmap-Allows}
use android_system_libfmq.Porting.Json.{Key, same_key, JsonApi}
use android_system_libfmq.Porting.Parse.{Described}
use android_system_libfmq.Porting.JsonLaws.{JsonLaws}
use android_system_libfmq.Porting.Exchange.{
  JsonDescriptor, shim_from_json, dupe_json_desc, from_json_descriptor, to_json_string,
}
use android_system_libfmq.Porting.Exchange.RoundTrip.{
  ShimFits, arrived, dupe_json_desc-shim_from_json,
}

abbrev win32 : Win32
win32 = record {
  page_noaccess = 1;
  page_readwrite = 4;
  page_writecopy = 8;
  page_execute = 16;
  page_execute_read = 32;
  page_execute_readwrite = 64;
  file_map_read = 4;
  file_map_write = 2;
  file_map_copy = 1;
  file_map_execute = 32;
  section_query = 1;
  invalid_handle = 1000;
  create_file_mapping = λ protect size. 7;
  duplicate_handle = λ handle. handle + 1;
  map_view = λ section access offset length address. 4096 + offset;
  unmap_view = λ address. true;
}

abbrev queue_handle : ℕ
queue_handle = 5

-- A queue's mapping of a handle, for reading and writing.
system_porting_mmap-Allows_example :
    (section : ℕ) × (access : ℕ) × (has 1 map_fixed ≡ false)
    × (queue_handle ≢ 0)
    × IsView win32 0 64 8 section access 4104
    × Allows win32 3 1 access
unfolding system_porting_mmap translate
system_porting_mmap-Allows_example =
    system_porting_mmap-Allows win32 0 64 3 1 queue_handle 8 4104 refl

-- Texts are values; a value is what was assigned to it, the last first.
data Json : Type 0 where
  nothing : Json
  numeral : ℕ → Json
  quoted : Json → Json
  assigned : Json → Key → Json → Json
  listed : Json → ℕ → Json → Json

abbrev member_of : Json → Key → Json
member_of (assigned v k x) l = if same_key k l then x else member_of v l
member_of _ l = nothing

abbrev element_of : Json → ℕ → Json
element_of (listed v i x) j = if i == j then x else element_of v j
element_of _ j = nothing

abbrev size_of : Json → ℕ
size_of (listed v i x) = if ltb i (size_of v) then size_of v else i + 1
size_of _ = 0

abbrev is_listed : Json → Bool
is_listed (listed v i x) = true
is_listed _ = false

abbrev is_nothing : Json → Bool
is_nothing nothing = true
is_nothing _ = false

abbrev number_in : Json → Option ℕ
number_in (numeral n) = some n
number_in _ = none

abbrev text_in : Json → Option Json
text_in (quoted t) = some t
text_in _ = none

abbrev api : JsonApi
api = record {
  Value = Json;
  Text = Json;
  null = nothing;
  number = numeral;
  string = quoted;
  clear = λ v. nothing;
  set = assigned;
  member = member_of;
  set_element = listed;
  element = element_of;
  has_members = λ v. true;
  size = size_of;
  is_array = is_listed;
  is_null = is_nothing;
  as_uint = number_in;
  as_uint64 = number_in;
  as_string = text_in;
  write_string = λ v. some v;
  parse = λ t. some t;
  no_text = nothing;
}

longer : (v x : Json) → size_of (listed v (size_of v) x) ≡ size_of v + 1
longer v x = ground arith

laws : JsonLaws api
laws = record {
  IsObject = λ v. Unit;
  IsArray = λ v. Unit;
  IsPlain = λ v. Unit;
  null_object = tt;
  object_members = λ v o. refl;
  clear_object = λ v o. tt;
  set_object = λ v k x o. tt;
  member-set = λ v k l x o. refl;
  null_array = tt;
  set_array = λ v i x a. tt;
  element-set = λ v i j x a. refl;
  size-null = refl;
  size-set = λ v x a. longer v x;
  is_null-null = refl;
  is_array-set = λ v i x a. refl;
  uint = λ n h. refl;
  uint64 = λ n h. refl;
  text = λ s. refl;
  is_null-string = λ s. refl;
  null_plain = tt;
  number_plain = λ n h. tt;
  string_plain = λ s. tt;
  clear_plain = λ v p. tt;
  set_plain = λ v k x o p q. tt;
  element_plain = λ v i x a p q. tt;
  written = λ v p. (v, refl, refl);
}

abbrev grantors : List GrantorDescriptor
grantors =
    record { flags = 0; fd_index = 0; offset = 0; extent = 8 }
    ∷ record { flags = 0; fd_index = 1; offset = 8; extent = 64 }
    ∷ []

abbrev handle : NativeHandle
handle = record { num_fds = 2; num_ints = 1; data_words = 3 ∷ 4 ∷ 5 ∷ [] }

abbrev before : Described Json
before = record { grantors = []; handle = none; quantum = 0; flags = 0; name = nothing }

abbrev create : ℕ → ℕ → Option NativeHandle
create fds ints = some (record { num_fds = fds; num_ints = ints; data_words = [] })

abbrev shim : Described Json
shim = record {
  grantors = grantors;
  handle = some handle;
  quantum = 2;
  flags = 1;
  name = numeral 5;
}

shim-ShimFits : ShimFits api shim
shim-ShimFits = record {
  grantors_fit = omega arith;
  count_fits = omega arith;
  quantum_fits = omega arith;
  flags_fit = omega arith;
  fds_fit = omega arith;
  ints_fit = omega arith;
}

abbrev is_empty : Json → Bool
is_empty nothing = true
is_empty v = false

empty_text : (t : Json) → is_empty t ≡ true → t ≡ nothing
empty_text nothing e = refl
empty_text (numeral n) e = absurd (cc e)
empty_text (quoted v) e = absurd (cc e)
empty_text (assigned v k x) e = absurd (cc e)
empty_text (listed v i x) e = absurd (cc e)

abbrev other : JsonDescriptor api
other = record {
  grantors = [];
  fds = [];
  ints = [];
  quantum = 7;
  flags = 0;
  name = nothing;
  json_descriptor = nothing;
}

dupe_json_desc-shim_from_json_example :
    (d : JsonDescriptor api) × (dupe_json_desc api (some shim) ≡ some d)
    × (shim_from_json api create d ≡ arrived api laws shim shim-ShimFits create)
    × (let e = from_json_descriptor api create (to_json_string api is_empty d) other in
        (e.grantors ≡ d.grantors)
        × (e.name ≡ numeral 5)
        × (e.quantum ≡ 7)
        × (shim_from_json api create e ≡ arrived api laws shim shim-ShimFits create))
dupe_json_desc-shim_from_json_example =
    dupe_json_desc-shim_from_json api laws shim shim-ShimFits create handle is_empty other refl
      empty_text
