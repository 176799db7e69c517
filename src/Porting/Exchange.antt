-- ===== src/Porting/Exchange.antt =====
-- How a queue's descriptor gets to another process in the build with `_MSC_VER`: the shim with its
-- name and its text (include/fmq/AidlMQDescriptorShim.h), `dupeDesc` (include/fmq/AidlMessageQueue.h)
-- and the JSON of AIDL's `MQDescriptor` (generated_files, MQDescriptor.h, with both macros defined).
pub mod RoundTrip
use android_system_libfmq.Base.{
  ℕ, Bool, not, Option, none, some, List, [], map, take, drop, if◌then◌else◌, ◌>>=◌,
}
use android_system_libfmq.Descriptor.{GrantorDescriptor}
use android_system_libfmq.Shim.{NativeHandle, u32}
use android_system_libfmq.Convert.{AidlGrantor, CreateHandle, grantor_to_aidl}
use android_system_libfmq.Porting.Json.{JsonApi, generate_string}
use android_system_libfmq.Porting.Parse.{Described, from_string}

module _ (api : JsonApi) where
  open api use {Text, no_text}

  -- AIDL's `MQDescriptor`, with its name and its text.
  pub record JsonDescriptor : Type 0 where
    pub grantors : List AidlGrantor
    pub fds : List ℕ
    pub ints : List ℕ
    pub quantum : ℕ
    pub flags : ℕ
    pub name : Text
    pub json_descriptor : Text

  -- The shim has the members of `Described`.
  abbrev pub shim_text : Described Text → Text
  shim_text s = generate_string api s.grantors s.handle s.quantum s.flags s.name

  -- The overload of `from_string` for a vector and a plain pointer, whose grantors and handle start
  -- empty.
  abbrev pub from_string_anew : CreateHandle → Text → ℕ → ℕ → Text → Described Text
  from_string_anew create text quantum flags name =
      from_string api create text
        (record { grantors = []; handle = none; quantum = quantum; flags = flags; name = name })

  -- The shim's constructor from an AIDL descriptor.
  unfoldable pub shim_from_json : CreateHandle → JsonDescriptor → Described Text
  shim_from_json create desc =
      from_string_anew create desc.json_descriptor desc.quantum desc.flags no_text

  -- `none` where the handle is null, which is not tested. The handles of the files become `int`s,
  -- and as many integers are 0 as there are in the handle.
  unfoldable pub dupe_json_desc : Option (Described Text) → Option JsonDescriptor
  dupe_json_desc none = some (record {
    grantors = [];
    fds = [];
    ints = [];
    quantum = 0;
    flags = 0;
    name = no_text;
    json_descriptor = no_text;
  })
  dupe_json_desc (some s) = s.handle >>= λ h. some (record {
    grantors = map grantor_to_aidl s.grantors;
    fds = map u32 (take h.num_fds h.data_words);
    ints = map (λ _. 0) (take h.num_ints (drop h.num_fds h.data_words));
    quantum = u32 s.quantum;
    flags = u32 s.flags;
    name = no_text;
    json_descriptor = shim_text s;
  })

  -- The result is `true` whatever the text is.
  unfoldable pub from_json_descriptor : CreateHandle → Text → JsonDescriptor → JsonDescriptor
  from_json_descriptor create text desc =
      let described = from_string_anew create text 0 0 desc.name in
      record desc {
        grantors = map grantor_to_aidl described.grantors;
        name = described.name;
        json_descriptor = text;
      }

  -- `empty` is that of `std::string`.
  unfoldable pub to_json_string : (Text → Bool) → JsonDescriptor → Text
  to_json_string empty desc =
      if not (empty desc.json_descriptor) then desc.json_descriptor else no_text
