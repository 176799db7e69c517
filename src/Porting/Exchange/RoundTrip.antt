-- ===== src/Porting/Exchange/RoundTrip.antt =====
-- What arrives in the other process in the build with `_MSC_VER`.
use android_system_libfmq.Base.{
  ℕ, ◌^◌, ◌<◌, ◌≡◌, refl, ap, sym, ◌∙◌, Bool, true, some, map, length, Bool-cases, inl, inr, take,
  drop,
}
use android_system_libfmq.Shim.{NativeHandle, u32}
use android_system_libfmq.Convert.{CreateHandle, grantor_to_aidl}
use android_system_libfmq.Porting.Json.{JsonApi, count_of}
use android_system_libfmq.Porting.Parse.{Described}
use android_system_libfmq.Porting.JsonLaws.{JsonLaws, AllFit}
use android_system_libfmq.Porting.RoundTrip.{generate_string-from_string}
use android_system_libfmq.Porting.Exchange.{
  JsonDescriptor, shim_text, from_string_anew, shim_from_json, dupe_json_desc, from_json_descriptor,
  to_json_string,
}

-- A shim whose members fit their types.
pub record ShimFits (api : JsonApi) (s : Described api.Text) : Type 0 where
  pub grantors_fit : AllFit s.grantors
  pub count_fits : length s.grantors < 2 ^ 64
  pub quantum_fits : s.quantum < 2 ^ 32
  pub flags_fit : s.flags < 2 ^ 32
  pub fds_fit : count_of api (λ h. h.num_fds) s.handle < 2 ^ 32
  pub ints_fit : count_of api (λ h. h.num_ints) s.handle < 2 ^ 32

module _ (api : JsonApi) (laws : JsonLaws api) (s : Described api.Text) (fits : ShimFits api s)
    (create : CreateHandle) where
  -- The shim in the other process.
  abbrev pub arrived : Described api.Text
  arrived = record s {
    handle =
        create (count_of api (λ h. h.num_fds) s.handle) (count_of api (λ h. h.num_ints) s.handle);
  }

  text_arrives :
      (quantum flags : ℕ) (name : api.Text)
      → from_string_anew api create (shim_text api s) quantum flags name ≡ arrived
  text_arrives quantum flags name =
      generate_string-from_string api laws s.grantors s.handle s.quantum s.flags s.name
        fits.grantors_fit fits.count_fits fits.quantum_fits fits.flags_fit fits.fds_fit
        fits.ints_fit create _

  made_from_text :
      (d : JsonDescriptor api)
      → d.json_descriptor ≡ shim_text api s
      → shim_from_json api create d ≡ arrived
  unfolding shim_from_json
  made_from_text d e =
      ap (λ t. from_string_anew api create t d.quantum d.flags api.no_text) e
      ∙ text_arrives d.quantum d.flags api.no_text

  text_kept :
      (empty : api.Text → Bool) (d : JsonDescriptor api)
      → ((t : api.Text) → empty t ≡ true → t ≡ api.no_text)
      → to_json_string api empty d ≡ d.json_descriptor
  unfolding to_json_string
  text_kept empty d empty_text = elim (Bool-cases (empty d.json_descriptor)) [
    | inl p ↦ rw p (sym (empty_text d.json_descriptor p))
    | inr p ↦ rw p refl
  ]

  abbrev sent : NativeHandle → JsonDescriptor api
  sent h = record {
    grantors = map grantor_to_aidl s.grantors;
    fds = map u32 (take h.num_fds h.data_words);
    ints = map (λ _. 0) (take h.num_ints (drop h.num_fds h.data_words));
    quantum = u32 s.quantum;
    flags = u32 s.flags;
    name = api.no_text;
    json_descriptor = shim_text api s;
  }

  -- If the JSON library obeys its laws and only the empty string is empty: `dupeDesc`, with
  -- `_MSC_VER`, of a queue whose shim has a handle and members that fit their types gives a
  -- descriptor from which the constructor in another process makes a shim with the same grantors,
  -- quantum, flags and name, and with a handle for as many files and integers. When the text of
  -- that descriptor is put into any other one by `from_json_descriptor`, that has the same
  -- grantors and the name of the queue, keeps its quantum, and the constructor makes the same shim
  -- of it.
  pub dupe_json_desc-shim_from_json :
      (h : NativeHandle) (empty : api.Text → Bool) (other : JsonDescriptor api)
      → s.handle ≡ some h
      → ((t : api.Text) → empty t ≡ true → t ≡ api.no_text)
      → (d : JsonDescriptor api) × (dupe_json_desc api (some s) ≡ some d)
        × (shim_from_json api create d ≡ arrived)
        × (let e = from_json_descriptor api create (to_json_string api empty d) other in
            (e.grantors ≡ d.grantors)
            × (e.name ≡ s.name)
            × (e.quantum ≡ other.quantum)
            × (shim_from_json api create e ≡ arrived))
  unfolding dupe_json_desc from_json_descriptor
  dupe_json_desc-shim_from_json h empty other there empty_text =
      let kept : to_json_string api empty (sent h) ≡ shim_text api s =
        text_kept empty (sent h) empty_text in
      let described : from_string_anew api create (to_json_string api empty (sent h)) 0 0 other.name
          ≡ arrived =
        ap (λ t. from_string_anew api create t 0 0 other.name) kept ∙ text_arrives 0 0 other.name in
      (
        sent h,
        rw there refl,
        made_from_text (sent h) refl,
        (
          ap (λ z. map grantor_to_aidl z.grantors) described,
          ap (λ z. z.name) described,
          refl,
          made_from_text (from_json_descriptor api create (to_json_string api empty (sent h)) other)
              kept,
        ),
      )
