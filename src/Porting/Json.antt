-- ===== src/Porting/Json.antt =====
-- `generate_string` of system_porting.cpp: a queue's descriptor as JSON text. The JSON library is a
-- parameter; `none` as the result of a conversion is an exception, which the code catches.
use android_system_libfmq.Base.{ℕ, ◌+◌, Bool, Option, none, some, List, [], ◌∷◌, length, ◌==◌}
use android_system_libfmq.Descriptor.{GrantorDescriptor}
use android_system_libfmq.Shim.{NativeHandle}

-- The keys of the text.
pub data Key : Type 0 where
  element_flags_key : Key
  element_fd_index_key : Key
  element_offset_key : Key
  element_extent_key : Key
  size_key : Key
  grantors_key : Key
  quantum_key : Key
  flags_key : Key
  name_key : Key
  num_fds_key : Key
  num_ints_key : Key

abbrev pub key_number : Key → ℕ
key_number element_flags_key = 0
key_number element_fd_index_key = 1
key_number element_offset_key = 2
key_number element_extent_key = 3
key_number size_key = 4
key_number grantors_key = 5
key_number quantum_key = 6
key_number flags_key = 7
key_number name_key = 8
key_number num_fds_key = 9
key_number num_ints_key = 10

abbrev pub same_key : Key → Key → Bool
same_key k l = key_number k == key_number l

-- `Json::Value`, `Json::writeString` and `Json::Reader::parse`.
pub record JsonApi : Type 1 where
  pub Value : Type 0
  pub Text : Type 0
  pub null : Value
  pub number : ℕ → Value
  pub string : Text → Value
  pub clear : Value → Value
  -- `value[key] = v`, `value[key]`, which is null where there is none, `value[i] = v`, `value[i]`
  pub set : Value → Key → Value → Value
  pub member : Value → Key → Value
  pub set_element : Value → ℕ → Value → Value
  pub element : Value → ℕ → Value
  -- Whether `value[key]` is allowed: for an object and for null, and otherwise it throws.
  pub has_members : Value → Bool
  pub size : Value → ℕ
  pub is_array : Value → Bool
  pub is_null : Value → Bool
  pub as_uint : Value → Option ℕ
  pub as_uint64 : Value → Option ℕ
  pub as_string : Value → Option Text
  pub write_string : Value → Option Text
  pub parse : Text → Option Value
  pub no_text : Text

module _ (api : JsonApi) where
  open api use {
    Value, Text, null, number, string, clear, set, member, set_element, element, size, has_members,
    is_array, is_null, as_uint, as_uint64, as_string, write_string, parse, no_text,
  }

  abbrev pub describe_grantor : Value → GrantorDescriptor → Value
  describe_grantor value g =
      let v₁ = set (clear value) element_flags_key (number g.flags) in
      let v₂ = set v₁ element_fd_index_key (number g.fd_index) in
      let v₃ = set v₂ element_offset_key (number g.offset) in
      set v₃ element_extent_key (number g.extent)

  -- The loop over the grantors from index `i`: `value` and `array_value`.
  unfoldable pub describe_grantors : ℕ → List GrantorDescriptor → Value → Value → Value × Value
  describe_grantors i [] value array = (value, array)
  describe_grantors i (g ∷ gs) value array =
      let value' = describe_grantor value g in
      describe_grantors (i + 1) gs value' (set_element array i value')

  abbrev pub count_of : (NativeHandle → ℕ) → Option NativeHandle → ℕ
  count_of count none = 0
  count_of count (some h) = count h

  unfoldable pub describe : List GrantorDescriptor → Option NativeHandle → ℕ → ℕ → Text → Value
  unfolding describe_grantors
  describe grantors handle quantum flags name =
      let (value, array) = describe_grantors 0 grantors null null in
      let v₁ = set (clear value) size_key (number (length grantors)) in
      let v₂ = set v₁ grantors_key array in
      let v₃ = set v₂ quantum_key (number quantum) in
      let v₄ = set v₃ flags_key (number flags) in
      let v₅ = set v₄ num_fds_key (number (count_of (λ h. h.num_fds) handle)) in
      let v₆ = set v₅ num_ints_key (number (count_of (λ h. h.num_ints) handle)) in
      set v₆ name_key (string name)

  unfoldable pub generate_string :
      List GrantorDescriptor → Option NativeHandle → ℕ → ℕ → Text → Text
  unfolding describe
  generate_string grantors handle quantum flags name =
      elim (write_string (describe grantors handle quantum flags name)) [
        | none ↦ no_text
        | some text ↦ text
      ]
