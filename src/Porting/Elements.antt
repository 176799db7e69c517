-- ===== src/Porting/Elements.antt =====
-- The grantors of a descriptor, as the elements of an array.
use android_system_libfmq.Base.{
  ℕ, suc, ◌+◌, ◌<◌, ◌≡◌, ◌⊎◌, inl, refl, ◌∙◌, ap, arith, true, false, some, List, [], ◌∷◌, length,
  ◌==◌,
}
use android_system_libfmq.Descriptor.{GrantorDescriptor}
use android_system_libfmq.Porting.Json.{
  Key, element_flags_key, element_fd_index_key, element_offset_key, element_extent_key, JsonApi,
  describe_grantor, describe_grantors,
}
use android_system_libfmq.Porting.Parse.{parse_grantor, parse_members, parse_grantors}
use android_system_libfmq.Porting.JsonLaws.{JsonLaws, Fits, AllFit, Good, set-Good, clear-Good}

module _ (api : JsonApi) (laws : JsonLaws api) where
  open api use {Value, Text, null, number, string, clear, set, member, element, set_element, size}

  module _ (v : Value) (g : GrantorDescriptor) (f : Fits g) (good : Good api laws v) where
    abbrev v₀ : Value
    v₀ = clear v

    abbrev v₁ : Value
    v₁ = set v₀ element_flags_key (number g.flags)

    abbrev v₂ : Value
    v₂ = set v₁ element_fd_index_key (number g.fd_index)

    abbrev v₃ : Value
    v₃ = set v₂ element_offset_key (number g.offset)

    good₀ : Good api laws v₀
    good₀ = clear-Good api laws good

    good₁ : Good api laws v₁
    good₁ = set-Good api laws element_flags_key good₀ (laws.number_plain g.flags (omega (arith, f)))

    good₂ : Good api laws v₂
    good₂ =
        set-Good api laws element_fd_index_key good₁
          (laws.number_plain g.fd_index (omega (arith, f)))

    good₃ : Good api laws v₃
    good₃ =
        set-Good api laws element_offset_key good₂ (laws.number_plain g.offset (omega (arith, f)))

    describe_grantor-Good : Good api laws (describe_grantor api v g)
    describe_grantor-Good =
        set-Good api laws element_extent_key good₃ (laws.number_plain g.extent f.extent_fits)

    abbrev behind : (k : Key) → Value
    behind k = member (describe_grantor api v g) k

    extent_is : api.as_uint64 (behind element_extent_key) ≡ some g.extent
    extent_is =
        ap api.as_uint64
          (laws.member-set v₃ element_extent_key element_extent_key (number g.extent) good₃.object)
        ∙ laws.uint64 g.extent f.extent_fits

    offset_is : api.as_uint (behind element_offset_key) ≡ some g.offset
    offset_is =
        ap api.as_uint (
          laws.member-set v₃ element_extent_key element_offset_key (number g.extent) good₃.object
          ∙ laws.member-set v₂ element_offset_key element_offset_key (number g.offset) good₂.object)
        ∙ laws.uint g.offset f.offset_fits

    fd_index_is : api.as_uint (behind element_fd_index_key) ≡ some g.fd_index
    fd_index_is =
        ap api.as_uint (
          laws.member-set v₃ element_extent_key element_fd_index_key (number g.extent) good₃.object
          ∙ laws.member-set v₂ element_offset_key element_fd_index_key (number g.offset)
              good₂.object
          ∙ laws.member-set v₁ element_fd_index_key element_fd_index_key (number g.fd_index)
              good₁.object)
        ∙ laws.uint g.fd_index f.fd_index_fits

    flags_is : api.as_uint (behind element_flags_key) ≡ some g.flags
    flags_is =
        ap api.as_uint (
          laws.member-set v₃ element_extent_key element_flags_key (number g.extent) good₃.object
          ∙ laws.member-set v₂ element_offset_key element_flags_key (number g.offset) good₂.object
          ∙ laws.member-set v₁ element_fd_index_key element_flags_key (number g.fd_index)
              good₁.object
          ∙ laws.member-set v₀ element_flags_key element_flags_key (number g.flags) good₀.object)
        ∙ laws.uint g.flags f.flags_fit

    -- A grantor is read back.
    parse_grantor-describe :
        (old : GrantorDescriptor) → parse_grantor api (describe_grantor api v g) old ≡ (g, true)
    unfolding parse_grantor parse_members
    parse_grantor-describe old =
        rw
          (
            parse_grantor,
            laws.object_members (describe_grantor api v g) describe_grantor-Good.object,
            parse_members,
            extent_is,
            fd_index_is,
            offset_is,
            flags_is,
          )
          refl

  -- The elements of an array from an index on are read as these grantors.
  abbrev pub Elements : Value → ℕ → List GrantorDescriptor → Type 0
  Elements array i [] = Unit
  Elements array i (g ∷ gs) =
      ((old : GrantorDescriptor) → parse_grantor api (element array i) old ≡ (g, true))
      × Elements array (i + 1) gs

  pub record GoodArray (array : Value) (n : ℕ) : Type 0 where
    pub is_list : laws.IsArray array
    pub plain : laws.IsPlain array
    pub count : api.size array ≡ n
    pub accepted : (api.is_array array ≡ true) ⊎ (api.is_null array ≡ true)

  set_element-GoodArray :
      (array x : Value) (i : ℕ)
      → GoodArray array i
      → laws.IsPlain x
      → GoodArray (set_element array i x) (i + 1)
  set_element-GoodArray array x i list p = record {
    is_list = laws.set_array array i x list.is_list;
    plain = laws.element_plain array i x list.is_list list.plain p;
    count = rw list.count at (laws.size-set array x list.is_list);
    accepted = inl (laws.is_array-set array i x list.is_list);
  }

  element-new :
      (array x : Value) (i : ℕ) → GoodArray array i → element (set_element array i x) i ≡ x
  element-new array x i list =
      let same : (i == i) ≡ true = ground arith in
      laws.element-set array i i x list.is_list ∙ rw same refl

  element-old :
      (array x : Value) (i j : ℕ)
      → GoodArray array i
      → j < i
      → element (set_element array i x) j ≡ element array j
  element-old array x i j list h =
      let other : (i == j) ≡ false = ground arith in
      laws.element-set array i j x list.is_list ∙ rw other refl

  pub parse_grantors-Elements :
      (array : Value) (i : ℕ) (gs olds : List GrantorDescriptor)
      → Elements array i gs
      → length olds ≡ length gs
      → parse_grantors api array i olds ≡ (gs, true)
  unfolding parse_grantors
  parse_grantors-Elements array i [] [] e h = refl
  parse_grantors-Elements array i [] (old ∷ olds) e h = absurd (omega (arith, h))
  parse_grantors-Elements array i (g ∷ gs) [] e h = absurd (omega (arith, h))
  parse_grantors-Elements array i (g ∷ gs) (old ∷ olds) (first, rest) h =
      rw (first old, parse_grantors-Elements array (i + 1) gs olds rest (omega (arith, h))) refl

  abbrev pub DescribedFrom : ℕ → List GrantorDescriptor → Value → Value × Value → Type 0
  DescribedFrom i gs array (value', array') =
      Good api laws value'
      × GoodArray array' (i + length gs)
      × Elements array' i gs
      × ((j : ℕ) → j < i → element array' j ≡ element array j)

  pub describe_grantors-Elements :
      (i : ℕ) (gs : List GrantorDescriptor) (value array : Value)
      → AllFit gs
      → Good api laws value
      → GoodArray array i
      → DescribedFrom i gs array (describe_grantors api i gs value array)
  unfolding describe_grantors
  describe_grantors-Elements i [] value array f good list =
      let same : i + 0 ≡ i = omega arith in (good, rw same list, tt, λ j h. refl)
  describe_grantors-Elements i (g ∷ gs) value array f good list =
      let value' = describe_grantor api value g in
      let (good', list', rest, kept) =
        describe_grantors-Elements (i + 1) gs value' (set_element array i value') f.1
          (describe_grantor-Good value g f.0 good)
          (set_element-GoodArray array value' i list
            (describe_grantor-Good value g f.0 good).plain) in
      let same : i + suc (length gs) ≡ i + 1 + length gs = omega arith in
      (
        good',
        rw same list',
        (
          λ old.
              ap (λ t. parse_grantor api t old)
                (kept i (omega arith) ∙ element-new array value' i list)
              ∙ parse_grantor-describe value g f.0 good old,
          rest,
        ),
        λ j h. kept j (omega arith) ∙ element-old array value' i j list h,
      )
