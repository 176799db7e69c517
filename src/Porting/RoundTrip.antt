-- ===== src/Porting/RoundTrip.antt =====
-- A descriptor that `generate_string` writes is read back by `from_string`.
use android_system_libfmq.Base.{
  ℕ, ◌^◌, ◌<◌, ◌≡◌, ◌⊎◌, inl, inr, refl, Bool-cases, ◌&&◌, ◌∙◌, ap, arith, true, false, not, Option,
  none, some, List, ◌++◌, length, length-take, length-append, length-tabulate, tabulate,
}
use android_system_libfmq.Descriptor.{GrantorDescriptor}
use android_system_libfmq.Shim.{NativeHandle}
use android_system_libfmq.Convert.{CreateHandle, no_grantor}
use android_system_libfmq.Porting.Json.{
  size_key, grantors_key, quantum_key, flags_key, name_key, num_fds_key, num_ints_key, JsonApi,
  describe_grantors, count_of, describe, generate_string,
}
use android_system_libfmq.Porting.Parse.{Described, resize, parse_described, from_string}
use android_system_libfmq.Porting.JsonLaws.{JsonLaws, AllFit, Good, set-Good, clear-Good}
use android_system_libfmq.Porting.Elements.{
  parse_grantors-Elements, describe_grantors-Elements, DescribedFrom,
}
use android_system_libfmq.Porting.Statements.{run_statements}

-- A text whose grantors are an array or null is used.
accepts :
    (api : JsonApi) (create : CreateHandle) (raw : api.Value) (t : api.Text)
    (before : Described api.Text)
    → api.parse t ≡ some raw
    → api.has_members raw ≡ true
    → (not (api.is_array (api.member raw grantors_key))
        && not (api.is_null (api.member raw grantors_key)))
      ≡ false
    → from_string api create t before ≡ parse_described api create raw before
unfolding from_string
accepts api create raw t before read object e = rw (from_string, read, object, e) refl

module _ (api : JsonApi) (laws : JsonLaws api) (gs : List GrantorDescriptor)
    (handle : Option NativeHandle) (quantum flags : ℕ) (name : api.Text) (fit : AllFit gs)
    (count_fits : length gs < 2 ^ 64) (quantum_fits : quantum < 2 ^ 32) (flags_fit : flags < 2 ^ 32)
    (fds_fit : count_of api (λ h. h.num_fds) handle < 2 ^ 32)
    (ints_fit : count_of api (λ h. h.num_ints) handle < 2 ^ 32) where
  open api use {Value, Text, null, number, string, clear, set, member, size}

  abbrev num_fds : ℕ
  num_fds = count_of api (λ h. h.num_fds) handle

  abbrev num_ints : ℕ
  num_ints = count_of api (λ h. h.num_ints) handle

  abbrev looped : Value × Value
  looped = describe_grantors api 0 gs null null

  looped-DescribedFrom : DescribedFrom api laws 0 gs null looped
  looped-DescribedFrom =
      describe_grantors-Elements api laws 0 gs null null fit
        (record { object = laws.null_object; plain = laws.null_plain })
        (record {
          is_list = laws.null_array;
          plain = laws.null_plain;
          count = laws.size-null;
          accepted = inr laws.is_null-null;
        })

  abbrev w₀ : Value
  w₀ = clear looped.0

  abbrev w₁ : Value
  w₁ = set w₀ size_key (number (length gs))

  abbrev w₂ : Value
  w₂ = set w₁ grantors_key looped.1

  abbrev w₃ : Value
  w₃ = set w₂ quantum_key (number quantum)

  abbrev w₄ : Value
  w₄ = set w₃ flags_key (number flags)

  abbrev w₅ : Value
  w₅ = set w₄ num_fds_key (number num_fds)

  abbrev w₆ : Value
  w₆ = set w₅ num_ints_key (number num_ints)

  abbrev w₇ : Value
  w₇ = set w₆ name_key (string name)

  g₀ : Good api laws w₀
  g₀ = clear-Good api laws looped-DescribedFrom.0

  g₁ : Good api laws w₁
  g₁ = set-Good api laws size_key g₀ (laws.number_plain (length gs) count_fits)

  g₂ : Good api laws w₂
  g₂ = set-Good api laws grantors_key g₁ (looped-DescribedFrom.1.plain)

  g₃ : Good api laws w₃
  g₃ = set-Good api laws quantum_key g₂ (laws.number_plain quantum (omega (arith, quantum_fits)))

  g₄ : Good api laws w₄
  g₄ = set-Good api laws flags_key g₃ (laws.number_plain flags (omega (arith, flags_fit)))

  g₅ : Good api laws w₅
  g₅ = set-Good api laws num_fds_key g₄ (laws.number_plain num_fds (omega (arith, fds_fit)))

  g₆ : Good api laws w₆
  g₆ = set-Good api laws num_ints_key g₅ (laws.number_plain num_ints (omega (arith, ints_fit)))

  g₇ : Good api laws w₇
  g₇ = set-Good api laws name_key g₆ (laws.string_plain name)

  grantors_there : member w₇ grantors_key ≡ looped.1
  grantors_there =
      laws.member-set w₆ name_key grantors_key (string name) g₆.object
      ∙ laws.member-set w₅ num_ints_key grantors_key (number num_ints) g₅.object
      ∙ laws.member-set w₄ num_fds_key grantors_key (number num_fds) g₄.object
      ∙ laws.member-set w₃ flags_key grantors_key (number flags) g₃.object
      ∙ laws.member-set w₂ quantum_key grantors_key (number quantum) g₂.object
      ∙ laws.member-set w₁ grantors_key grantors_key looped.1 g₁.object

  quantum_there : member w₇ quantum_key ≡ number quantum
  quantum_there =
      laws.member-set w₆ name_key quantum_key (string name) g₆.object
      ∙ laws.member-set w₅ num_ints_key quantum_key (number num_ints) g₅.object
      ∙ laws.member-set w₄ num_fds_key quantum_key (number num_fds) g₄.object
      ∙ laws.member-set w₃ flags_key quantum_key (number flags) g₃.object
      ∙ laws.member-set w₂ quantum_key quantum_key (number quantum) g₂.object

  flags_there : member w₇ flags_key ≡ number flags
  flags_there =
      laws.member-set w₆ name_key flags_key (string name) g₆.object
      ∙ laws.member-set w₅ num_ints_key flags_key (number num_ints) g₅.object
      ∙ laws.member-set w₄ num_fds_key flags_key (number num_fds) g₄.object
      ∙ laws.member-set w₃ flags_key flags_key (number flags) g₃.object

  fds_there : member w₇ num_fds_key ≡ number num_fds
  fds_there =
      laws.member-set w₆ name_key num_fds_key (string name) g₆.object
      ∙ laws.member-set w₅ num_ints_key num_fds_key (number num_ints) g₅.object
      ∙ laws.member-set w₄ num_fds_key num_fds_key (number num_fds) g₄.object

  ints_there : member w₇ num_ints_key ≡ number num_ints
  ints_there =
      laws.member-set w₆ name_key num_ints_key (string name) g₆.object
      ∙ laws.member-set w₅ num_ints_key num_ints_key (number num_ints) g₅.object

  name_there : member w₇ name_key ≡ string name
  name_there = laws.member-set w₆ name_key name_key (string name) g₆.object

  -- What is read of the object.
  parsed :
      (create : CreateHandle) (before : Described Text)
      → parse_described api create w₇ before ≡ record {
        grantors = gs;
        handle = create num_fds num_ints;
        quantum = quantum;
        flags = flags;
        name = name;
      }
  unfolding parse_described
  parsed create before =
      rw
        (
          grantors_there,
          parse_grantors-Elements api laws looped.1 0 gs
              (resize api (size looped.1) before.grantors) looped-DescribedFrom.2 resized,
        )
        (ap (λ s. record (s.described) { handle = create s.num_fds s.num_ints })
          (run_statements api laws w₇ g₇.object (record before { grantors = gs }) quantum flags
            num_fds num_ints name quantum_there quantum_fits flags_there flags_fit fds_there fds_fit
            ints_there ints_fit name_there))
    where
      padding : List GrantorDescriptor
      padding = tabulate (size looped.1) (λ i. no_grantor)

      padded : List GrantorDescriptor
      padded = before.grantors ++ padding

      resized : length (resize api (size looped.1) before.grantors) ≡ length gs
      resized =
          length-take (size looped.1) padded (
            omega (
              arith,
              length-append before.grantors padding,
              length-tabulate (size looped.1) (λ (i : ℕ). no_grantor),
            ))
          ∙ looped-DescribedFrom.1.count
          ∙ omega arith

  listed :
      (api.is_array looped.1 ≡ true) ⊎ (api.is_null looped.1 ≡ true)
      → (not (api.is_array looped.1) && not (api.is_null looped.1)) ≡ false
  listed (inl e) = rw e refl
  listed (inr e) = elim (Bool-cases (api.is_array looped.1)) [
    | inl p ↦ rw p refl
    | inr p ↦ rw (p, e) refl
  ]

  -- If the JSON library obeys its laws: from what `generate_string` makes of grantors, a handle, a
  -- quantum, flags and a name that fit their types, `from_string` reads the same grantors,
  -- quantum, flags and name, whatever was there before, and creates a handle with as many files
  -- and integers; the words of the handle are not part of the text.
  pub generate_string-from_string :
      (create : CreateHandle) (before : Described Text)
      → from_string api create (generate_string api gs handle quantum flags name) before ≡ record {
        grantors = gs;
        handle = create num_fds num_ints;
        quantum = quantum;
        flags = flags;
        name = name;
      }
  unfolding generate_string describe
  generate_string-from_string create before =
      let (t, wrote, read) = laws.written w₇ g₇.plain in
      ap (λ z. from_string api create (elim z [ none ↦ api.no_text | some text ↦ text ]) before)
        wrote
      ∙ accepts api create w₇ t before read (laws.object_members w₇ g₇.object)
          (rw grantors_there (listed looped-DescribedFrom.1.accepted))
      ∙ parsed create before
