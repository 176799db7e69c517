-- ===== src/Porting/Statements.antt =====
-- The statements of `from_string` behind its loop.
use android_system_libfmq.Base.{
  ℕ, ◌^◌, ◌<◌, ◌≡◌, refl, ◌∙◌, ap, false, Option, none, some, List, [], ◌∷◌,
}
use android_system_libfmq.Porting.Json.{
  Key, grantors_key, quantum_key, flags_key, name_key, num_fds_key, num_ints_key, same_key, JsonApi,
}
use android_system_libfmq.Porting.JsonLaws.{JsonLaws}
use android_system_libfmq.Porting.Parse.{
  Described, statements, Locals, fetch, value_of, fetch_uint, fetch_name, rename, run_all,
  use_quantum, use_flags, use_fds, use_ints,
}

module _ (api : JsonApi) (laws : JsonLaws api) where
  open api use {Value, Text, null, number, string, clear, set, member, size}

  -- What is assigned to `value` is read from it, and the other members stay.
  value-fetch :
      (k : Key) (s : Locals api)
      → laws.IsObject s.raw
      → value_of api (fetch api k s) ≡ member s.raw k
  value-fetch k s o = laws.member-set s.raw grantors_key grantors_key (member s.raw k) o

  member-fetch :
      (k l : Key) (s : Locals api)
      → laws.IsObject s.raw
      → same_key grantors_key l ≡ false
      → member (fetch api k s).raw l ≡ member s.raw l
  member-fetch k l s o other =
      laws.member-set s.raw grantors_key l (member s.raw k) o ∙ rw other refl

  fetch_uint-number :
      (k : Key) (use_number : ℕ → Locals api → Locals api) (s : Locals api) (n : ℕ)
      → laws.IsObject s.raw
      → member s.raw k ≡ number n
      → n < 2 ^ 32
      → fetch_uint api k use_number s ≡ some (use_number n (fetch api k s))
  fetch_uint-number k use_number s n o e h =
      let read : api.as_uint (value_of api (fetch api k s)) ≡ some n =
        ap api.as_uint (value-fetch k s o ∙ e) ∙ laws.uint n h in
      rw read refl

  fetch_name-string :
      (s : Locals api) (name : Text)
      → laws.IsObject s.raw
      → member s.raw name_key ≡ string name
      → fetch_name api s ≡ some (rename api name (fetch api name_key s))
  fetch_name-string s name o e =
      let there : value_of api (fetch api name_key s) ≡ string name =
        value-fetch name_key s o ∙ e in
      rw (there, laws.is_null-string name, laws.text name) refl

  run_step :
      (f : Locals api → Option (Locals api)) (fs : List (Locals api → Option (Locals api)))
      (s s' : Locals api)
      → f s ≡ some s'
      → run_all api (f ∷ fs) s ≡ run_all api fs s'
  run_step f fs s s' e = ap (λ t. elim t [ none ↦ s | some z ↦ run_all api fs z ]) e

  -- The statements on an object with these members.
  module _ (raw : Value) (object : laws.IsObject raw) (before : Described Text)
      (quantum flags num_fds num_ints : ℕ) (name : Text)
      (quantum_there : member raw quantum_key ≡ number quantum) (quantum_fits : quantum < 2 ^ 32)
      (flags_there : member raw flags_key ≡ number flags) (flags_fit : flags < 2 ^ 32)
      (fds_there : member raw num_fds_key ≡ number num_fds) (fds_fit : num_fds < 2 ^ 32)
      (ints_there : member raw num_ints_key ≡ number num_ints) (ints_fit : num_ints < 2 ^ 32)
      (name_there : member raw name_key ≡ string name) where
    abbrev s₀ : Locals api
    s₀ = record { raw = raw; described = before; num_fds = 0; num_ints = 0 }

    abbrev s₁ : Locals api
    s₁ = use_quantum api quantum (fetch api quantum_key s₀)

    abbrev s₂ : Locals api
    s₂ = use_flags api flags (fetch api flags_key s₁)

    abbrev s₃ : Locals api
    s₃ = use_fds api num_fds (fetch api num_fds_key s₂)

    abbrev s₄ : Locals api
    s₄ = use_ints api num_ints (fetch api num_ints_key s₃)

    abbrev s₅ : Locals api
    s₅ = rename api name (fetch api name_key s₄)

    kept_object :
        (k : Key) (s : Locals api) → laws.IsObject s.raw → laws.IsObject (fetch api k s).raw
    kept_object k s o = laws.set_object s.raw grantors_key (member s.raw k) o

    o₁ : laws.IsObject s₁.raw
    o₁ = kept_object quantum_key s₀ object

    o₂ : laws.IsObject s₂.raw
    o₂ = kept_object flags_key s₁ o₁

    o₃ : laws.IsObject s₃.raw
    o₃ = kept_object num_fds_key s₂ o₂

    o₄ : laws.IsObject s₄.raw
    o₄ = kept_object num_ints_key s₃ o₃

    abbrev f₂ : Locals api → Option (Locals api)
    f₂ = fetch_uint api flags_key (use_flags api)

    abbrev f₃ : Locals api → Option (Locals api)
    f₃ = fetch_uint api num_fds_key (use_fds api)

    abbrev f₄ : Locals api → Option (Locals api)
    f₄ = fetch_uint api num_ints_key (use_ints api)

    flags_fetched : f₂ s₁ ≡ some s₂
    flags_fetched =
        fetch_uint-number flags_key (use_flags api) s₁ flags o₁
          (member-fetch quantum_key flags_key s₀ object refl ∙ flags_there) flags_fit

    fds_fetched : f₃ s₂ ≡ some s₃
    fds_fetched =
        fetch_uint-number num_fds_key (use_fds api) s₂ num_fds o₂
          (member-fetch flags_key num_fds_key s₁ o₁ refl
            ∙ member-fetch quantum_key num_fds_key s₀ object refl
            ∙ fds_there)
          fds_fit

    ints_fetched : f₄ s₃ ≡ some s₄
    ints_fetched =
        fetch_uint-number num_ints_key (use_ints api) s₃ num_ints o₃
          (member-fetch num_fds_key num_ints_key s₂ o₂ refl
            ∙ member-fetch flags_key num_ints_key s₁ o₁ refl
            ∙ member-fetch quantum_key num_ints_key s₀ object refl
            ∙ ints_there)
          ints_fit

    name_fetched : fetch_name api s₄ ≡ some s₅
    name_fetched = fetch_name-string s₄ name o₄ (
        member-fetch num_ints_key name_key s₃ o₃ refl
        ∙ member-fetch num_fds_key name_key s₂ o₂ refl
        ∙ member-fetch flags_key name_key s₁ o₁ refl
        ∙ member-fetch quantum_key name_key s₀ object refl
        ∙ name_there)

    pub run_statements : run_all api (statements api) s₀ ≡ s₅
    run_statements =
        run_step (fetch_uint api quantum_key (use_quantum api)) (f₂ ∷ f₃ ∷ f₄ ∷ fetch_name api ∷ [])
          s₀ s₁
          (fetch_uint-number quantum_key (use_quantum api) s₀ quantum object quantum_there
            quantum_fits)
        ∙ run_step f₂ (f₃ ∷ f₄ ∷ fetch_name api ∷ []) s₁ s₂ flags_fetched
        ∙ run_step f₃ (f₄ ∷ fetch_name api ∷ []) s₂ s₃ fds_fetched
        ∙ run_step f₄ (fetch_name api ∷ []) s₃ s₄ ints_fetched
        ∙ run_step (fetch_name api) [] s₄ s₅ name_fetched
