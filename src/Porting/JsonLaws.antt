-- ===== src/Porting/JsonLaws.antt =====
-- What is asked of the JSON library.
use android_system_libfmq.Base.{
  ℕ, ◌+◌, ◌^◌, ◌<◌, ◌≡◌, true, false, some, List, [], ◌∷◌, ◌==◌, if◌then◌else◌,
}
use android_system_libfmq.Descriptor.{GrantorDescriptor}
use android_system_libfmq.Porting.Json.{Key, same_key, JsonApi}

-- How values behave: null can become an object or an array. Plain values, those of null, numbers
-- of 64 bits and strings, are read as they are written.
pub record JsonLaws (api : JsonApi) : Type 1 where
  pub IsObject : api.Value → Type 0
  pub IsArray : api.Value → Type 0
  pub IsPlain : api.Value → Type 0
  pub null_object : IsObject api.null
  pub object_members : (v : api.Value) → IsObject v → api.has_members v ≡ true
  pub clear_object : (v : api.Value) → IsObject v → IsObject (api.clear v)
  pub set_object : (v : api.Value) (k : Key) (x : api.Value) → IsObject v → IsObject (api.set v k x)
  pub member-set :
      (v : api.Value) (k l : Key) (x : api.Value)
      → IsObject v
      → api.member (api.set v k x) l ≡ (if same_key k l then x else api.member v l)
  pub null_array : IsArray api.null
  pub set_array :
      (v : api.Value) (i : ℕ) (x : api.Value) → IsArray v → IsArray (api.set_element v i x)
  pub element-set :
      (v : api.Value) (i j : ℕ) (x : api.Value)
      → IsArray v
      → api.element (api.set_element v i x) j ≡ (if i == j then x else api.element v j)
  pub size-null : api.size api.null ≡ 0
  pub size-set :
      (v : api.Value) (x : api.Value)
      → IsArray v
      → api.size (api.set_element v (api.size v) x) ≡ api.size v + 1
  pub is_null-null : api.is_null api.null ≡ true
  pub is_array-set :
      (v : api.Value) (i : ℕ) (x : api.Value)
      → IsArray v
      → api.is_array (api.set_element v i x) ≡ true
  pub uint : (n : ℕ) → n < 2 ^ 32 → api.as_uint (api.number n) ≡ some n
  pub uint64 : (n : ℕ) → n < 2 ^ 64 → api.as_uint64 (api.number n) ≡ some n
  pub text : (s : api.Text) → api.as_string (api.string s) ≡ some s
  pub is_null-string : (s : api.Text) → api.is_null (api.string s) ≡ false
  pub null_plain : IsPlain api.null
  pub number_plain : (n : ℕ) → n < 2 ^ 64 → IsPlain (api.number n)
  pub string_plain : (s : api.Text) → IsPlain (api.string s)
  pub clear_plain : (v : api.Value) → IsPlain v → IsPlain (api.clear v)
  pub set_plain :
      (v : api.Value) (k : Key) (x : api.Value)
      → IsObject v
      → IsPlain v
      → IsPlain x
      → IsPlain (api.set v k x)
  pub element_plain :
      (v : api.Value) (i : ℕ) (x : api.Value)
      → IsArray v
      → IsPlain v
      → IsPlain x
      → IsPlain (api.set_element v i x)
  pub written :
      (v : api.Value)
      → IsPlain v
      → (t : api.Text) × (api.write_string v ≡ some t) × (api.parse t ≡ some v)

-- The types of the fields.
pub record Fits (g : GrantorDescriptor) : Type 0 where
  pub flags_fit : g.flags < 2 ^ 32
  pub fd_index_fits : g.fd_index < 2 ^ 32
  pub offset_fits : g.offset < 2 ^ 32
  pub extent_fits : g.extent < 2 ^ 64

abbrev pub AllFit : List GrantorDescriptor → Type 0
AllFit [] = Unit
AllFit (g ∷ gs) = Fits g × AllFit gs

module _ (api : JsonApi) (laws : JsonLaws api) where
  open api use {Value, Text, null, number, string, clear, set, member, element, set_element, size}

  -- An object that is set once more.
  pub record Good (v : Value) : Type 0 where
    pub object : laws.IsObject v
    pub plain : laws.IsPlain v

  pub set-Good : {v x : Value} (k : Key) → Good v → laws.IsPlain x → Good (set v k x)
  set-Good {v} {x} k g p = record {
    object = laws.set_object v k x g.object;
    plain = laws.set_plain v k x g.object g.plain p;
  }

  pub clear-Good : {v : Value} → Good v → Good (clear v)
  clear-Good {v} g = record {
    object = laws.clear_object v g.object;
    plain = laws.clear_plain v g.plain;
  }
