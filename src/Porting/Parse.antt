-- ===== src/Porting/Parse.antt =====
-- `from_string` of system_porting.cpp: a queue's descriptor from its JSON text. `create` is
-- `native_handle_create`.
use android_system_libfmq.Base.{
  ℕ, ◌+◌, Bool, true, false, not, ◌&&◌, Option, none, some, List, [], ◌∷◌, ◌++◌, take, tabulate,
  if◌then◌else◌,
}
use android_system_libfmq.Descriptor.{GrantorDescriptor}
use android_system_libfmq.Shim.{NativeHandle}
use android_system_libfmq.Convert.{CreateHandle, no_grantor}
use mathlib.Core.Option
use android_system_libfmq.Porting.Json.{
  JsonApi, element_flags_key, element_fd_index_key, element_offset_key, element_extent_key,
  grantors_key, quantum_key, flags_key, name_key, num_fds_key, num_ints_key, Key,
}

-- What `from_string` writes to.
pub record Described (Text : Type 0) : Type 0 where
  pub grantors : List GrantorDescriptor
  pub handle : Option NativeHandle
  pub quantum : ℕ
  pub flags : ℕ
  pub name : Text

module _ (api : JsonApi) where
  open api use {
    Value, Text, null, number, string, clear, set, member, set_element, element, size, has_members,
    is_array, is_null, as_uint, as_uint64, as_string, write_string, parse, no_text,
  }

  -- The statements of one pass of the loop; whether all of them were run.
  unfoldable pub parse_members : Value → GrantorDescriptor → GrantorDescriptor × Bool
  parse_members value g = elim (as_uint64 (member value element_extent_key)) [
    | none ↦ (g, false)
    | some extent ↦
        let g₁ = record g { extent = extent } in
        elim (as_uint (member value element_fd_index_key)) [
          | none ↦ (g₁, false)
          | some fd_index ↦
              let g₂ = record g₁ { fd_index = fd_index } in
              elim (as_uint (member value element_offset_key)) [
                | none ↦ (g₂, false)
                | some offset ↦
                    let g₃ = record g₂ { offset = offset } in
                    elim (as_uint (member value element_flags_key)) [
                      | none ↦ (g₃, false)
                      | some flags ↦ (record g₃ { flags = flags }, true)
                    ]
              ]
        ]
  ]

  unfoldable pub parse_grantor : Value → GrantorDescriptor → GrantorDescriptor × Bool
  unfolding parse_members
  parse_grantor value g = if has_members value then parse_members value g else (g, false)

  unfoldable pub parse_grantors : Value → ℕ → List GrantorDescriptor → List GrantorDescriptor × Bool
  unfolding parse_grantor
  parse_grantors value i [] = ([], true)
  parse_grantors value i (g ∷ gs) =
      let (g', going) = parse_grantor (element value i) g in
      let (rest, whole) = parse_grantors value (i + 1) gs in
      if going then (g' ∷ rest, whole) else (g' ∷ gs, false)

  -- `resize` of a vector, new elements being 0.
  abbrev pub resize : ℕ → List GrantorDescriptor → List GrantorDescriptor
  resize n gs = take n (gs ++ tabulate n (λ i. no_grantor))

  -- The local variables behind the loop. `value` refers to a member of `raw`, so what is assigned
  -- to it goes there.
  pub record Locals : Type 0 where
    pub raw : Value
    pub described : Described Text
    pub num_fds : ℕ
    pub num_ints : ℕ

  abbrev pub fetch : Key → Locals → Locals
  fetch k s = record s { raw = set s.raw grantors_key (member s.raw k) }

  abbrev pub value_of : Locals → Value
  value_of s = member s.raw grantors_key

  -- One statement that fetches a number and uses it.
  abbrev pub fetch_uint : Key → (ℕ → Locals → Locals) → Locals → Option Locals
  fetch_uint k use_number s =
      let s' = fetch k s in Option.map (λ n. use_number n s') (as_uint (value_of s'))

  abbrev pub rename : Text → Locals → Locals
  rename name s = record s { described = record (s.described) { name = name } }

  -- The last ones: the name is cleared, and assigned if there is one.
  abbrev pub fetch_name : Locals → Option Locals
  fetch_name s =
      let s' = rename no_text (fetch name_key s) in
      if is_null (value_of s')
      then some s'
      else elim (as_string (value_of s')) [ none ↦ some s' | some name ↦ some (rename name s') ]

  -- The statements up to the first exception.
  abbrev pub run_all : List (Locals → Option Locals) → Locals → Locals
  run_all [] s = s
  run_all (f ∷ fs) s = elim (f s) [ none ↦ s | some s' ↦ run_all fs s' ]

  abbrev pub use_quantum : ℕ → Locals → Locals
  use_quantum n s = record s { described = record (s.described) { quantum = n } }

  abbrev pub use_flags : ℕ → Locals → Locals
  use_flags n s = record s { described = record (s.described) { flags = n } }

  abbrev pub use_fds : ℕ → Locals → Locals
  use_fds n s = record s { num_fds = n }

  abbrev pub use_ints : ℕ → Locals → Locals
  use_ints n s = record s { num_ints = n }

  abbrev pub statements : List (Locals → Option Locals)
  statements =
      fetch_uint quantum_key use_quantum
      ∷ fetch_uint flags_key use_flags
      ∷ fetch_uint num_fds_key use_fds
      ∷ fetch_uint num_ints_key use_ints
      ∷ fetch_name
      ∷ []

  -- From a parsed text, whose grantors are an array or missing.
  unfoldable pub parse_described : CreateHandle → Value → Described Text → Described Text
  unfolding parse_grantors
  parse_described create raw before =
      let value = member raw grantors_key in
      let (grantors, whole) = parse_grantors value 0 (resize (size value) before.grantors) in
      let start : Locals = record {
        raw = raw;
        described = record before { grantors = grantors };
        num_fds = 0;
        num_ints = 0;
      } in
      let s = if whole then run_all statements start else start in
      record (s.described) { handle = create s.num_fds s.num_ints }

  unfoldable pub from_string : CreateHandle → Text → Described Text → Described Text
  unfolding parse_described
  from_string create text before = elim (parse text) [
    | none ↦ before
    | some raw ↦
        if not (has_members raw)
        then record before { handle = create 0 0 }
        else if not (is_array (member raw grantors_key)) && not (is_null (member raw grantors_key))
        then before
        else parse_described create raw before
  ]
