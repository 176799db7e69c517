-- ===== src/Parcel.antt =====
-- `readFromParcel` and `writeToParcel` of the parcelables under generated_files, which all have one
-- shape: a size, then the fields in order. `AParcel` and the codecs of the fields, which
-- `::ndk::AParcel_readData` and `::ndk::AParcel_writeData` choose by the type, are parameters. An
-- `int32_t` is its two's complement pattern; positions are not negative.
pub mod Types
pub mod Chain
pub mod Written
pub mod Reading
pub mod Versions
pub mod Nested
pub mod RoundTrip
pub mod Compare
mod Tests
use android_system_libfmq.Base.{
  ℕ, ◌+◌, ◌-◌, ◌%◌, ◌^◌, Bool, true, false, not, ◌||◌, List, [], ◌∷◌, ltb, leb, if◌then◌else◌,
}
use android_system_libfmq.Memory.{sub64}

-- `binder_status_t`; `status_error` is any status that the code does not name.
pub data BinderStatus : Type 0 where
  status_ok : BinderStatus
  status_bad_value : BinderStatus
  status_error : ℕ → BinderStatus

abbrev pub is_ok : BinderStatus → Bool
is_ok status_ok = true
is_ok _ = false

-- `AParcel`: cells, and `AParcel_getDataPosition` and `AParcel_setDataPosition`.
pub record ParcelApi : Type 1 where
  pub Parcel : Type 0
  pub Cell : Type 0
  pub cell : Parcel → ℕ → Cell
  pub position : Parcel → ℕ
  pub set_position : ℕ → Parcel → Parcel

-- A type that can be written and read. A read takes the value that its target has before.
pub record Codec (api : ParcelApi) (A : Type 0) : Type 0 where
  pub read : api.Parcel → A → BinderStatus × A × api.Parcel
  pub write : A → api.Parcel → BinderStatus × api.Parcel

pub record Field (api : ParcelApi) (O : Type 0) : Type 1 where
  pub Value : Type 0
  pub codec : Codec api Value
  pub get : O → Value
  pub put : Value → O → O

module _ (api : ParcelApi) {O : Type 0} where
  open api use {Parcel, position, set_position}

  -- The fields, up to the first that fails.
  unfoldable pub write_fields : List (Field api O) → O → Parcel → BinderStatus × Parcel
  write_fields [] o p = (status_ok, p)
  write_fields (f ∷ fs) o p =
      let (status, p') = f.codec.write (f.get o) p in
      if not (is_ok status) then (status, p') else write_fields fs o p'

  -- The fields that the parcelable has, up to the first that fails; then to its end.
  unfoldable pub read_fields : ℕ → ℕ → List (Field api O) → Parcel → O → BinderStatus × O × Parcel
  read_fields start size [] p o = (status_ok, o, set_position (start + size) p)
  read_fields start size (f ∷ fs) p o =
      let (status, v, p') = f.codec.read p (f.get o) in
      let rest = read_fields start size fs p' (f.put v o) in
      if leb size (position p - start)
      then (status_ok, o, set_position (start + size) p)
      else if not (is_ok status)
      then (status, f.put v o, p')
      else rest

  -- `writeToParcel`: the size is 0 until the fields are there.
  unfoldable pub write_to_parcel :
      Codec api ℕ → List (Field api O) → O → Parcel → BinderStatus × Parcel
  unfolding write_fields
  write_to_parcel int32 fs o p =
      let start = position p in
      let (status, p₁) = int32.write 0 p in
      if not (is_ok status)
      then (status, p₁)
      else let (status₂, p₂) = write_fields fs o p₁ in
        if not (is_ok status₂)
        then (status₂, p₂)
        else let end = position p₂ in
          let (ignored, p₃) = int32.write (sub64 end start % 2 ^ 32) (set_position start p₂) in
          (status₂, set_position end p₃)

  -- `readFromParcel`
  unfoldable pub read_from_parcel :
      Codec api ℕ → List (Field api O) → Parcel → O → BinderStatus × O × Parcel
  unfolding read_fields
  read_from_parcel int32 fs p o =
      let start = position p in
      let (status, size, p₁) = int32.read p 0 in
      if not (is_ok status)
      then (status, o, p₁)
      else if leb (2 ^ 31) size || ltb size 4
      then (status_bad_value, o, p₁)
      else if ltb (2 ^ 31 - 1 - size) start
      then (status_bad_value, o, p₁)
      else read_fields start size fs p₁ o
