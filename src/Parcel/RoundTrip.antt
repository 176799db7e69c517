-- ===== src/Parcel/RoundTrip.antt =====
-- What is read of the parcelables that are written, and what is refused.
use android_system_libfmq.Base.{
  ℕ, ◌+◌, ◌^◌, ◌≤◌, ◌<◌, ◌≡◌, refl, ◌⊎◌, inl, inr, true, List, [], arith, ltb,
}
use android_system_libfmq.Parcel.{
  status_ok, status_bad_value, ParcelApi, Codec, Field, read_from_parcel,
}
use android_system_libfmq.Parcel.Types.{
  AidlMqDescriptor, Codecs, grantor_fields, handle_fields, read_grantor, write_grantor,
  read_native_handle, write_native_handle, no_aidl_grantor, grantor_codec, handle_codec,
  mq_descriptor_fields, read_mq_descriptor, write_mq_descriptor,
}
use android_system_libfmq.Parcel.Chain.{PositionLaws, Lawful, WordLaws}
use android_system_libfmq.Parcel.Versions.{older_writer}
use android_system_libfmq.Parcel.Nested.{parcelable-Lawful}

-- The codecs read back what they write; those of parcelables and of vectors of them do if the
-- parcelable does.
pub record CodecLaws (api : ParcelApi) {Fd : Type 0} (codecs : Codecs api Fd) : Type 1 where
  pub positions : PositionLaws api
  pub int32 : Lawful api codecs.int32
  pub word : WordLaws api codecs.int32 int32
  pub int64 : Lawful api codecs.int64
  pub file : Lawful api codecs.file
  pub files : Lawful api codecs.files
  pub int32s : Lawful api codecs.int32s
  pub parcelable : {A : Type 0} (c : Codec api A) → Lawful api c → Lawful api (codecs.parcelable c)
  pub vector_of :
      {A : Type 0} (new : A) (c : Codec api A) → Lawful api c → Lawful api (codecs.vector_of new c)

module _ (api : ParcelApi) {Fd : Type 0} (codecs : Codecs api Fd)
    (laws : CodecLaws api codecs) where
  open api use {Parcel, position, set_position, cell}

  grantor-Lawful : Lawful api (grantor_codec api codecs)
  unfolding read_grantor write_grantor grantor_fields
  grantor-Lawful =
      parcelable-Lawful api laws.positions codecs.int32 laws.int32 laws.word
        (grantor_fields api codecs) (laws.int32, (laws.int32, (laws.int64, tt))) (λ o old. refl)

  handle-Lawful : Lawful api (handle_codec api codecs)
  unfolding read_native_handle write_native_handle handle_fields
  handle-Lawful =
      parcelable-Lawful api laws.positions codecs.int32 laws.int32 laws.word
        (handle_fields api codecs) (laws.files, (laws.int32s, tt)) (λ o old. refl)

  -- If `AParcel` and the codecs of simple types obey their laws, and those of parcelables and
  -- vectors do when a parcelable is read back as it was written: an `MQDescriptor` that is written
  -- without an error, with its grantors and its handle by their own `writeToParcel`, is read back,
  -- into any object, from where the write started, and the read stops where the write did.
  pub write_mq_descriptor-read :
      (d old : AidlMqDescriptor Fd) (p p' : Parcel)
      → write_mq_descriptor api codecs d p ≡ (status_ok, p')
      → (q : Parcel) × (read_mq_descriptor api codecs (set_position (position p) p') old
          ≡ (status_ok, d, q))
        × (position q ≡ position p')
        × ((i : ℕ) → cell q i ≡ cell p' i)
  unfolding write_mq_descriptor read_mq_descriptor mq_descriptor_fields
  write_mq_descriptor-read d old p p' e =
      older_writer api laws.positions codecs.int32 laws.int32 laws.word
        (mq_descriptor_fields api codecs) []
        (
          laws.vector_of no_aidl_grantor (grantor_codec api codecs) grantor-Lawful,
          (laws.parcelable (handle_codec api codecs) handle-Lawful, (laws.int32, (laws.int32, tt))),
        )
        d old p p' e

-- If `readFromParcel` reads a size that is negative, less than 4, or goes beyond the last
-- position, it returns `STATUS_BAD_VALUE` and leaves the object as it was.
pub read_from_parcel_refuses :
    (api : ParcelApi) (int32 : Codec api ℕ) {O : Type 0} (fs : List (Field api O))
    (p p₁ : api.Parcel) (size : ℕ) (old : O)
    → int32.read p 0 ≡ (status_ok, size, p₁)
    → ((size < 4) ⊎ (2 ^ 31 ≤ api.position p + size))
    → read_from_parcel api int32 fs p old ≡ (status_bad_value, old, p₁)
unfolding read_from_parcel
read_from_parcel_refuses api int32 fs p p₁ size old e (inl small) =
    let b : ltb size 4 ≡ true = ground arith in rw (e, b) (ground arith)
read_from_parcel_refuses api int32 fs p p₁ size old e (inr far) = rw e (ground arith)
