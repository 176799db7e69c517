-- ===== src/Parcel/Types.antt =====
-- The parcelables under generated_files: GrantorDescriptor, NativeHandle, Ashmem, MappableFile and
-- MQDescriptor (in the build without `_MSC_VER`), and the order of their fields.
use android_system_libfmq.Base.{ℕ, List, [], ◌∷◌}
use android_system_libfmq.Convert.{AidlGrantor}
use android_system_libfmq.Parcel.{
  BinderStatus, ParcelApi, Codec, Field, write_to_parcel, read_from_parcel,
}

-- The type of a `ScopedFileDescriptor` is a parameter.
pub record AidlNativeHandle (Fd : Type 0) : Type 0 where
  pub fds : List Fd
  pub ints : List ℕ

pub record Ashmem (Fd : Type 0) : Type 0 where
  pub fd : Fd
  pub size : ℕ

pub record MappableFile (Fd : Type 0) : Type 0 where
  pub length : ℕ
  pub prot : ℕ
  pub fd : Fd
  pub offset : ℕ

pub record AidlMqDescriptor (Fd : Type 0) : Type 0 where
  pub grantors : List AidlGrantor
  pub handle : AidlNativeHandle Fd
  pub quantum : ℕ
  pub flags : ℕ

-- The overloads of `AParcel_readData` and `AParcel_writeData` that the parcelables use: those for
-- simple types, and those of a parcelable and of a vector of parcelables, which use its
-- `readFromParcel` and `writeToParcel`; a new element of the vector has a value to start with.
pub record Codecs (api : ParcelApi) (Fd : Type 0) : Type 1 where
  pub int32 : Codec api ℕ
  pub int64 : Codec api ℕ
  pub file : Codec api Fd
  pub files : Codec api (List Fd)
  pub int32s : Codec api (List ℕ)
  pub parcelable : {A : Type 0} → Codec api A → Codec api A
  pub vector_of : {A : Type 0} → A → Codec api A → Codec api (List A)

abbrev pub no_aidl_grantor : AidlGrantor
no_aidl_grantor = record { fd_index = 0; offset = 0; extent = 0 }

module _ (api : ParcelApi) {Fd : Type 0} (codecs : Codecs api Fd) where
  open api use {Parcel}

  unfoldable pub grantor_fields : List (Field api AidlGrantor)
  grantor_fields =
      record {
        Value = ℕ;
        codec = codecs.int32;
        get = λ g. g.fd_index;
        put = λ v g. record g { fd_index = v };
      }
      ∷ record {
        Value = ℕ;
        codec = codecs.int32;
        get = λ g. g.offset;
        put = λ v g. record g { offset = v };
      }
      ∷ record {
        Value = ℕ;
        codec = codecs.int64;
        get = λ g. g.extent;
        put = λ v g. record g { extent = v };
      }
      ∷ []

  unfoldable pub handle_fields : List (Field api (AidlNativeHandle Fd))
  handle_fields =
      record {
        Value = List Fd;
        codec = codecs.files;
        get = λ h. h.fds;
        put = λ v h. record h { fds = v };
      }
      ∷ record {
        Value = List ℕ;
        codec = codecs.int32s;
        get = λ h. h.ints;
        put = λ v h. record h { ints = v };
      }
      ∷ []

  unfoldable pub ashmem_fields : List (Field api (Ashmem Fd))
  ashmem_fields =
      record { Value = Fd; codec = codecs.file; get = λ a. a.fd; put = λ v a. record a { fd = v } }
      ∷ record {
        Value = ℕ;
        codec = codecs.int64;
        get = λ a. a.size;
        put = λ v a. record a { size = v };
      }
      ∷ []

  unfoldable pub mappable_file_fields : List (Field api (MappableFile Fd))
  mappable_file_fields =
      record {
        Value = ℕ;
        codec = codecs.int64;
        get = λ a. a.length;
        put = λ v a. record a { length = v };
      }
      ∷ record {
        Value = ℕ;
        codec = codecs.int32;
        get = λ a. a.prot;
        put = λ v a. record a { prot = v };
      }
      ∷ record {
        Value = Fd;
        codec = codecs.file;
        get = λ a. a.fd;
        put = λ v a. record a { fd = v };
      }
      ∷ record {
        Value = ℕ;
        codec = codecs.int64;
        get = λ a. a.offset;
        put = λ v a. record a { offset = v };
      }
      ∷ []

  unfoldable pub read_grantor : Parcel → AidlGrantor → BinderStatus × AidlGrantor × Parcel
  unfolding read_from_parcel grantor_fields
  read_grantor = read_from_parcel api codecs.int32 grantor_fields

  unfoldable pub write_grantor : AidlGrantor → Parcel → BinderStatus × Parcel
  unfolding write_to_parcel grantor_fields
  write_grantor = write_to_parcel api codecs.int32 grantor_fields

  unfoldable pub read_native_handle :
      Parcel → AidlNativeHandle Fd → BinderStatus × (AidlNativeHandle Fd) × Parcel
  unfolding read_from_parcel handle_fields
  read_native_handle = read_from_parcel api codecs.int32 handle_fields

  unfoldable pub write_native_handle : AidlNativeHandle Fd → Parcel → BinderStatus × Parcel
  unfolding write_to_parcel handle_fields
  write_native_handle = write_to_parcel api codecs.int32 handle_fields

  unfoldable pub read_ashmem : Parcel → Ashmem Fd → BinderStatus × (Ashmem Fd) × Parcel
  unfolding read_from_parcel ashmem_fields
  read_ashmem = read_from_parcel api codecs.int32 ashmem_fields

  unfoldable pub write_ashmem : Ashmem Fd → Parcel → BinderStatus × Parcel
  unfolding write_to_parcel ashmem_fields
  write_ashmem = write_to_parcel api codecs.int32 ashmem_fields

  unfoldable pub read_mappable_file :
      Parcel → MappableFile Fd → BinderStatus × (MappableFile Fd) × Parcel
  unfolding read_from_parcel mappable_file_fields
  read_mappable_file = read_from_parcel api codecs.int32 mappable_file_fields

  unfoldable pub write_mappable_file : MappableFile Fd → Parcel → BinderStatus × Parcel
  unfolding write_to_parcel mappable_file_fields
  write_mappable_file = write_to_parcel api codecs.int32 mappable_file_fields

  -- `GrantorDescriptor` and `NativeHandle` as fields.
  abbrev pub grantor_codec : Codec api AidlGrantor
  grantor_codec = record { read = read_grantor; write = write_grantor }

  abbrev pub handle_codec : Codec api (AidlNativeHandle Fd)
  handle_codec = record { read = read_native_handle; write = write_native_handle }

  unfoldable pub mq_descriptor_fields : List (Field api (AidlMqDescriptor Fd))
  mq_descriptor_fields =
      record {
        Value = List AidlGrantor;
        codec = codecs.vector_of no_aidl_grantor grantor_codec;
        get = λ d. d.grantors;
        put = λ v d. record d { grantors = v };
      }
      ∷ record {
        Value = AidlNativeHandle Fd;
        codec = codecs.parcelable handle_codec;
        get = λ d. d.handle;
        put = λ v d. record d { handle = v };
      }
      ∷ record {
        Value = ℕ;
        codec = codecs.int32;
        get = λ d. d.quantum;
        put = λ v d. record d { quantum = v };
      }
      ∷ record {
        Value = ℕ;
        codec = codecs.int32;
        get = λ d. d.flags;
        put = λ v d. record d { flags = v };
      }
      ∷ []

  unfoldable pub read_mq_descriptor :
      Parcel → AidlMqDescriptor Fd → BinderStatus × (AidlMqDescriptor Fd) × Parcel
  unfolding read_from_parcel mq_descriptor_fields
  read_mq_descriptor = read_from_parcel api codecs.int32 mq_descriptor_fields

  unfoldable pub write_mq_descriptor : AidlMqDescriptor Fd → Parcel → BinderStatus × Parcel
  unfolding write_to_parcel mq_descriptor_fields
  write_mq_descriptor = write_to_parcel api codecs.int32 mq_descriptor_fields
