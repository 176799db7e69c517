-- ===== src/Parcel/Compare/Tests.antt =====
-- Descriptors that are compared, with files that are compared by their numbers.
use android_system_libfmq.Base.{ℕ, ◌≡◌, refl, arith, true, [], ◌∷◌, ltb, ◌==◌}
use android_system_libfmq.Parcel.Types.{AidlMqDescriptor}
use android_system_libfmq.Parcel.Compare.{
  Comparison, grantor_operators, native_handle_operators, ashmem_operators, mappable_file_operators,
  mq_descriptor_operators,
}
use android_system_libfmq.Parcel.Compare.Laws.{IsOrdered, IsTotalOrder}
use android_system_libfmq.Parcel.Compare.Order.{
  GrantorFits, NativeHandleFits, AshmemFits, MappableFileFits, MqDescriptorFits,
  parcelables-IsTotalOrder,
}

abbrev by_number : Comparison ℕ
by_number = record { less = ltb; equal = ◌==◌ }

abbrev AnyFile : ℕ → Type 0
AnyFile n = Unit

by_number-IsOrdered : IsOrdered AnyFile by_number
by_number-IsOrdered = record {
  equal_iff = λ a b p q. ground arith;
  irreflexive = λ a p. ground arith;
  transitive = λ x y z p q r h k. ground arith;
  connected = λ a b p q h k. ground arith;
}

-- One grantor, whose file index is `index`.
abbrev descriptor : ℕ → AidlMqDescriptor ℕ
descriptor index = record {
  grantors = record { fd_index = index; offset = 0; extent = 8 } ∷ [];
  handle = record { fds = 3 ∷ []; ints = [] };
  quantum = 4;
  flags = 1;
}

-- The index -1 is less than the index 0.
negative_first :
    (mq_descriptor_operators by_number).less (descriptor 0xffffffff) (descriptor 0) ≡ true
unfolding mq_descriptor_operators
negative_first = refl

parcelables-IsTotalOrder_example :
    IsTotalOrder GrantorFits grantor_operators
    × IsTotalOrder (NativeHandleFits AnyFile) (native_handle_operators by_number)
    × IsTotalOrder (AshmemFits AnyFile) (ashmem_operators by_number)
    × IsTotalOrder (MappableFileFits AnyFile) (mappable_file_operators by_number)
    × IsTotalOrder (MqDescriptorFits AnyFile) (mq_descriptor_operators by_number)
parcelables-IsTotalOrder_example = parcelables-IsTotalOrder by_number-IsOrdered
