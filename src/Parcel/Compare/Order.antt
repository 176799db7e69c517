-- ===== src/Parcel/Compare/Order.antt =====
-- The parcelables are in a total order.
use android_system_libfmq.Convert.{AidlGrantor}
use android_system_libfmq.Parcel.Types.{AidlNativeHandle, Ashmem, MappableFile, AidlMqDescriptor}
use android_system_libfmq.Parcel.Compare.{
  Comparison, grantor_operators, native_handle_operators, ashmem_operators, mappable_file_operators,
  mq_descriptor_operators,
}
use android_system_libfmq.Parcel.Compare.Laws.{
  IsOrdered, IsTotalOrder, Fits32, Fits64, All, int32-IsOrdered, int64-IsOrdered, tuple-IsOrdered,
  vector-IsOrdered, operators-IsTotalOrder,
}

-- The numbers fit their types.
abbrev pub GrantorFits : AidlGrantor → Type 0
GrantorFits g = Fits32 g.fd_index × (Fits32 g.offset × Fits64 g.extent)

module _ {Fd : Type 0} (File : Fd → Type 0) where
  abbrev pub NativeHandleFits : AidlNativeHandle Fd → Type 0
  NativeHandleFits h = All File h.fds × All Fits32 h.ints

  abbrev pub AshmemFits : Ashmem Fd → Type 0
  AshmemFits a = File a.fd × Fits64 a.size

  abbrev pub MappableFileFits : MappableFile Fd → Type 0
  MappableFileFits f = Fits64 f.length × (Fits32 f.prot × (File f.fd × Fits64 f.offset))

  abbrev pub MqDescriptorFits : AidlMqDescriptor Fd → Type 0
  MqDescriptorFits d =
      All GrantorFits d.grantors × (NativeHandleFits d.handle × (Fits32 d.quantum × Fits32 d.flags))

grantor-IsTotalOrder : IsTotalOrder GrantorFits grantor_operators
unfolding grantor_operators
grantor-IsTotalOrder =
    operators-IsTotalOrder (λ (g : AidlGrantor). (g.fd_index, (g.offset, g.extent)))
      (tuple-IsOrdered int32-IsOrdered (tuple-IsOrdered int32-IsOrdered int64-IsOrdered)) (λ g h. h)
      (λ a b e. cc)

module _ {Fd : Type 0} {File : Fd → Type 0} {file : Comparison Fd} (o : IsOrdered File file) where
  native_handle-IsTotalOrder : IsTotalOrder (NativeHandleFits File) (native_handle_operators file)
  unfolding native_handle_operators
  native_handle-IsTotalOrder =
      operators-IsTotalOrder (λ (h : AidlNativeHandle Fd). (h.fds, h.ints))
        (tuple-IsOrdered (vector-IsOrdered o) (vector-IsOrdered int32-IsOrdered)) (λ h p. p)
        (λ a b e. cc)

  ashmem-IsTotalOrder : IsTotalOrder (AshmemFits File) (ashmem_operators file)
  unfolding ashmem_operators
  ashmem-IsTotalOrder =
      operators-IsTotalOrder (λ (a : Ashmem Fd). (a.fd, a.size)) (tuple-IsOrdered o int64-IsOrdered)
        (λ a p. p) (λ a b e. cc)

  mappable_file-IsTotalOrder : IsTotalOrder (MappableFileFits File) (mappable_file_operators file)
  unfolding mappable_file_operators
  mappable_file-IsTotalOrder =
      operators-IsTotalOrder (λ (f : MappableFile Fd). (f.length, (f.prot, (f.fd, f.offset))))
        (tuple-IsOrdered int64-IsOrdered
          (tuple-IsOrdered int32-IsOrdered (tuple-IsOrdered o int64-IsOrdered)))
        (λ f p. p) (λ a b e. cc)

  mq_descriptor-IsTotalOrder : IsTotalOrder (MqDescriptorFits File) (mq_descriptor_operators file)
  unfolding mq_descriptor_operators
  mq_descriptor-IsTotalOrder =
      operators-IsTotalOrder
        (λ (d : AidlMqDescriptor Fd). (d.grantors, (d.handle, (d.quantum, d.flags))))
        (tuple-IsOrdered (vector-IsOrdered (grantor-IsTotalOrder.ordered)) (
          tuple-IsOrdered native_handle-IsTotalOrder.ordered
            (tuple-IsOrdered int32-IsOrdered int32-IsOrdered)))
        (λ d p. p) (λ a b e. cc)

  -- If the operators of file descriptors are those of a total order: for values whose numbers fit
  -- their types, the operators of each of the five parcelables are those of a total order, with
  -- `==` exactly for equal values, and `!=`, `<=`, `>` and `>=` agree with `==` and `<`.
  pub parcelables-IsTotalOrder :
      IsTotalOrder GrantorFits grantor_operators
      × IsTotalOrder (NativeHandleFits File) (native_handle_operators file)
      × IsTotalOrder (AshmemFits File) (ashmem_operators file)
      × IsTotalOrder (MappableFileFits File) (mappable_file_operators file)
      × IsTotalOrder (MqDescriptorFits File) (mq_descriptor_operators file)
  parcelables-IsTotalOrder = (
    grantor-IsTotalOrder, native_handle-IsTotalOrder, ashmem-IsTotalOrder,
    mappable_file-IsTotalOrder, mq_descriptor-IsTotalOrder,
  )
