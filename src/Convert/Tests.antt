-- ===== src/Convert/Tests.antt =====
-- The conversions at a descriptor of three grantors.
use android_system_libfmq.Base.{ℕ, ◌+◌, ◌^◌, ◌≡◌, refl, arith, true, false, some, List, [], ◌∷◌}
use android_system_libfmq.Flavor.{synchronized_read_write, flavor_value}
use android_system_libfmq.Descriptor.{GrantorDescriptor}
use android_system_libfmq.Shim.{NativeHandle, is_handle_valid}
use android_system_libfmq.Convert.{
  AidlDescriptor, CreateHandle, no_descriptor, dupe_desc, from_aidl, hidl_to_aidl,
}
use android_system_libfmq.Convert.RoundTrip.{
  Portable, arrived, dupe_desc-from_aidl, hidl_to_aidl-from_aidl, hidl_to_aidl_file,
}

abbrev grantor : ℕ → ℕ → GrantorDescriptor
grantor offset extent = record { flags = 0; fd_index = 0; offset = offset; extent = extent }

abbrev grantors : List GrantorDescriptor
grantors = grantor 0 8 ∷ grantor 8 8 ∷ grantor 16 12 ∷ []

-- One file and one integer.
abbrev handle : NativeHandle
handle = record { num_fds = 1; num_ints = 1; data_words = 7 ∷ 40 ∷ [] }

abbrev empty_handle : NativeHandle
empty_handle = record { num_fds = 1; num_ints = 1; data_words = 0 ∷ 0 ∷ [] }

abbrev create : CreateHandle
create num_fds num_ints = some empty_handle

abbrev dup : ℕ → ℕ
dup fd = fd + 1

portable : Portable grantors 4 1
portable = record {
  in_range = (
    refl,
    omega arith,
    omega arith,
    omega arith,
    (
      refl,
      omega arith,
      omega arith,
      omega arith,
      (refl, omega arith, omega arith, omega arith, tt),
    ),
  );
  quantum_fits = omega arith;
  flags_fit = omega arith;
}

dupe_desc-from_aidl_example :
    (desc : AidlDescriptor) × (dupe_desc dup
        (some (record { grantors = grantors; handle = some handle; quantum = 4; flags = 1 }))
      ≡ some desc)
    × (from_aidl create dup desc ≡ record {
      grantors = grantors;
      handle = some (record { num_fds = 1; num_ints = 1; data_words = 9 ∷ 40 ∷ [] });
      quantum = 4;
      flags = 1;
    })
dupe_desc-from_aidl_example =
    dupe_desc-from_aidl create dup grantors 4 1 handle empty_handle portable refl

flavor_is_1 : 1 ≡ flavor_value synchronized_read_write
unfolding flavor_value
flavor_is_1 = refl

hidl_to_aidl-from_aidl_example :
    (desc : AidlDescriptor) × (hidl_to_aidl synchronized_read_write dup
        (record { grantors = grantors; handle = some handle; quantum = 4; flags = 1 })
        no_descriptor
      ≡ some (true, desc))
    × (from_aidl create dup desc
        ≡ arrived create dup grantors 4 1 handle empty_handle portable refl)
hidl_to_aidl-from_aidl_example =
    hidl_to_aidl-from_aidl create dup grantors 4 1 handle empty_handle portable refl
      synchronized_read_write flavor_is_1

abbrev far : GrantorDescriptor
far = record { flags = 0; fd_index = 2 ^ 31; offset = 0; extent = 8 }

hidl_to_aidl_file_example :
    (desc : AidlDescriptor) × (hidl_to_aidl synchronized_read_write dup
        (record {
          grantors = far ∷ [];
          handle = some handle;
          quantum = 4;
          flags = flavor_value synchronized_read_write;
        })
        no_descriptor
      ≡ some (true, desc))
    × (is_handle_valid (from_aidl create dup desc) ≡ false)
hidl_to_aidl_file_example =
    hidl_to_aidl_file create dup synchronized_read_write handle far 4 (omega arith) (omega arith)
      (omega arith) (omega arith) (omega arith)
