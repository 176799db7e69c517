-- ===== src/Shim/Tests.antt =====
-- The constructor of a descriptor for a new queue at some sizes.
use android_system_libfmq.Base.{◌≡◌, ◌^◌, inl, arith, true, some, [], ◌∷◌}
use android_system_libfmq.Flavor.{synchronized_read_write}
use android_system_libfmq.Shim.{NativeHandle, Shim, from_sizes, get_size, get_quantum}
use android_system_libfmq.Shim.Layout.{Laid, extents, from_sizes-Laid, from_sizes_too_large}

abbrev handle : NativeHandle
handle = record { num_fds = 1; num_ints = 0; data_words = 7 ∷ [] }

from_sizes-Laid_example :
    (s : Shim) × (from_sizes synchronized_read_write 12 (some handle) 4 true ≡ some s)
    × Laid 0 s.grantors 36
    × (extents s.grantors ≡ 8 ∷ 8 ∷ 12 ∷ 4 ∷ [])
    × (get_size s ≡ 12)
    × (get_quantum s ≡ 4)
    × (s.handle ≡ some handle)
from_sizes-Laid_example =
    from_sizes-Laid synchronized_read_write 12 (some handle) 4 true (omega arith) (omega arith)

from_sizes_too_large_example :
    (s : Shim) × (from_sizes synchronized_read_write (2 ^ 31) (some handle) 4 true ≡ some s)
    × (s.grantors ≡ [])
    × (get_size s ≡ 0)
from_sizes_too_large_example =
    from_sizes_too_large synchronized_read_write (2 ^ 31) (some handle) 4 true (omega arith)
      (inl (omega arith)) (inl (omega arith))
