-- ===== src/Mapping/Grantor.antt =====
-- What `mapGrantorDescr` maps, and that `unmapGrantorDescr` unmaps it.
use android_system_libfmq.Base.{
  ℕ, ◌+◌, ◌%◌, ◌^◌, ◌<◌, ◌≡◌, refl, arith, false, some, [], ◌∷◌, ◌==◌, get_elem?,
}
use android_system_libfmq.Memory.{add64, sub64}
use android_system_libfmq.Descriptor.{GrantorDescriptor}
use android_system_libfmq.Shim.{NativeHandle, Shim}
use android_system_libfmq.Mapping.{
  page_size, page_distance, map_offset, map_length, Mmap, pointer, map_grantor_descr,
  unmap_grantor_descr,
}

-- A grantor whose bytes end before `2 ^ 31`, so that they can be counted with an `int`.
abbrev pub Small : GrantorDescriptor → Type 0
Small g = g.offset + g.extent < 2 ^ 31

-- The pages that are mapped start at a page and end with the grantor.
pub pages :
    (g : GrantorDescriptor)
    → Small g
    → (map_offset g % page_size ≡ 0)
      × (map_offset g + page_distance g ≡ g.offset)
      × (map_offset g + map_length g ≡ g.offset + g.extent)
      × (page_distance g < page_size)
pages g h = ground arith

module _ (mmap : Mmap) (d : Shim) (handle : NativeHandle) (i : ℕ) (g : GrantorDescriptor)
    (file address : ℕ) where
  mapped_grantor :
      d.handle ≡ some handle
      → get_elem? d.grantors i ≡ some g
      → get_elem? handle.data_words g.fd_index ≡ some file
      → mmap file (map_offset g) (map_length g) ≡ some address
      → map_grantor_descr mmap d i ≡ some (some (pointer file g address))
  unfolding map_grantor_descr
  mapped_grantor h k l m = rw (map_grantor_descr, h, k, l, m) refl

  -- A grantor whose bytes end before `2 ^ 31`, in a descriptor with a handle that has its file, where
  -- `mmap` gives an address that is not 0 and that the grantor's pages do not carry past `2 ^ 64`:
  -- the pages that are mapped start at a page of the file and end where the grantor ends, the
  -- pointer points to the first byte of the grantor, and `unmapGrantorDescr` of the pointer unmaps
  -- the address and the length that were mapped.
  pub map_grantor_descr-unmap_grantor_descr :
      d.handle ≡ some handle
      → get_elem? d.grantors i ≡ some g
      → get_elem? handle.data_words g.fd_index ≡ some file
      → mmap file (map_offset g) (map_length g) ≡ some address
      → Small g
      → 0 < address
      → address + page_size < 2 ^ 64
      → let p = pointer file g address in
        (map_grantor_descr mmap d i ≡ some (some p))
        × (p.position ≡ g.offset)
        × (map_offset g % page_size ≡ 0)
        × (map_offset g + map_length g ≡ g.offset + g.extent)
        × (unmap_grantor_descr (some p.address) d i ≡ (address, map_length g) ∷ [])
  unfolding unmap_grantor_descr
  map_grantor_descr-unmap_grantor_descr h k l m small pos fits =
      let (page, start, end, near) = pages g small in
      let back : sub64 (add64 address (page_distance g)) (page_distance g) ≡ address =
        omega arith in
      let nonzero : (address == 0) ≡ false = ground arith in
      (
        mapped_grantor h k l m,
        omega arith,
        page,
        end,
        rw (unmap_grantor_descr, k, back, nonzero) refl,
      )
