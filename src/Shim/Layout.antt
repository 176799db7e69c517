-- ===== src/Shim/Layout.antt =====
-- Where the grantors of a new queue lie in its shared memory.
use android_system_libfmq.Base.{
  ℕ, ◌+◌, ◌-◌, ◌%◌, ◌^◌, ◌<◌, ◌≤◌, ◌≡◌, ◌⊎◌, refl, arith, Bool, true, false, Option, none, some,
  List, [], ◌∷◌, if◌then◌else◌,
}
use android_system_libfmq.Flavor.{MqFlavor, flavor_value}
use android_system_libfmq.Descriptor.{GrantorDescriptor}
use android_system_libfmq.Descriptor.Align.{aligned, align_to_word_boundary_lem}
use android_system_libfmq.Shim.{
  NativeHandle, Shim, u32, mem_sizes, contiguous_grantors, from_sizes, get_size, get_quantum,
}

-- The grantors one after the other, aligned, between two bounds.
abbrev pub Laid : ℕ → List GrantorDescriptor → ℕ → Type 0
Laid low [] high = low ≤ high
Laid low (g ∷ gs) high = (low ≤ g.offset) × (g.offset % 8 ≡ 0) × Laid (g.offset + g.extent) gs high

-- The bytes that a queue needs: the ring rounded up, two counters and maybe the event flag word.
abbrev pub needed : ℕ → Bool → ℕ
needed buffer_size ev = aligned buffer_size + (if ev then 20 else 16)

grantor : ℕ → ℕ → GrantorDescriptor
grantor offset extent = record { flags = 0; fd_index = 0; offset = offset; extent = extent }

abbrev pub extents : List GrantorDescriptor → List ℕ
extents [] = []
extents (g ∷ gs) = g.extent ∷ extents gs

-- The grantors in numbers.
result : ℕ → Bool → List GrantorDescriptor
result b true = grantor 0 8 ∷ grantor 8 8 ∷ grantor 16 b ∷ grantor (16 + aligned b) 4 ∷ []
result b false = grantor 0 8 ∷ grantor 8 8 ∷ grantor 16 b ∷ []

result-Laid :
    (b : ℕ) (ev : Bool)
    → Laid 0 (result b ev) (needed b ev) × (extents (result b ev) ≡ mem_sizes b ev)
unfolding result grantor
result-Laid b true = (omega arith, refl)
result-Laid b false = (omega arith, refl)

ring_size :
    (flavor : MqFlavor) (b : ℕ) (handle : Option NativeHandle) (m : ℕ) (ev : Bool)
    → get_size (record {
      grantors = result b ev;
      handle = handle;
      quantum = u32 m;
      flags = flavor_value flavor;
    })
      ≡ b
unfolding get_size result grantor
ring_size flavor b handle m true = refl
ring_size flavor b handle m false = refl

module _ (flavor : MqFlavor) (b : ℕ) (handle : Option NativeHandle) (m : ℕ) (ev : Bool) where
  contiguous : b ≤ 2 ^ 31 - 24 → contiguous_grantors 0 (mem_sizes b ev) ≡ some (result b ev)
  unfolding contiguous_grantors result grantor
  contiguous h = ground (
    arith,
    align_to_word_boundary_lem 0,
    align_to_word_boundary_lem 8,
    align_to_word_boundary_lem 16,
    align_to_word_boundary_lem (16 + b),
  )

  abbrev shim : List GrantorDescriptor → Shim
  shim grantors = record {
    grantors = grantors;
    handle = handle;
    quantum = u32 m;
    flags = flavor_value flavor;
  }

  made : b ≤ 2 ^ 31 - 24 → m < 2 ^ 31 → from_sizes flavor b handle m ev ≡ some (shim (result b ev))
  unfolding from_sizes
  made h k = ground (arith, align_to_word_boundary_lem (16 + b), contiguous h)

  -- The constructor for a new queue whose ring takes `b` bytes and whose messages take `m`, with `b`
  -- at most `2 ^ 31 - 24` and `m` below `2 ^ 31`: the grantors lie one after the other without
  -- overlap, at offsets that are multiples of 8, within the bytes that such a queue needs; they are
  -- as large as their contents, and `getSize` and `getQuantum` give the ring and the messages back;
  -- the handle is the one that was given.
  pub from_sizes-Laid :
      b ≤ 2 ^ 31 - 24
      → m < 2 ^ 31
      → (s : Shim) × (from_sizes flavor b handle m ev ≡ some s)
        × Laid 0 s.grantors (needed b ev)
        × (extents s.grantors ≡ mem_sizes b ev)
        × (get_size s ≡ b)
        × (get_quantum s ≡ m)
        × (s.handle ≡ handle)
  unfolding get_quantum
  from_sizes-Laid h k =
      let (laid, sizes) = result-Laid b ev in
      (shim (result b ev), made h k, laid, sizes, ring_size flavor b handle m ev, omega arith, refl)

  -- Larger rings, unless they lie just below `2 ^ 64`, and larger messages give a descriptor
  -- without grantors, whose size is 0.
  pub from_sizes_too_large :
      b < 2 ^ 64
      → (2 ^ 31 - 24 < b) ⊎ (2 ^ 31 ≤ m)
      → (b ≤ 2 ^ 64 - 24) ⊎ (2 ^ 64 - 16 ≤ b)
      → (s : Shim) × (from_sizes flavor b handle m ev ≡ some s)
        × (s.grantors ≡ [])
        × (get_size s ≡ 0)
  unfolding from_sizes get_size
  from_sizes_too_large fits large h =
      (shim [], ground (arith, align_to_word_boundary_lem ((16 + b) % 2 ^ 64)), refl, refl)

  -- A ring of more than `2 ^ 64 - 24` and less than `2 ^ 64 - 16` bytes, which the rounding
  -- carries past `2 ^ 64`, aborts.
  pub from_sizes_aborts : 2 ^ 64 - 24 < b → b < 2 ^ 64 - 16 → from_sizes flavor b handle m ev ≡ none
  unfolding from_sizes
  from_sizes_aborts h k = ground (arith, align_to_word_boundary_lem ((16 + b) % 2 ^ 64))
