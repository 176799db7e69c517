-- ===== src/Convert/RoundTrip.antt =====
-- A descriptor that goes through AIDL arrives as it was, with files that are duplicates.
use android_system_libfmq.Base.{
  ℕ, ◌<◌, ◌≤◌, ◌^◌, ◌≡◌, refl, sym, ap, arith, true, false, some, List, [], ◌∷◌, ◌++◌, map, ◌==◌,
  take, drop, length,
}
use android_system_libfmq.Flavor.{
  MqFlavor, synchronized_read_write, unsynchronized_write, flavor_value,
}
use android_system_libfmq.Descriptor.{GrantorDescriptor}
use android_system_libfmq.Shim.{NativeHandle, Shim, u32, is_handle_valid}
use android_system_libfmq.Convert.{
  negative32, AidlDescriptor, CreateHandle, grantors_from_aidl, grantor_to_aidl, grantor_from_aidl,
  from_aidl, dupe_desc, push_grantors, hidl_to_aidl, no_descriptor,
}

-- Numbers that a signed number of their width holds.
abbrev pub InRange : List GrantorDescriptor → Type 0
InRange [] = Unit
InRange (g ∷ gs) =
    (g.flags ≡ 0) × (g.fd_index < 2 ^ 31) × (g.offset < 2 ^ 31) × (g.extent < 2 ^ 63) × InRange gs

same :
    (g : GrantorDescriptor)
    → g.flags ≡ 0
    → g.fd_index < 2 ^ 31
    → g.offset < 2 ^ 31
    → grantor_from_aidl (grantor_to_aidl g) ≡ g
same g plain file offset =
    let e : u32 g.fd_index ≡ g.fd_index = omega arith in
    let e' : u32 g.offset ≡ g.offset = omega arith in
    rw (e, e')
      (ap
        (λ (t : ℕ). record {
          flags = t;
          fd_index = g.fd_index;
          offset = g.offset;
          extent = g.extent;
        })
        (sym plain))

received :
    (gs : List GrantorDescriptor)
    → InRange gs
    → grantors_from_aidl (map grantor_to_aidl gs) ≡ (gs, true)
unfolding grantors_from_aidl
received [] h = refl
received (g ∷ gs) (plain, file, offset, extent, rest) =
    ground (arith, received gs rest, same g plain file offset)

pushed :
    (gs : List GrantorDescriptor) → InRange gs → push_grantors gs ≡ (map grantor_to_aidl gs, true)
unfolding push_grantors
pushed [] h = refl
pushed (g ∷ gs) (plain, file, offset, extent, rest) = ground (arith, pushed gs rest)

-- A descriptor whose numbers fit AIDL's, with a handle.
pub record Portable (grantors : List GrantorDescriptor) (quantum flags : ℕ) : Type 0 where
  pub in_range : InRange grantors
  pub quantum_fits : quantum < 2 ^ 31
  pub flags_fit : flags < 2 ^ 31

-- The files of a handle, and its integers.
abbrev pub files : NativeHandle → List ℕ
files h = take h.num_fds h.data_words

abbrev pub integers : NativeHandle → List ℕ
integers h = take h.num_ints (drop h.num_fds h.data_words)

-- What AIDL carries for it.
abbrev pub carried : (ℕ → ℕ) → List GrantorDescriptor → ℕ → ℕ → NativeHandle → AidlDescriptor
carried dup grantors quantum flags h = record {
  grantors = map grantor_to_aidl grantors;
  fds = map dup (files h);
  ints = integers h;
  quantum = u32 quantum;
  flags = u32 flags;
}

module _ (create : CreateHandle) (dup : ℕ → ℕ) (grantors : List GrantorDescriptor)
    (quantum flags : ℕ) (h made : NativeHandle) (portable : Portable grantors quantum flags)
    (room : create (length (map dup (files h))) (length (integers h)) ≡ some made) where
  -- The descriptor on the other side.
  abbrev pub arrived : Shim
  arrived = record {
    grantors = grantors;
    handle = some (record made { data_words = map dup (map dup (files h)) ++ integers h });
    quantum = quantum;
    flags = flags;
  }

  open portable use {in_range, quantum_fits, flags_fit}

  arrives : from_aidl create dup (carried dup grantors quantum flags h) ≡ arrived
  unfolding from_aidl
  arrives =
      let e : u32 quantum ≡ quantum = omega arith in
      let e' : u32 flags ≡ flags = omega arith in
      let p : negative32 quantum ≡ false = ground arith in
      let p' : negative32 flags ≡ false = ground arith in
      rw
        (
          from_aidl,
          received grantors in_range,
          e,
          e',
          room,
          p,
          p',
          received grantors in_range,
          e,
          e',
        )
        refl

  -- A shim with a handle, whose grantors have no flags and whose numbers fit the signed ones of AIDL:
  -- `dupeDesc` makes a descriptor from which the shim's constructor, where there is memory for its
  -- handle, makes a shim with the same grantors, message size and flags, and a handle with
  -- the same integers and duplicates of the files.
  pub dupe_desc-from_aidl :
      (desc : AidlDescriptor) × (dupe_desc dup
          (some (record { grantors = grantors; handle = some h; quantum = quantum; flags = flags }))
        ≡ some desc)
      × (from_aidl create dup desc ≡ arrived)
  unfolding dupe_desc
  dupe_desc-from_aidl = (carried dup grantors quantum flags h, refl, arrives)

  sent :
      (flavor : MqFlavor)
      → flags ≡ flavor_value flavor
      → hidl_to_aidl flavor dup
          (record { grantors = grantors; handle = some h; quantum = quantum; flags = flags })
          no_descriptor
        ≡ some (true, carried dup grantors quantum flags h)
  unfolding hidl_to_aidl
  sent flavor e =
      let p : negative32 (u32 quantum) ≡ false = ground arith in
      let p' : negative32 (u32 flags) ≡ false = ground arith in
      let same_flavor : (flags == flavor_value flavor) ≡ true = ground (arith, e) in
      rw (hidl_to_aidl, pushed grantors in_range, p, p', same_flavor) refl

  -- A HIDL descriptor with a handle, whose grantors have no flags and whose numbers fit the signed
  -- ones of AIDL, with the flags of the flavor that is asked for: `unsafeHidlToAidlMQDescriptor` to
  -- an empty AIDL descriptor succeeds, and from its result the shim's constructor, where there is
  -- memory for its handle, makes a shim with the same grantors, message size and flags, and a handle
  -- with the same integers and duplicates of the files.
  pub hidl_to_aidl-from_aidl :
      (flavor : MqFlavor)
      → flags ≡ flavor_value flavor
      → (desc : AidlDescriptor) × (hidl_to_aidl flavor dup
            (record { grantors = grantors; handle = some h; quantum = quantum; flags = flags })
            no_descriptor
          ≡ some (true, desc))
        × (from_aidl create dup desc ≡ arrived)
  hidl_to_aidl-from_aidl flavor e = (carried dup grantors quantum flags h, sent flavor e, arrives)

-- The file of a grantor may have an index that AIDL cannot hold: the conversion of a descriptor
-- with that one grantor succeeds, and its result gives a shim without a handle.
pub hidl_to_aidl_file :
    (create : CreateHandle) (dup : ℕ → ℕ) (flavor : MqFlavor) (h : NativeHandle)
    (g : GrantorDescriptor) (quantum : ℕ)
    → 2 ^ 31 ≤ g.fd_index
    → g.fd_index < 2 ^ 32
    → g.offset < 2 ^ 31
    → g.extent < 2 ^ 63
    → quantum < 2 ^ 31
    → (desc : AidlDescriptor) × (hidl_to_aidl flavor dup
          (record {
            grantors = g ∷ [];
            handle = some h;
            quantum = quantum;
            flags = flavor_value flavor;
          })
          no_descriptor
        ≡ some (true, desc))
      × (is_handle_valid (from_aidl create dup desc) ≡ false)
unfolding hidl_to_aidl push_grantors from_aidl grantors_from_aidl is_handle_valid flavor_value
hidl_to_aidl_file create dup synchronized_read_write h g quantum big small offset extent fits =
    (carried dup (g ∷ []) quantum 1 h, ground arith, ground arith)
hidl_to_aidl_file create dup unsynchronized_write h g quantum big small offset extent fits =
    (carried dup (g ∷ []) quantum 2 h, ground arith, ground arith)
