-- ===== src/Create/Region.antt =====
-- The shared memory that a new queue asks for holds all that it puts there.
use android_system_libfmq.Base.{
  ℕ, ◌+◌, ◌-◌, ◌*◌, ◌/◌, ◌%◌, ◌^◌, ◌<◌, ◌≤◌, ◌≡◌, refl, arith, Bool, true, false, Option, some,
  List, [], ◌∷◌, bit_and_high, if◌then◌else◌, ◌==◌,
}
use Prim.Native.Nat.{bit_and}
use android_system_libfmq.Memory.{add64, sub64}
use android_system_libfmq.Descriptor.{GrantorDescriptor}
use android_system_libfmq.Descriptor.Align.{aligned, align_to_word_boundary_lem}
use android_system_libfmq.Shim.{NativeHandle, Shim, mem_sizes, from_sizes}
use android_system_libfmq.Flavor.{MqFlavor}
use android_system_libfmq.Shim.Layout.{needed, Laid, extents, from_sizes-Laid}
use android_system_libfmq.Mapping.{page_size}
use android_system_libfmq.Create.{metadata_size, page_aligned, ashmem_size, buffer_grantors}

abbrev grantor : ℕ → ℕ → ℕ → GrantorDescriptor
grantor file offset extent = record { flags = 0; fd_index = file; offset = offset; extent = extent }

bit_and_page : (x : ℕ) → x < 2 ^ 64 → bit_and x (2 ^ 64 - page_size) ≡ x / page_size * page_size
bit_and_page x h = bit_and_high 16 48 x h

-- The next multiple of the page size.
pub page_aligned_lem :
    (n : ℕ) → n + page_size ≤ 2 ^ 64 → page_aligned n ≡ (n + page_size - 1) / page_size * page_size
unfolding page_aligned
page_aligned_lem n h =
    let inner : sub64 (add64 n page_size) 1 ≡ n + page_size - 1 = omega arith in
    rw inner (bit_and_page (n + page_size - 1) (omega arith))

Laid-up : (low : ℕ) (gs : List GrantorDescriptor) (a b : ℕ) → a ≤ b → Laid low gs a → Laid low gs b
Laid-up low [] a b h laid = omega arith
Laid-up low (g ∷ gs) a b h (after, word, rest) =
    (after, word, Laid-up (g.offset + g.extent) gs a b h rest)

region :
    (b : ℕ) (ev : Bool)
    → b ≤ 2 ^ 31 - 24
    → (r : ℕ) × (ashmem_size b ev false ≡ some r)
      × (r % page_size ≡ 0)
      × (needed b ev ≤ r)
      × (r < needed b ev + page_size)
unfolding ashmem_size metadata_size
region b true h = (
  page_aligned (aligned b + 20),
  ground (arith, align_to_word_boundary_lem b),
  omega (arith, page_aligned_lem (aligned b + 20) (omega arith)),
  omega (arith, page_aligned_lem (aligned b + 20) (omega arith)),
  omega (arith, page_aligned_lem (aligned b + 20) (omega arith)),
)
region b false h = (
  page_aligned (aligned b + 16),
  ground (arith, align_to_word_boundary_lem b),
  omega (arith, page_aligned_lem (aligned b + 16) (omega arith)),
  omega (arith, page_aligned_lem (aligned b + 16) (omega arith)),
  omega (arith, page_aligned_lem (aligned b + 16) (omega arith)),
)

-- A queue whose ring takes `b` bytes, at most `2 ^ 31 - 24`, and whose messages are smaller than
-- `2 ^ 31`: the shared memory that it asks for is a whole number of pages, less than a page more
-- than is needed, and the grantors of its descriptor lie in it one after the other, aligned,
-- each with the size of its contents.
pub ashmem_size-from_sizes :
    (flavor : MqFlavor) (b : ℕ) (handle : Option NativeHandle) (m : ℕ) (ev : Bool)
    → b ≤ 2 ^ 31 - 24
    → m < 2 ^ 31
    → (s : Shim) × (r : ℕ) × (from_sizes flavor b handle m ev ≡ some s)
      × (ashmem_size b ev false ≡ some r)
      × (r % page_size ≡ 0)
      × (r < needed b ev + page_size)
      × Laid 0 s.grantors r
      × (extents s.grantors ≡ mem_sizes b ev)
ashmem_size-from_sizes flavor b handle m ev h k =
    let (s, made, laid, sizes, _, _, _) = from_sizes-Laid flavor b handle m ev h k in
    let (r, asked, whole, enough, near) = region b ev h in
    (s, r, made, asked, whole, near, Laid-up 0 s.grantors (needed b ev) r enough laid, sizes)

-- The grantors in one file.
abbrev pub in_file : ℕ → List GrantorDescriptor → List GrantorDescriptor
in_file file [] = []
in_file file (g ∷ gs) = if g.fd_index == file then g ∷ in_file file gs else in_file file gs

-- A queue on the caller's ring of `b` bytes: the counters and the event flag word lie one after the
-- other in the shared memory that the queue asks for, the ring fills the caller's
-- file from its start, and each grantor has the size of its contents.
pub ashmem_size-buffer_grantors :
    (b : ℕ) (ev : Bool)
    → (gs : List GrantorDescriptor) × (r : ℕ) × (buffer_grantors 0 0 (mem_sizes b ev) ≡ some gs)
      × (ashmem_size b ev true ≡ some r)
      × Laid 0 (in_file 0 gs) r
      × Laid 0 (in_file 1 gs) b
      × (extents gs ≡ mem_sizes b ev)
unfolding buffer_grantors ashmem_size metadata_size
ashmem_size-buffer_grantors b true = (
  _,
  page_aligned 20,
  own,
  refl,
  omega (arith, page_aligned_lem 20 (omega arith)),
  omega arith,
  refl,
)
  where
    own :
        buffer_grantors 0 0 (mem_sizes b true)
        ≡ some (grantor 0 0 8 ∷ grantor 0 8 8 ∷ grantor 1 0 b ∷ grantor 0 16 4 ∷ [])
    own = ground (
      arith,
      align_to_word_boundary_lem 0,
      align_to_word_boundary_lem 8,
      align_to_word_boundary_lem 16,
    )
ashmem_size-buffer_grantors b false = (
  _,
  page_aligned 16,
  own,
  refl,
  omega (arith, page_aligned_lem 16 (omega arith)),
  omega arith,
  refl,
)
  where
    own :
        buffer_grantors 0 0 (mem_sizes b false)
        ≡ some (grantor 0 0 8 ∷ grantor 0 8 8 ∷ grantor 1 0 b ∷ [])
    own = ground (arith, align_to_word_boundary_lem 0, align_to_word_boundary_lem 8)
