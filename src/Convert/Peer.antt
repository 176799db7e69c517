-- ===== src/Convert/Peer.antt =====
-- Two processes with one queue: the descriptor that `dupeDesc` makes in one is mapped by the
-- constructor of the other.
use android_system_libfmq.Base.{
  ℕ, zero, suc, ◌<◌, ◌≡◌, refl, sym, ap, ◌∙◌, arith, Option, none, some, List, [], ◌∷◌, ◌++◌, map,
  take, length, get_elem?, ◌>>=◌,
}
use mathlib.Core.Path.{subst}
use android_system_libfmq.Memory.{add64}
use android_system_libfmq.Descriptor.{GrantorDescriptor}
use android_system_libfmq.Shim.{NativeHandle, Shim}
use android_system_libfmq.Convert.{AidlDescriptor, CreateHandle, from_aidl, dupe_desc}
use android_system_libfmq.Convert.RoundTrip.{
  Portable, files, integers, arrived, dupe_desc-from_aidl,
}
use android_system_libfmq.Mapping.{
  Pointer, pointer, Mmap, map_offset, map_length, page_distance, map_grantor_descr,
}

-- A file of a handle, among the duplicates of duplicates.
twice_duped :
    (dup : ℕ → ℕ) (words rest : List ℕ) (n i f : ℕ)
    → i < n
    → get_elem? words i ≡ some f
    → get_elem? (map dup (map dup (take n words)) ++ rest) i ≡ some (dup (dup f))
twice_duped dup words rest zero i f h e = absurd (omega arith)
twice_duped dup [] rest (suc n) i f h e = cc
twice_duped dup (x ∷ xs) rest (suc n) zero f h e =
    ap (λ (t : Option ℕ). t >>= λ z. some (dup (dup z))) e
twice_duped dup (x ∷ xs) rest (suc n) (suc i) f h e = twice_duped dup xs rest n i f (omega arith) e

-- The files of the grantors are among the first `n` words.
abbrev pub InHandle : ℕ → List GrantorDescriptor → Type 0
InHandle n [] = Unit
InHandle n (g ∷ gs) = (g.fd_index < n) × InHandle n gs

pub in_handle :
    (n : ℕ) (gs : List GrantorDescriptor) (i : ℕ) (g : GrantorDescriptor)
    → InHandle n gs
    → get_elem? gs i ≡ some g
    → g.fd_index < n
in_handle n [] i g own e = cc e
in_handle n (x ∷ xs) zero g own e =
    let same : x ≡ g = cc e in subst (λ z. z.fd_index < n) same own.0
in_handle n (x ∷ xs) (suc i) g own e = in_handle n xs i g own.1 e

-- What a grantor that is mapped names.
abbrev pub Named : List GrantorDescriptor → NativeHandle → ℕ → Pointer → Type 0
Named gs h i p =
    (g : GrantorDescriptor) × (get_elem? gs i ≡ some g)
    × (get_elem? h.data_words g.fd_index ≡ some p.file)
    × (p.position ≡ add64 (map_offset g) (page_distance g))

at_address :
    (g : GrantorDescriptor) (file : ℕ) (p : Pointer) (a : Option ℕ)
    → some (a >>= λ address. some (pointer file g address)) ≡ some (some p)
    → (p.file ≡ file) × (p.position ≡ add64 (map_offset g) (page_distance g))
at_address g file p none e = cc e
at_address g file p (some address) e =
    let same : pointer file g address ≡ p = cc e in
    (sym (ap (λ (z : Pointer). z.file) same), sym (ap (λ (z : Pointer). z.position) same))

at_file :
    (mmap : Mmap) (gs : List GrantorDescriptor) (h : NativeHandle) (i : ℕ) (g : GrantorDescriptor)
    (p : Pointer) (file : Option ℕ)
    → get_elem? gs i ≡ some g
    → get_elem? h.data_words g.fd_index ≡ file
    → (file >>= λ f.
        some (mmap f (map_offset g) (map_length g) >>= λ address. some (pointer f g address)))
      ≡ some (some p)
    → Named gs h i p
at_file mmap gs h i g p none there found e = cc e
at_file mmap gs h i g p (some f) there found e =
    let (file, position) = at_address g f p (mmap f (map_offset g) (map_length g)) e in
    (g, there, found ∙ ap some (sym file), position)

pub at_grantor :
    (mmap : Mmap) (gs : List GrantorDescriptor) (h : NativeHandle) (quantum flags i : ℕ)
    (p : Pointer) (found : Option GrantorDescriptor)
    → get_elem? gs i ≡ found
    → map_grantor_descr mmap
        (record { grantors = gs; handle = some h; quantum = quantum; flags = flags })
        i
      ≡ some (some p)
    → Named gs h i p
unfolding map_grantor_descr
at_grantor mmap gs h quantum flags i p none there e = cc (rw (map_grantor_descr, there) at e)
at_grantor mmap gs h quantum flags i p (some g) there e =
    at_file mmap gs h i g p (get_elem? h.data_words g.fd_index) there refl
      (rw (map_grantor_descr, there) at e)

module _ (create : CreateHandle) (dup : ℕ → ℕ) (grantors : List GrantorDescriptor)
    (quantum flags : ℕ) (h made : NativeHandle) (portable : Portable grantors quantum flags)
    (room : create (length (map dup (files h))) (length (integers h)) ≡ some made) where
  abbrev pub here : Shim
  here = record { grantors = grantors; handle = some h; quantum = quantum; flags = flags }

  -- A shim with a handle, whose grantors have no flags, files of the handle, and numbers that fit
  -- AIDL's, where `dup` gives a descriptor of the same open file (`file_of`): when `dupeDesc` has
  -- made a descriptor, another process has made a shim of it, with memory for the handle, and both
  -- map the same grantor, each with its own `mmap`, then both pointers are to the same byte of the
  -- same file. So both sides of a queue have their counters, ring and event flag word in common.
  pub map_grantor_descr-dupe_desc :
      (file_of : ℕ → ℕ)
      → ((f : ℕ) → file_of (dup f) ≡ file_of f)
      → InHandle h.num_fds grantors
      → (desc : AidlDescriptor) (mmap mmap' : Mmap) (i : ℕ) (p p' : Pointer)
      → dupe_desc dup (some here) ≡ some desc
      → map_grantor_descr mmap here i ≡ some (some p)
      → map_grantor_descr mmap' (from_aidl create dup desc) i ≡ some (some p')
      → (file_of p'.file ≡ file_of p.file) × (p'.position ≡ p.position)
  map_grantor_descr-dupe_desc file_of same own desc mmap mmap' i p p' duped mapped mapped' =
      let (desc₁, duped₁, arrives) =
        dupe_desc-from_aidl create dup grantors quantum flags h made portable room in
      let received : from_aidl create dup desc
          ≡ arrived create dup grantors quantum flags h made portable room =
        ap (from_aidl create dup) (cc (duped, duped₁)) ∙ arrives in
      let (g, there, file, position) =
        at_grantor mmap grantors h quantum flags i p (get_elem? grantors i) refl mapped in
      let (g', there', file', position') =
        at_grantor mmap' grantors _ quantum flags i p' (get_elem? grantors i) refl
          (rw received at mapped') in
      let one : g' ≡ g = cc (there, there') in
      let found =
        twice_duped dup h.data_words (integers h) h.num_fds g.fd_index p.file
          (in_handle h.num_fds grantors i g own there) file in
      let other : p'.file ≡ dup (dup p.file) = cc (
        found,
        subst (λ z. get_elem? (map dup (map dup (files h)) ++ integers h) z.fd_index ≡ some p'.file)
            one file',
      ) in
      (
        ap file_of other ∙ same (dup p.file) ∙ same p.file,
        position' ∙ ap (λ z. add64 (map_offset z) (page_distance z)) one ∙ sym position,
      )
