-- ===== src/AidlQueue/Peer.antt =====
-- The descriptor of a queue in a second process, and the memory that both map.
use android_system_libfmq.Base.{
  ℕ, zero, suc, ◌+◌, ◌<◌, ◌≡◌, refl, sym, ap, ap₂, ◌∙◌, arith, Option, none, some, List, [], ◌∷◌,
  ◌++◌, map, length, ◌>>=◌, get_elem?, get_elem?-append_left,
}
use mathlib.Core.Path.{subst}
use android_system_libfmq.Memory.{add64, Memory}
use android_system_libfmq.Flavor.{synchronized_read_write, unsynchronized_write}
use android_system_libfmq.Descriptor.{GrantorDescriptor, read_ptr_pos}
use android_system_libfmq.Shim.{NativeHandle, Shim}
use android_system_libfmq.Convert.{AidlDescriptor, from_aidl, assign, dupe_desc}
use android_system_libfmq.Convert.RoundTrip.{Portable, files, integers, dupe_desc-from_aidl}
use android_system_libfmq.Convert.Peer.{InHandle, at_grantor, in_handle}
use android_system_libfmq.Mapping.{
  Pointer, Counter, shared, own, World, Host, map_read_counter, map_offset, page_distance,
  map_grantor_descr, Mmap,
}
use android_system_libfmq.AidlQueue.{Process}
use android_system_libfmq.AidlQueue.Copies.{
  Holds, Sized, length-map, all_files, all_integers, assign-handle,
}

-- The bytes of an open file from a pointer on.
abbrev pub memory_at : (ℕ → ℕ → ℕ) → (ℕ → ℕ) → Pointer → Memory
memory_at bytes file_of p a = bytes (file_of p.file) (p.position + a)

-- Two processes see the same words of the same open files.
abbrev pub SameFiles : (ℕ → ℕ) → World → World → Type 0
SameFiles file_of w w' =
    (f g position : ℕ) → file_of g ≡ file_of f → w'.words g position ≡ w.words f position

-- Both pointers are to one byte.
abbrev pub OneByte : (ℕ → ℕ) → Pointer → Pointer → Type 0
OneByte file_of p p' = (file_of p'.file ≡ file_of p.file) × (p'.position ≡ p.position)

-- A shared read counter is a mapped grantor.
mapped_counter :
    (found : Option (Option Pointer)) (r : Counter)
    → (found >>= (λ p. p) >>= λ p. some (shared p)) ≡ some r
    → (p : Pointer) × (r ≡ shared p) × (found ≡ some (some p))
mapped_counter none r e = cc e
mapped_counter (some none) r e = cc e
mapped_counter (some (some p)) r e = (p, cc e, refl)

pub shared_counter :
    (host : Host) (d : Shim) (r : Counter)
    → map_read_counter host synchronized_read_write d ≡ some r
    → (p : Pointer) × (r ≡ shared p) × (map_grantor_descr host.mmap d read_ptr_pos ≡ some (some p))
unfolding map_read_counter
shared_counter host d r e = mapped_counter (map_grantor_descr host.mmap d read_ptr_pos) r e

pub own_counter :
    (host : Host) (d : Shim) (r : Counter)
    → map_read_counter host unsynchronized_write d ≡ some r
    → r ≡ own
unfolding map_read_counter
own_counter host d r e = ground (arith, e)

-- A file of a handle, among duplicates of duplicates of duplicates.
thrice :
    (dup : ℕ → ℕ) (xs rest : List ℕ) (i f : ℕ)
    → i < length xs
    → get_elem? xs i ≡ some f
    → get_elem? (map dup (map dup (map dup xs)) ++ rest) i ≡ some (dup (dup (dup f)))
thrice dup [] rest i f h e = absurd (omega arith)
thrice dup (x ∷ xs) rest zero f h e = ap (λ (t : Option ℕ). t >>= λ z. some (dup (dup (dup z)))) e
thrice dup (x ∷ xs) rest (suc i) f h e = thrice dup xs rest i f (omega arith) e

module _ (process : Process) (sized : Sized process.native_handle_create)
    (grantors : List GrantorDescriptor) (quantum flags : ℕ) (h made : NativeHandle)
    (portable : Portable grantors quantum flags) (fds ints : List ℕ) (holds : Holds h fds ints)
    (room : process.native_handle_create (length fds) (length ints) ≡ some made) where
  open process use {native_handle_create, dup}

  abbrev pub owner : Shim
  owner = record { grantors = grantors; handle = some h; quantum = quantum; flags = flags }

  -- The descriptor of the queue in the second process: its files are duplicated by `dupeDesc`, by
  -- the shim's constructor, and by the copy that the queue has.
  abbrev pub joined : Shim
  joined = record {
    grantors = grantors;
    handle = some (record made { data_words = map dup (map dup (map dup fds)) ++ ints });
    quantum = quantum;
    flags = flags;
  }

  unfoldable pub sent_handle : NativeHandle
  sent_handle = record made { data_words = map dup (map dup fds) ++ ints }

  sent_handle-Holds : Holds sent_handle (map dup (map dup fds)) ints
  unfolding sent_handle
  sent_handle-Holds =
      let (as_many, as_many') = sized (length fds) (length ints) made room in
      record {
        words = refl;
        as_many_files = as_many ∙ sym (length-map dup (map dup fds) ∙ length-map dup fds);
        as_many_integers = as_many';
      }

  pub arrives :
      (desc : AidlDescriptor) × (dupe_desc dup (some owner) ≡ some desc)
      × (from_aidl native_handle_create dup desc ≡ record {
        grantors = grantors;
        handle = some sent_handle;
        quantum = quantum;
        flags = flags;
      })
  unfolding sent_handle
  arrives =
      let room' : native_handle_create (length (map dup (files h))) (length (integers h))
          ≡ some made =
        rw (all_files holds, all_integers holds, length-map dup fds) room in
      let (desc, sent, received) =
        dupe_desc-from_aidl native_handle_create dup grantors quantum flags h made portable room' in
      (desc, sent, received ∙ rw (all_files holds, all_integers holds) refl)

  pub copies :
      assign native_handle_create dup (record {
        grantors = grantors;
        handle = some sent_handle;
        quantum = quantum;
        flags = flags;
      })
      ≡ some joined
  copies =
      (assign-handle native_handle_create dup sized grantors quantum flags sent_handle made
        (map dup (map dup fds)) ints sent_handle-Holds
        (ap₂ native_handle_create (length-map dup (map dup fds) ∙ length-map dup fds) refl
          ∙ room)).0

  -- Both processes map one grantor at the same byte of the same open file, where `dup` gives a
  -- descriptor of the same open file.
  pub one_byte :
      (file_of : ℕ → ℕ)
      → ((f : ℕ) → file_of (dup f) ≡ file_of f)
      → InHandle (length fds) grantors
      → (mmap mmap' : Mmap) (i : ℕ) (p p' : Pointer)
      → map_grantor_descr mmap owner i ≡ some (some p)
      → map_grantor_descr mmap' joined i ≡ some (some p')
      → OneByte file_of p p'
  one_byte file_of same inside mmap mmap' i p p' mapped mapped' =
      let (g, there, file, position) =
        at_grantor mmap grantors h quantum flags i p (get_elem? grantors i) refl mapped in
      let (g', there', file', position') =
        at_grantor mmap' grantors _ quantum flags i p' (get_elem? grantors i) refl mapped' in
      let one : g' ≡ g = cc (there, there') in
      let below = in_handle (length fds) grantors i g inside there in
      let found : get_elem? fds g.fd_index ≡ some p.file =
        sym (get_elem?-append_left fds ints g.fd_index below)
        ∙ ap (λ ws. get_elem? ws g.fd_index) (sym holds.words)
        ∙ file in
      let found' = thrice dup fds ints g.fd_index p.file below found in
      let other : p'.file ≡ dup (dup (dup p.file)) = cc (
        found',
        subst (λ z. get_elem? (map dup (map dup (map dup fds)) ++ ints) z.fd_index ≡ some p'.file)
            one file',
      ) in
      (
        ap file_of other ∙ same (dup (dup p.file)) ∙ same (dup p.file) ∙ same p.file,
        position' ∙ ap (λ z. add64 (map_offset z) (page_distance z)) one ∙ sym position,
      )
