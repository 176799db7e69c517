-- ===== src/AidlQueue/Copies.antt =====
-- What the copies of a shim keep.
use android_system_libfmq.Base.{
  ℕ, suc, ◌≡◌, refl, sym, ap, ap₂, ◌∙◌, some, List, [], ◌∷◌, ◌++◌, map, take, drop, length,
}
use android_system_libfmq.Descriptor.{GrantorDescriptor}
use android_system_libfmq.Shim.{NativeHandle}
use android_system_libfmq.Convert.{CreateHandle, assign}

take-append : (xs ys : List ℕ) → take (length xs) (xs ++ ys) ≡ xs
take-append [] ys = refl
take-append (x ∷ xs) ys = ap (λ t. x ∷ t) (take-append xs ys)

drop-append : (xs ys : List ℕ) → drop (length xs) (xs ++ ys) ≡ ys
drop-append [] ys = refl
drop-append (x ∷ xs) ys = drop-append xs ys

take-length : (xs : List ℕ) → take (length xs) xs ≡ xs
take-length [] = refl
take-length (x ∷ xs) = ap (λ t. x ∷ t) (take-length xs)

-- A handle with these files and integers.
pub record Holds (h : NativeHandle) (files integers : List ℕ) : Type 0 where
  pub words : h.data_words ≡ files ++ integers
  pub as_many_files : h.num_fds ≡ length files
  pub as_many_integers : h.num_ints ≡ length integers

-- A handle that `native_handle_create` makes has the numbers that it is asked for.
abbrev pub Sized : CreateHandle → Type 0
Sized create =
    (a b : ℕ) (h : NativeHandle) → create a b ≡ some h → (h.num_fds ≡ a) × (h.num_ints ≡ b)

pub length-map : (f : ℕ → ℕ) (xs : List ℕ) → length (map f xs) ≡ length xs
length-map f [] = refl
length-map f (x ∷ xs) = ap suc (length-map f xs)

module _ {h : NativeHandle} {fds ints : List ℕ} (holds : Holds h fds ints) where
  pub all_files : take h.num_fds h.data_words ≡ fds
  all_files = ap₂ take holds.as_many_files holds.words ∙ take-append fds ints

  pub all_integers : take h.num_ints (drop h.num_fds h.data_words) ≡ ints
  all_integers =
      ap₂ take holds.as_many_integers
        (ap₂ drop holds.as_many_files holds.words ∙ drop-append fds ints)
      ∙ take-length ints

module _ (create : CreateHandle) (dup : ℕ → ℕ) (sized : Sized create)
    (grantors : List GrantorDescriptor) (quantum flags : ℕ) (h made : NativeHandle)
    (files integers : List ℕ) (holds : Holds h files integers)
    (room : create (length files) (length integers) ≡ some made) where
  abbrev pub copy_handle : NativeHandle
  copy_handle = record made { data_words = map dup files ++ integers }

  made_room : create h.num_fds h.num_ints ≡ some made
  made_room = ap₂ create holds.as_many_files holds.as_many_integers ∙ room

  copy_handle-Holds : Holds copy_handle (map dup files) integers
  copy_handle-Holds =
      let (as_many, as_many') = sized (length files) (length integers) made room in
      record {
        words = refl;
        as_many_files = as_many ∙ sym (length-map dup files);
        as_many_integers = as_many';
      }

  -- `operator=` on a shim with a handle, where there is memory for another: everything is the same
  -- but for the files, which are duplicates.
  pub assign-handle :
      (assign create dup
          (record { grantors = grantors; handle = some h; quantum = quantum; flags = flags })
        ≡ some (record {
          grantors = grantors;
          handle = some copy_handle;
          quantum = quantum;
          flags = flags;
        }))
      × Holds copy_handle (map dup files) integers
  unfolding assign
  assign-handle = (rw (made_room, all_files holds, all_integers holds) refl, copy_handle-Holds)
