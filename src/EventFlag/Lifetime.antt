-- ===== src/EventFlag/Lifetime.antt =====
-- `createEventFlag`, `deleteEventFlag`, the constructor, the destructor and `unmapEventFlagWord` of
-- EventFlag.cpp. Memory allocation and `munmap` are parameters.
use android_system_libfmq.Base.{
  ℕ, ◌≡◌, ◌⊎◌, inl, inr, refl, Bool, true, false, Option, none, some, List, [], ◌∷◌, ◌++◌,
  if◌then◌else◌,
}
use android_system_libfmq.EventFlag.{
  Status, no_error, bad_value, no_memory, Returned, success, failure,
}

-- `mEfWordPtr`, by its address, and `mEfWordNeedsUnmapping`.
pub record Flag : Type 0 where
  pub word_ptr : Option ℕ
  pub needs_unmapping : Bool

-- The constructor for a word that is known, and the status that it sets.
unfoldable pub flag_of : Option ℕ → Flag × Status
flag_of none = (record { word_ptr = none; needs_unmapping = false }, bad_value)
flag_of (some addr) = (record { word_ptr = some addr; needs_unmapping = false }, no_error)

abbrev is_no_error : Status → Bool
is_no_error no_error = true
is_no_error status = false

-- `flag` is a pointer to a pointer: `none` is null, `some none` points to null. `allocated` says
-- whether there is memory for the object.
unfoldable pub create_event_flag :
    Bool → Option ℕ → Option (Option Flag) → Status × Option (Option Flag)
unfolding flag_of
create_event_flag allocated addr none = (bad_value, none)
create_event_flag false addr (some flag) = (no_memory, some none)
create_event_flag true addr (some flag) =
    let (made, status) = flag_of addr in
    (status, some (if is_no_error status then some made else none))

-- The status, the flag, and the words that were unmapped.
unfoldable pub unmap_event_flag_word :
    (Option ℕ → Returned) → Flag → Status × Flag × List (Option ℕ)
unmap_event_flag_word munmap flag =
    if flag.needs_unmapping
    then (
      elim (munmap flag.word_ptr) [ success ↦ no_error | failure status ↦ status ],
      record flag { needs_unmapping = false },
      flag.word_ptr ∷ [],
    )
    else (no_error, flag, [])

-- `delete *evFlag` runs the destructor, which unmaps again what still needs it.
unfoldable pub delete_event_flag :
    (Option ℕ → Returned) → Option (Option Flag) → Status × Option (Option Flag) × List (Option ℕ)
unfolding unmap_event_flag_word
delete_event_flag munmap none = (bad_value, none, [])
delete_event_flag munmap (some none) = (bad_value, some none, [])
delete_event_flag munmap (some (some flag)) =
    let (status, unmapped, first) = unmap_event_flag_word munmap flag in
    let (_, _, second) = unmap_event_flag_word munmap unmapped in
    (status, some none, first ++ second)

-- What `createEventFlag` makes, `deleteEventFlag` removes: the pointer is null again, the call
-- succeeds, and the word is not unmapped, since it belongs to the queue.
pub create-delete :
    (munmap : Option ℕ → Returned) (addr : ℕ) (flag : Option Flag)
    → let (status, made) = create_event_flag true (some addr) (some flag) in
      (status ≡ no_error) × (delete_event_flag munmap made ≡ (no_error, some none, []))
unfolding create_event_flag delete_event_flag unmap_event_flag_word
create-delete munmap addr flag = (refl, refl)

-- Where no flag is made, the pointer is null and the status says why: there is no memory, or the
-- address of the word is null.
pub create_event_flag_fails :
    (allocated : Bool) (addr : Option ℕ) (flag : Option Flag)
    → let (status, made) = create_event_flag allocated addr (some flag) in
      made ≡ some none
      → (allocated ≡ false) × (status ≡ no_memory) ⊎ (addr ≡ none) × (status ≡ bad_value)
unfolding create_event_flag
create_event_flag_fails false addr flag e = inl (refl, refl)
create_event_flag_fails true none flag e = inr (refl, refl)
create_event_flag_fails true (some addr) flag e = cc

-- A word that needs unmapping is unmapped once.
delete_unmaps :
    (munmap : Option ℕ → Returned) (flag : Flag)
    → flag.needs_unmapping ≡ true
    → (delete_event_flag munmap (some (some flag))).2 ≡ flag.word_ptr ∷ []
unfolding delete_event_flag unmap_event_flag_word
delete_unmaps munmap flag h = rw h refl
