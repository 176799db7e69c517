-- ===== src/Parcel/Compare.antt =====
-- The comparison operators of the parcelables under generated_files, which compare
-- `std::tie(...)` of their fields in the order of the source, and so compare tuples, vectors and
-- numbers as C++ does. A signed number is its two's complement pattern. The operators of
-- `ScopedFileDescriptor` are a parameter.
pub mod Laws
pub mod Order
mod Tests
use android_system_libfmq.Base.{
  ℕ, ◌+◌, ◌%◌, ◌^◌, Bool, true, false, not, ◌&&◌, ◌||◌, List, [], ◌∷◌, ltb, ◌==◌, if◌then◌else◌,
}
use android_system_libfmq.Convert.{AidlGrantor}
use android_system_libfmq.Parcel.Types.{AidlNativeHandle, Ashmem, MappableFile, AidlMqDescriptor}

-- `operator<` and `operator==` of a type.
pub record Comparison (A : Type 0) : Type 0 where
  pub less : A → A → Bool
  pub equal : A → A → Bool

-- All six, which each parcelable has.
pub record Operators (A : Type 0) : Type 0 where
  pub not_equal : A → A → Bool
  pub less : A → A → Bool
  pub less_equal : A → A → Bool
  pub equal : A → A → Bool
  pub greater : A → A → Bool
  pub greater_equal : A → A → Bool

-- A number of `2 * half` patterns, the upper half of which are negative.
unfoldable pub signed_less : ℕ → ℕ → ℕ → Bool
signed_less half a b = ltb ((a + half) % (half + half)) ((b + half) % (half + half))

unfoldable pub int32 : Comparison ℕ
unfolding signed_less
int32 = record { less = signed_less (2 ^ 31); equal = ◌==◌ }

unfoldable pub int64 : Comparison ℕ
unfolding signed_less
int64 = record { less = signed_less (2 ^ 63); equal = ◌==◌ }

module _ {A : Type 0} (c : Comparison A) where
  unfoldable pub vector_less : List A → List A → Bool
  vector_less [] [] = false
  vector_less [] (b ∷ bs) = true
  vector_less (a ∷ as₁) [] = false
  vector_less (a ∷ as₁) (b ∷ bs) = c.less a b || (not (c.less b a) && vector_less as₁ bs)

  unfoldable pub vector_equal : List A → List A → Bool
  vector_equal [] [] = true
  vector_equal [] (b ∷ bs) = false
  vector_equal (a ∷ as₁) [] = false
  vector_equal (a ∷ as₁) (b ∷ bs) = c.equal a b && vector_equal as₁ bs

  unfoldable pub vector : Comparison (List A)
  unfolding vector_less vector_equal
  vector = record { less = vector_less; equal = vector_equal }

-- A tuple is a pair of its first field and the rest.
unfoldable pub tuple : {A B : Type 0} → Comparison A → Comparison B → Comparison (A × B)
tuple c rest = record {
  less = λ (a, b) (a', b'). c.less a a' || (not (c.less a' a) && rest.less b b');
  equal = λ (a, b) (a', b'). c.equal a a' && rest.equal b b';
}

-- The operators of a type that compare what `tie` gives.
unfoldable pub operators : {A K : Type 0} → (A → K) → Comparison K → Operators A
operators tie c = record {
  not_equal = λ a b. not (c.equal (tie a) (tie b));
  less = λ a b. c.less (tie a) (tie b);
  less_equal = λ a b. not (c.less (tie b) (tie a));
  equal = λ a b. c.equal (tie a) (tie b);
  greater = λ a b. c.less (tie b) (tie a);
  greater_equal = λ a b. not (c.less (tie a) (tie b));
}

-- A parcelable as a field of another.
abbrev pub of_operators : {A : Type 0} → Operators A → Comparison A
of_operators o = record { less = o.less; equal = o.equal }

unfoldable pub grantor_operators : Operators AidlGrantor
unfolding operators tuple int32 int64
grantor_operators =
    operators (λ g. (g.fd_index, (g.offset, g.extent))) (tuple int32 (tuple int32 int64))

module _ {Fd : Type 0} (file : Comparison Fd) where
  unfoldable pub native_handle_operators : Operators (AidlNativeHandle Fd)
  unfolding operators tuple vector int32
  native_handle_operators = operators (λ h. (h.fds, h.ints)) (tuple (vector file) (vector int32))

  unfoldable pub ashmem_operators : Operators (Ashmem Fd)
  unfolding operators tuple int64
  ashmem_operators = operators (λ a. (a.fd, a.size)) (tuple file int64)

  unfoldable pub mappable_file_operators : Operators (MappableFile Fd)
  unfolding operators tuple int32 int64
  mappable_file_operators =
      operators (λ f. (f.length, (f.prot, (f.fd, f.offset))))
        (tuple int64 (tuple int32 (tuple file int64)))

  unfoldable pub mq_descriptor_operators : Operators (AidlMqDescriptor Fd)
  unfolding operators tuple vector int32 grantor_operators native_handle_operators
  mq_descriptor_operators =
      operators (λ d. (d.grantors, (d.handle, (d.quantum, d.flags))))
        (tuple (vector (of_operators grantor_operators))
          (tuple (of_operators native_handle_operators) (tuple int32 int32)))
