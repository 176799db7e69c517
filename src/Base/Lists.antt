-- ===== src/Base/Lists.antt =====
-- Lists measured by native numbers, and lists given by a function of the index.
use Prim.Native.Nat.{ℕ, zero, suc, ◌+◌, ◌-◌, ◌<◌, ◌≤◌}
use mathlib.Core.Path.{◌≡◌, refl, ap, ap₂, ◌∙◌}
use mathlib.Core.List.{List, [], ◌∷◌, ◌++◌}
use mathlib.Core.Option.{Option, none, some}
use native.Mathlib.Omega.{arith}

module _ {ℓ} {A : Type ℓ} where
  abbrev pub length : List A → ℕ
  length [] = 0
  length (x ∷ xs) = suc (length xs)

  abbrev pub get_elem? : List A → ℕ → Option A
  get_elem? [] i = none
  get_elem? (x ∷ xs) zero = some x
  get_elem? (x ∷ xs) (suc i) = get_elem? xs i

  abbrev pub take : ℕ → List A → List A
  take zero xs = []
  take (suc n) [] = []
  take (suc n) (x ∷ xs) = x ∷ take n xs

  abbrev pub drop : ℕ → List A → List A
  drop zero xs = xs
  drop (suc n) [] = []
  drop (suc n) (x ∷ xs) = drop n xs

  pub length-append : (xs ys : List A) → length (xs ++ ys) ≡ length xs + length ys
  length-append [] ys = omega arith
  length-append (x ∷ xs) ys = omega (arith, length-append xs ys)

  -- `f 0 ∷ f 1 ∷ … ∷ f (n - 1) ∷ []`
  abbrev pub tabulate : ℕ → (ℕ → A) → List A
  tabulate zero f = []
  tabulate (suc n) f = f 0 ∷ tabulate n (λ i. f (suc i))

  pub length-tabulate : (n : ℕ) (f : ℕ → A) → length (tabulate n f) ≡ n
  length-tabulate zero f = refl
  length-tabulate (suc n) f = ap suc (length-tabulate n (λ i. f (suc i)))

  -- Only the values below the length count.
  pub tabulate_ext :
      (n : ℕ) (f g : ℕ → A) → ((i : ℕ) → i < n → f i ≡ g i) → tabulate n f ≡ tabulate n g
  tabulate_ext zero f g h = refl
  tabulate_ext (suc n) f g h =
      ap₂ ◌∷◌ (h 0 (omega arith))
        (tabulate_ext n (λ i. f (suc i)) (λ i. g (suc i)) (λ i p. h (suc i) (omega arith)))

  pub tabulate-add :
      (m n : ℕ) (f : ℕ → A) → tabulate (m + n) f ≡ tabulate m f ++ tabulate n (λ i. f (m + i))
  tabulate-add zero n f =
      let e : zero + n ≡ n = omega arith in
      rw e (tabulate_ext n f (λ i. f (zero + i)) (λ i _. ap f (omega arith)))
  tabulate-add (suc m) n f =
      let e : suc m + n ≡ suc (m + n) = omega arith in
      rw (e, tabulate-add m n (λ i. f (suc i)))
        (ap (λ t. f 0 ∷ (tabulate m (λ i. f (suc i)) ++ t))
          (tabulate_ext n (λ i. f (suc (m + i))) (λ i. f (suc m + i)) (λ i _. ap f (omega arith))))

  pub take-tabulate : (m n : ℕ) (f : ℕ → A) → m ≤ n → take m (tabulate n f) ≡ tabulate m f
  take-tabulate zero n f h = refl
  take-tabulate (suc m) zero f h = absurd (omega arith)
  take-tabulate (suc m) (suc n) f h =
      ap (λ t. f 0 ∷ t) (take-tabulate m n (λ i. f (suc i)) (omega arith))

  pub drop-tabulate :
      (m n : ℕ) (f : ℕ → A) → m ≤ n → drop m (tabulate n f) ≡ tabulate (n - m) (λ i. f (m + i))
  drop-tabulate zero n f h =
      let e : n - zero ≡ n = omega arith in
      rw e (tabulate_ext n f (λ i. f (zero + i)) (λ i _. ap f (omega arith)))
  drop-tabulate (suc m) zero f h = absurd (omega arith)
  drop-tabulate (suc m) (suc n) f h =
      let e : suc n - suc m ≡ n - m = omega arith in
      rw (e, drop-tabulate m n (λ i. f (suc i)) (omega arith))
        (tabulate_ext (n - m) (λ i. f (suc (m + i))) (λ i. f (suc m + i))
          (λ i _. ap f (omega arith)))

  pub take-drop : (n : ℕ) (xs : List A) → take n xs ++ drop n xs ≡ xs
  take-drop zero xs = refl
  take-drop (suc n) [] = refl
  take-drop (suc n) (x ∷ xs) = ap (λ t. x ∷ t) (take-drop n xs)

  pub length-take : (n : ℕ) (xs : List A) → n ≤ length xs → length (take n xs) ≡ n
  length-take zero xs h = refl
  length-take (suc n) [] h = absurd (omega arith)
  length-take (suc n) (x ∷ xs) h = ap suc (length-take n xs (omega arith))

  pub get_elem?-append_left :
      (xs ys : List A) (i : ℕ) → i < length xs → get_elem? (xs ++ ys) i ≡ get_elem? xs i
  get_elem?-append_left [] ys i h = absurd (omega arith)
  get_elem?-append_left (x ∷ xs) ys zero h = refl
  get_elem?-append_left (x ∷ xs) ys (suc i) h = get_elem?-append_left xs ys i (omega arith)

  pub get_elem?-append_right :
      (xs ys : List A) (i : ℕ) → get_elem? (xs ++ ys) (length xs + i) ≡ get_elem? ys i
  get_elem?-append_right [] ys i = ap (get_elem? ys) (omega arith)
  get_elem?-append_right (x ∷ xs) ys i =
      let e : suc (length xs) + i ≡ suc (length xs + i) = omega arith in
      rw e (get_elem?-append_right xs ys i)

  pub get_elem?-tabulate :
      (n : ℕ) (f : ℕ → A) (i : ℕ) → i < n → get_elem? (tabulate n f) i ≡ some (f i)
  get_elem?-tabulate zero f i h = absurd (omega arith)
  get_elem?-tabulate (suc n) f zero h = refl
  get_elem?-tabulate (suc n) f (suc i) h = get_elem?-tabulate n (λ j. f (suc j)) i (omega arith)

  -- A list that is read off a stretch of another.
  pub tabulate-drop :
      (n p : ℕ) (f : ℕ → A) (xs : List A)
      → ((i : ℕ) → i < n → get_elem? xs (p + i) ≡ some (f i))
      → tabulate n f ≡ take n (drop p xs)
  tabulate-drop n zero f xs h = from_start n f xs (λ i k. ap (get_elem? xs) (omega arith) ∙ h i k)
    where
      from_start :
          (m : ℕ) (g : ℕ → A) (ys : List A)
          → ((i : ℕ) → i < m → get_elem? ys i ≡ some (g i))
          → tabulate m g ≡ take m ys
      from_start zero g ys e = refl
      from_start (suc m) g [] e = cc (e 0 (omega arith))
      from_start (suc m) g (y ∷ ys) e =
          ap₂ ◌∷◌ (cc (e 0 (omega arith)))
            (from_start m (λ i. g (suc i)) ys (λ i k. e (suc i) (omega arith)))
  tabulate-drop zero (suc p) f xs h = refl
  tabulate-drop (suc n) (suc p) f [] h = cc (h 0 (omega arith))
  tabulate-drop (suc n) (suc p) f (x ∷ xs) h =
      tabulate-drop (suc n) p f xs
        (λ i k. let e : suc p + i ≡ suc (p + i) = omega arith in rw e at (h i k))
