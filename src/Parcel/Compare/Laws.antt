-- ===== src/Parcel/Compare/Laws.antt =====
-- The laws of a total order for numbers, vectors and tuples.
use android_system_libfmq.Base.{
  ℕ, ◌^◌, ◌<◌, ◌≡◌, ◌↔◌, refl, ap, arith, true, false, not, ◌||◌, List, [], ◌∷◌,
}
use android_system_libfmq.Parcel.Compare.{
  Comparison, Operators, signed_less, int32, int64, vector, vector_less, vector_equal, tuple,
  operators, of_operators,
}

-- On the values with `P`, `equal` is equality and `less` a strict total order.
pub record IsOrdered {A : Type 0} (P : A → Type 0) (c : Comparison A) : Type 0 where
  pub equal_iff : (a b : A) → P a → P b → (c.equal a b ≡ true) ↔ (a ≡ b)
  pub irreflexive : (a : A) → P a → c.less a a ≡ false
  pub transitive :
      (x y z : A) → P x → P y → P z → c.less x y ≡ true → c.less y z ≡ true → c.less x z ≡ true
  pub connected : (a b : A) → P a → P b → c.less a b ≡ false → c.less b a ≡ false → a ≡ b

abbrev pub Fits32 : ℕ → Type 0
Fits32 n = n < 2 ^ 32

abbrev pub Fits64 : ℕ → Type 0
Fits64 n = n < 2 ^ 64

pub int32-IsOrdered : IsOrdered Fits32 int32
unfolding int32 signed_less
int32-IsOrdered = record {
  equal_iff = λ a b p q. ground arith;
  irreflexive = λ a p. ground arith;
  transitive = λ x y z p q r h k. ground arith;
  connected = λ a b p q h k. ground arith;
}

pub int64-IsOrdered : IsOrdered Fits64 int64
unfolding int64 signed_less
int64-IsOrdered = record {
  equal_iff = λ a b p q. ground arith;
  irreflexive = λ a p. ground arith;
  transitive = λ x y z p q r h k. ground arith;
  connected = λ a b p q h k. ground arith;
}

abbrev pub Both : {A B : Type 0} → (A → Type 0) → (B → Type 0) → A × B → Type 0
Both P Q x = P x.0 × Q x.1

module _ {A B : Type 0} {P : A → Type 0} {Q : B → Type 0} {c : Comparison A} {rest : Comparison B}
    (o : IsOrdered P c) (p : IsOrdered Q rest) where
  pub tuple-IsOrdered : IsOrdered (Both P Q) (tuple c rest)
  unfolding tuple
  tuple-IsOrdered = record {
    equal_iff = λ x y h k. ground (arith, o.equal_iff x.0 y.0, p.equal_iff x.1 y.1);
    irreflexive = λ x h. ground (arith, o.irreflexive x.0, p.irreflexive x.1);
    transitive = λ x y z h k l e f. ground (
      arith,
      o.transitive x.0 y.0 z.0,
      o.connected x.0 y.0,
      o.connected y.0 z.0,
      o.irreflexive x.0,
      p.transitive x.1 y.1 z.1,
    );
    connected = λ x y h k e f. ground (arith, o.connected x.0 y.0, p.connected x.1 y.1);
  }

abbrev pub All : {A : Type 0} → (A → Type 0) → List A → Type 0
All P [] = Unit
All P (x ∷ xs) = P x × All P xs

module _ {A : Type 0} {P : A → Type 0} {c : Comparison A} (o : IsOrdered P c) where
  vector_equal_iff :
      (xs ys : List A) → All P xs → All P ys → (vector_equal c xs ys ≡ true) ↔ (xs ≡ ys)
  unfolding vector_equal
  vector_equal_iff [] [] h k = (λ _. refl, λ _. refl)
  vector_equal_iff [] (y ∷ ys) h k = (λ e. cc, λ e. cc)
  vector_equal_iff (x ∷ xs) [] h k = (λ e. cc, λ e. cc)
  vector_equal_iff (x ∷ xs) (y ∷ ys) h k = ground (arith, o.equal_iff x y, vector_equal_iff xs ys)

  vector_less-irreflexive : (xs : List A) → All P xs → vector_less c xs xs ≡ false
  unfolding vector_less
  vector_less-irreflexive [] h = refl
  vector_less-irreflexive (x ∷ xs) h = ground (arith, o.irreflexive x, vector_less-irreflexive xs)

  vector_less-connected :
      (xs ys : List A)
      → All P xs
      → All P ys
      → vector_less c xs ys ≡ false
      → vector_less c ys xs ≡ false
      → xs ≡ ys
  unfolding vector_less
  vector_less-connected [] [] h k e f = refl
  vector_less-connected [] (y ∷ ys) h k e f = cc
  vector_less-connected (x ∷ xs) [] h k e f = cc
  vector_less-connected (x ∷ xs) (y ∷ ys) h k e f =
      ground (arith, o.connected x y, vector_less-connected xs ys)

  vector_less-transitive :
      (xs ys zs : List A)
      → All P xs
      → All P ys
      → All P zs
      → vector_less c xs ys ≡ true
      → vector_less c ys zs ≡ true
      → vector_less c xs zs ≡ true
  unfolding vector_less
  vector_less-transitive xs [] [] h k l e f = cc
  vector_less-transitive xs (y ∷ ys) [] h k l e f = cc
  vector_less-transitive [] [] (z ∷ zs) h k l e f = cc
  vector_less-transitive (x ∷ xs) [] (z ∷ zs) h k l e f = cc
  vector_less-transitive [] (y ∷ ys) (z ∷ zs) h k l e f = refl
  vector_less-transitive (x ∷ xs) (y ∷ ys) (z ∷ zs) h k l e f = ground (
    arith,
    o.transitive x y z,
    o.connected x y,
    o.connected y z,
    o.irreflexive x,
    vector_less-transitive xs ys zs,
  )

  pub vector-IsOrdered : IsOrdered (All P) (vector c)
  unfolding vector
  vector-IsOrdered = record {
    equal_iff = vector_equal_iff;
    irreflexive = vector_less-irreflexive;
    transitive = vector_less-transitive;
    connected = vector_less-connected;
  }

module _ {A : Type 0} {P : A → Type 0} {c : Comparison A} (o : IsOrdered P c) where
  not-less : (a b : A) → P a → P b → not (c.less b a) ≡ (c.less a b || c.equal a b)
  not-less a b h k =
      ground (
        arith,
        o.connected a b h k,
        o.transitive a b a h k h,
        o.irreflexive a h,
        o.equal_iff a b h k,
      )

-- What the six operators of a type say of each other.
pub record IsTotalOrder {A : Type 0} (P : A → Type 0) (o : Operators A) : Type 0 where
  pub ordered : IsOrdered P (of_operators o)
  pub not_equal_lem : (a b : A) → o.not_equal a b ≡ not (o.equal a b)
  pub less_equal_lem : (a b : A) → P a → P b → o.less_equal a b ≡ (o.less a b || o.equal a b)
  pub greater_lem : (a b : A) → o.greater a b ≡ o.less b a
  pub greater_equal_lem : (a b : A) → o.greater_equal a b ≡ o.less_equal b a

-- The operators of a type whose `tie` leaves nothing out.
module _ {A K : Type 0} {P : A → Type 0} {Q : K → Type 0} (tie : A → K) {c : Comparison K}
    (o : IsOrdered Q c) (within : (a : A) → P a → Q (tie a))
    (injective : (a b : A) → tie a ≡ tie b → a ≡ b) where
  pub operators-IsTotalOrder : IsTotalOrder P (operators tie c)
  unfolding operators
  operators-IsTotalOrder = record {
    ordered = record {
      equal_iff = λ a b h k. (
        λ e. injective a b ((o.equal_iff (tie a) (tie b) (within a h) (within b k)).0 e),
        λ e. (o.equal_iff (tie a) (tie b) (within a h) (within b k)).1 (ap tie e),
      );
      irreflexive = λ a h. o.irreflexive (tie a) (within a h);
      transitive = λ x y z h k l.
          o.transitive (tie x) (tie y) (tie z) (within x h) (within y k) (within z l);
      connected =
          λ a b h k e f. injective a b (o.connected (tie a) (tie b) (within a h) (within b k) e f);
    };
    not_equal_lem = λ a b. refl;
    less_equal_lem = λ a b h k. not-less o (tie a) (tie b) (within a h) (within b k);
    greater_lem = λ a b. refl;
    greater_equal_lem = λ a b. refl;
  }
