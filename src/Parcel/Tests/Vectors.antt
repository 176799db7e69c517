-- ===== src/Parcel/Tests/Vectors.antt =====
-- A codec for vectors, over the codec of the elements: their number, then one behind the other.
use android_system_libfmq.Base.{
  ℕ, zero, suc, ◌≤◌, ◌<◌, ◌≡◌, refl, sym, ◌∙◌, ap, List, [], ◌∷◌, length, arith, Bool-cases, inl,
  inr, if◌then◌else◌,
}
use android_system_libfmq.Parcel.{BinderStatus, status_ok, is_ok, ParcelApi, Codec}
use android_system_libfmq.Parcel.Chain.{Lawful}
use android_system_libfmq.Parcel.Written.{ok_of}

module _ (api : ParcelApi) {A : Type 0} (c : Codec api A) where
  open api use {Parcel, Cell, position, cell}

  abbrev write_each : List A → Parcel → BinderStatus × Parcel
  write_each [] p = (status_ok, p)
  write_each (v ∷ vs) p =
      let rest = write_each vs (c.write v p).1 in
      if is_ok (c.write v p).0 then rest else c.write v p

  abbrev read_each : A → ℕ → Parcel → BinderStatus × List A × Parcel
  read_each new zero p = (status_ok, [], p)
  read_each new (suc n) p =
      let (status, v, p₁) = c.read p new in
      let (status', vs, p₂) = read_each new n p₁ in
      if is_ok status then (status', v ∷ vs, p₂) else (status, [], p₁)

  abbrev pub vector : Codec api ℕ → A → Codec api (List A)
  vector word new = record {
    read = λ p old.
        (let (status, n, p₁) = word.read p 0 in
          if is_ok status then read_each new n p₁ else (status, old, p₁));
    write = λ vs p.
        if is_ok (word.write (length vs) p).0
        then write_each vs (word.write (length vs) p).1
        else word.write (length vs) p;
  }

  module _ (lawful : Lawful api c) where
    abbrev Row : List A → ℕ → ℕ → (ℕ → Cell) → Type 0
    Row [] a b m = a ≡ b
    Row (v ∷ vs) a b m = (k : ℕ) × (a < k) × lawful.Stored a k m v × Row vs k b m

    Row-le : (vs : List A) (a b : ℕ) (m : ℕ → Cell) → Row vs a b m → a ≤ b
    Row-le [] a b m e = omega (arith, e)
    Row-le (v ∷ vs) a b m (k, less, stored, rest) = omega (arith, less, Row-le vs k b m rest)

    Row-local :
        (vs : List A) (a b : ℕ) (m m' : ℕ → Cell)
        → ((i : ℕ) → a ≤ i → i < b → m' i ≡ m i)
        → Row vs a b m
        → Row vs a b m'
    Row-local [] a b m m' same e = e
    Row-local (v ∷ vs) a b m m' same (k, less, stored, rest) = (
      k,
      less,
      lawful.local a k m m' v (λ i h j. same i h (omega (arith, Row-le vs k b m rest))) stored,
      Row-local vs k b m m' (λ i h j. same i (omega arith) j) rest,
    )

    write_each-Row :
        (vs : List A) (p p' : Parcel)
        → write_each vs p ≡ (status_ok, p')
        → (position p ≤ position p')
          × Row vs (position p) (position p') (cell p')
          × ((i : ℕ) → i < position p → cell p' i ≡ cell p i)
    write_each-Row [] p p' e =
        let same : p ≡ p' = ap (λ (t : BinderStatus × Parcel). t.1) e in
        (omega (arith, ap position same), ap position same, λ i h. ap (λ q. cell q i) (sym same))
    write_each-Row (v ∷ vs) p p' e = elim (Bool-cases (is_ok (c.write v p).0)) [
      | inl ok ↦
          let p₁ = (c.write v p).1 in
          let (less, stored, kept) = lawful.writes v p p₁ (λ i. (ok_of (c.write v p).0 ok i, p₁)) in
          let (below, rest, kept') = write_each-Row vs p₁ p' (rw ok at e) in
          (
            omega (arith, less, below),
            (position p₁, less, lawful.local _ _ _ _ v (λ i h k. kept' i k) stored, rest),
            λ i h. kept' i (omega (arith, less)) ∙ kept i h,
          )
      | inr failed ↦ cc (failed, rw failed at e)
    ]

    read_each-Row :
        (new : A) (vs : List A) (b : ℕ) (p : Parcel)
        → Row vs (position p) b (cell p)
        → (p' : Parcel) × (read_each new (length vs) p ≡ (status_ok, vs, p'))
          × (position p' ≡ b)
          × ((i : ℕ) → cell p' i ≡ cell p i)
    read_each-Row new [] b p e = (p, refl, e, λ i. refl)
    read_each-Row new (v ∷ vs) b p (k, less, stored, rest) =
        let (p₁, read, at, same) = lawful.reads p new v k stored in
        let (p', read', at', same') =
          read_each-Row new vs b p₁
            (rw at (Row-local vs k b (cell p) (cell p₁) (λ i _ _. same i) rest)) in
        (p', rw (read, read') refl, at', λ i. same' i ∙ same i)

    -- The number of the elements, and they behind it.
    abbrev VectorStored :
        (word : Codec api ℕ) → Lawful api word → ℕ → ℕ → (ℕ → Cell) → List A → Type 0
    VectorStored word word_lawful a b m vs =
        (k : ℕ) × (a < k) × word_lawful.Stored a k m (length vs) × Row vs k b m

    -- The codec reads back what it writes.
    pub vector-Lawful :
        (word : Codec api ℕ) → Lawful api word → (new : A) → Lawful api (vector word new)
    vector-Lawful word word_lawful new = record {
      Stored = VectorStored word word_lawful;
      local = λ a b m m' vs same s. (
        s.0,
        s.1,
        word_lawful.local a s.0 m m' (length vs)
            (λ i h j. same i h (omega (arith, Row-le vs s.0 b m s.3))) s.2,
        Row-local vs s.0 b m m' (λ i h j. same i (omega (arith, s.1)) j) s.3,
      );
      writes = λ vs p p' e. elim (Bool-cases (is_ok (word.write (length vs) p).0)) [
        | inl ok ↦
            let p₁ = (word.write (length vs) p).1 in
            let (less, stored, kept) =
              word_lawful.writes (length vs) p p₁
                (λ i. (ok_of (word.write (length vs) p).0 ok i, p₁)) in
            let (below, rest, kept') = write_each-Row vs p₁ p' (rw ok at e) in
            (
              omega (arith, less, below),
              (
                position p₁,
                less,
                word_lawful.local _ _ _ _ (length vs) (λ i h k. kept' i k) stored,
                rest,
              ),
              λ i h. kept' i (omega (arith, less)) ∙ kept i h,
            )
        | inr failed ↦ cc (failed, rw failed at e)
      ];
      reads = λ p old vs b s.
          let (p₁, read, at, same) = word_lawful.reads p 0 (length vs) s.0 s.2 in
          let (p', read', at', same') =
            read_each-Row new vs b p₁
              (rw at (Row-local vs s.0 b (cell p) (cell p₁) (λ i _ _. same i) s.3)) in
          (p', rw (read, read') refl, at', λ i. same' i ∙ same i);
    }
