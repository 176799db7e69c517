-- ===== src/Parcel/Reading.antt =====
-- Reading fields that lie behind each other, of which the reader knows some or knows more.
use android_system_libfmq.Base.{
  ℕ, ◌+◌, ◌-◌, ◌^◌, ◌≤◌, ◌<◌, ◌≡◌, refl, ◌∙◌, List, [], ◌∷◌, ◌++◌, arith, le→leb, lt→leb,
}
use android_system_libfmq.Parcel.{BinderStatus, status_ok, ParcelApi, Field, read_fields}
use android_system_libfmq.Parcel.Chain.{PositionLaws, Lawful, AllLawful, Chain, put_all}
use android_system_libfmq.Parcel.Written.{Chain-local, Chain-le}

module _ (api : ParcelApi) {O : Type 0} where
  abbrev pub both :
      (fs gs : List (Field api O)) → AllLawful api fs → AllLawful api gs → AllLawful api (fs ++ gs)
  both [] gs l r = r
  both (f ∷ fs) gs l r = (l.0, both fs gs l.1 r)

module _ (api : ParcelApi) {O : Type 0} (positions : PositionLaws api) where
  open api use {Parcel, position, set_position, cell}

  -- A read that succeeds, leaving the parcel at a position, with its data.
  abbrev pub Reads : BinderStatus × O × Parcel → O → ℕ → (ℕ → api.Cell) → Type 0
  Reads r o b m =
      (p' : Parcel) × (r ≡ (status_ok, o, p')) × (position p' ≡ b) × ((i : ℕ) → cell p' i ≡ m i)

  -- At the end of the parcelable the other fields are left alone.
  at_end :
      (fs : List (Field api O)) (start size : ℕ) (o : O) (p : Parcel)
      → size ≤ position p - start
      → read_fields api start size fs p o ≡ (status_ok, o, set_position (start + size) p)
  unfolding read_fields
  at_end [] start size o p h = refl
  at_end (f ∷ fs) start size o p h = rw (le→leb h) refl

  before_end :
      (f : Field api O) (fs : List (Field api O)) (lawful : Lawful api f.codec) (start size c : ℕ)
      (o : O) (v : f.Value) (p p' : Parcel)
      → position p - start < size
      → f.codec.read p (f.get o) ≡ (status_ok, v, p')
      → read_fields api start size (f ∷ fs) p o ≡ read_fields api start size fs p' (f.put v o)
  unfolding read_fields
  before_end f fs lawful start size c o v p p' h e = rw (e, lt→leb h) refl

  skips :
      (start size b : ℕ) (o : O) (p : Parcel)
      → start + size ≡ b
      → b < 2 ^ 31
      → Reads (status_ok, o, set_position (start + size) p) o b (cell p)
  skips start size b o p e fits = (
    set_position (start + size) p,
    refl,
    rw e (positions.moves b p fits),
    λ i. positions.keeps (start + size) p i,
  )

  -- The parcel holds the fields `fs`; the reader knows `gs` besides.
  pub read_fields-fewer :
      (fs gs : List (Field api O)) (laws : AllLawful api fs) (start size b : ℕ) (o old : O)
      (p : Parcel)
      → start ≤ position p
      → start + size ≡ b
      → b < 2 ^ 31
      → Chain api fs laws o (position p) b (cell p)
      → Reads (read_fields api start size (fs ++ gs) p old) (put_all api fs o old) b (cell p)
  read_fields-fewer [] gs laws start size b o old p h e fits chain =
      rw (at_end gs start size old p (omega arith)) (skips start size b old p e fits)
  read_fields-fewer (f ∷ fs) gs laws start size b o old p h e fits (c, less, stored, rest) =
      let below = Chain-le api fs laws.1 o c b (cell p) rest in
      let (p₁, read, at, same) = laws.0.reads p (f.get old) (f.get o) c stored in
      let (p', result, end, kept) =
        read_fields-fewer fs gs laws.1 start size b o (f.put (f.get o) old) p₁ (omega arith) e fits
          (rw at (Chain-local api fs laws.1 o c b (cell p) (cell p₁) (λ i _ _. same i) rest)) in
      (
        p',
        before_end f (fs ++ gs) laws.0 start size c old (f.get o) p p₁ (omega (arith, below)) read
            ∙ result,
        end,
        λ i. kept i ∙ same i,
      )

  -- The parcel holds the fields `fs` and then `gs`; the reader knows the former.
  pub read_fields-more :
      (fs gs : List (Field api O)) (laws : AllLawful api fs) (laws' : AllLawful api gs)
      (start size b : ℕ) (o old : O) (p : Parcel)
      → start ≤ position p
      → start + size ≡ b
      → b < 2 ^ 31
      → Chain api (fs ++ gs) (both api fs gs laws laws') o (position p) b (cell p)
      → Reads (read_fields api start size fs p old) (put_all api fs o old) b (cell p)
  unfolding read_fields
  read_fields-more [] gs laws laws' start size b o old p h e fits chain =
      skips start size b old p e fits
  read_fields-more (f ∷ fs) gs laws laws' start size b o old p h e fits (c, less, stored, rest) =
      let below = Chain-le api (fs ++ gs) (both api fs gs laws.1 laws') o c b (cell p) rest in
      let (p₁, read, at, same) = laws.0.reads p (f.get old) (f.get o) c stored in
      let (p', result, end, kept) =
        read_fields-more fs gs laws.1 laws' start size b o (f.put (f.get o) old) p₁ (omega arith) e
          fits
          (rw at (
            Chain-local api (fs ++ gs) (both api fs gs laws.1 laws') o c b (cell p) (cell p₁)
              (λ i _ _. same i) rest)) in
      (
        p',
        before_end f fs laws.0 start size c old (f.get o) p p₁ (omega (arith, below)) read ∙ result,
        end,
        λ i. kept i ∙ same i,
      )
