-- ===== src/Parcel/Versions.antt =====
-- What `readFromParcel` makes of a parcelable in a parcel, whose writer may know fewer or more
-- fields.
use android_system_libfmq.Base.{
  ℕ, ◌+◌, ◌-◌, ◌^◌, ◌≤◌, ◌<◌, ◌≡◌, refl, ◌∙◌, false, List, ◌++◌, arith, ltb, leb,
}
use android_system_libfmq.Parcel.{
  status_ok, ParcelApi, Codec, Field, read_fields, read_from_parcel, write_to_parcel,
}
use android_system_libfmq.Parcel.Chain.{PositionLaws, Lawful, WordLaws, AllLawful, Chain, put_all}
use android_system_libfmq.Parcel.Written.{Framed, write_to_parcel-Framed, Chain-local}
use android_system_libfmq.Parcel.Reading.{both, Reads, read_fields-fewer, read_fields-more}

module _ (api : ParcelApi) {O : Type 0} (positions : PositionLaws api) (int32 : Codec api ℕ)
    (word : Lawful api int32) where
  open api use {Parcel, position, set_position, cell}

  -- The size of a parcelable passes the tests.
  sized :
      (fs : List (Field api O)) (a b : ℕ) (p p₁ : Parcel) (old : O)
      → position p ≡ a
      → a + 4 ≤ b
      → b < 2 ^ 31
      → int32.read p 0 ≡ (status_ok, b - a, p₁)
      → read_from_parcel api int32 fs p old ≡ read_fields api a (b - a) fs p₁ old
  unfolding read_from_parcel
  sized fs a b p p₁ old at room fits e =
      let big : leb (2 ^ 31) (b - a) ≡ false = ground arith in
      let small : ltb (b - a) 4 ≡ false = ground arith in
      let far : ltb (2 ^ 31 - 1 - (b - a)) a ≡ false = ground arith in
      rw (at, e, big, small, far) refl

  -- A parcelable at the position, written with the fields `ws`, of which the fields of the reader
  -- are known to read the values `o'`.
  pub from_frame :
      (ws rs : List (Field api O)) (laws : AllLawful api ws) (o o' old : O) (a b : ℕ) (p : Parcel)
      → position p ≡ a
      → b < 2 ^ 31
      → Framed api int32 word ws laws o a b (cell p)
      → ((p₁ : Parcel)
          → position p₁ ≡ a + 4
          → a + (b - a) ≡ b
          → Chain api ws laws o (position p₁) b (cell p₁)
          → Reads api positions (read_fields api a (b - a) rs p₁ old) o' b (cell p₁))
      → Reads api positions (read_from_parcel api int32 rs p old) o' b (cell p)
  from_frame ws rs laws o o' old a b p at fits framed go =
      let (p₁, read, at₁, same) = word.reads p 0 (b - a) (a + 4) (rw at framed.size_stored) in
      let (p', result, end, kept) = go p₁ at₁ (omega (arith, framed.room)) (
        rw at₁ (
          Chain-local api ws laws o (a + 4) b (cell p) (cell p₁) (λ i _ _. same i)
            framed.fields_stored)) in
      (p', sized rs a b p p₁ old at framed.room fits read ∙ result, end, λ i. kept i ∙ same i)

  module _ (width : WordLaws api int32 word) where
    -- `set_position` to where a write started.
    rewound :
        (fs : List (Field api O)) (laws : AllLawful api fs) (o : O) (p p' : Parcel)
        → write_to_parcel api int32 fs o p ≡ (status_ok, p')
        → Framed api int32 word fs laws o
            (position p)
            (position p')
            (cell (set_position (position p) p'))
    rewound fs laws o p p' e =
        let framed = (write_to_parcel-Framed api positions int32 word width fs laws o p p' e).0 in
        record {
          room = framed.room;
          size_stored =
              word.local _ _ (cell p') _ (position p' - position p)
                (λ i _ _. positions.keeps (position p) p' i) framed.size_stored;
          fields_stored =
              Chain-local api fs laws o (position p + 4) (position p') (cell p') _
                (λ i _ _. positions.keeps (position p) p' i) framed.fields_stored;
        }

    -- If `AParcel` and the codecs of the fields obey their laws: when an older version has written
    -- its fields, a newer one, which knows fields behind them, reads from where the write started
    -- without an error, gets the written fields, leaves the others as they were, and stops where
    -- the write did.
    pub older_writer :
        (fs gs : List (Field api O)) (laws : AllLawful api fs) (o old : O) (p p' : Parcel)
        → write_to_parcel api int32 fs o p ≡ (status_ok, p')
        → (q : Parcel) × (read_from_parcel api int32 (fs ++ gs) (set_position (position p) p') old
            ≡ (status_ok, put_all api fs o old, q))
          × (position q ≡ position p')
          × ((i : ℕ) → cell q i ≡ cell p' i)
    older_writer fs gs laws o old p p' e =
        (result.0, result.1, result.2, λ i. result.3 i ∙ positions.keeps (position p) p' i)
      where
        result :
            Reads api positions
              (read_from_parcel api int32 (fs ++ gs) (set_position (position p) p') old)
              (put_all api fs o old)
              (position p')
              (cell (set_position (position p) p'))
        result =
            from_frame fs (fs ++ gs) laws o (put_all api fs o old) old (position p) (position p')
              (set_position (position p) p') (positions.moves (position p) p' (positions.fits p))
              (positions.fits p') (rewound fs laws o p p' e)
              (λ p₁ at whole chain.
                read_fields-fewer api positions fs gs laws (position p) _ (position p') o old p₁
                  (omega (arith, at)) whole (positions.fits p') chain)

    -- If `AParcel` and the codecs of the fields obey their laws: when a newer version has written,
    -- an older one, which does not know the last fields, reads from where the write started
    -- without an error, gets the fields that it knows, and stops where the write did, behind the
    -- others.
    pub newer_writer :
        (fs gs : List (Field api O)) (laws : AllLawful api fs) (laws' : AllLawful api gs)
        (o old : O) (p p' : Parcel)
        → write_to_parcel api int32 (fs ++ gs) o p ≡ (status_ok, p')
        → (q : Parcel) × (read_from_parcel api int32 fs (set_position (position p) p') old
            ≡ (status_ok, put_all api fs o old, q))
          × (position q ≡ position p')
          × ((i : ℕ) → cell q i ≡ cell p' i)
    newer_writer fs gs laws laws' o old p p' e =
        (result.0, result.1, result.2, λ i. result.3 i ∙ positions.keeps (position p) p' i)
      where
        result :
            Reads api positions
              (read_from_parcel api int32 fs (set_position (position p) p') old)
              (put_all api fs o old)
              (position p')
              (cell (set_position (position p) p'))
        result =
            from_frame (fs ++ gs) fs (both api fs gs laws laws') o (put_all api fs o old) old
              (position p) (position p') (set_position (position p) p')
              (positions.moves (position p) p' (positions.fits p)) (positions.fits p')
              (rewound (fs ++ gs) (both api fs gs laws laws') o p p' e)
              (λ p₁ at whole chain.
                read_fields-more api positions fs gs laws laws' (position p) _ (position p') o old
                  p₁ (omega (arith, at)) whole (positions.fits p') chain)
