-- ===== src/Parcel/Written.antt =====
-- What `writeToParcel` leaves in a parcel.
use android_system_libfmq.Base.{
  ℕ, ◌+◌, ◌-◌, ◌%◌, ◌^◌, ◌≤◌, ◌<◌, ◌≡◌, refl, sym, ◌∙◌, ap, true, List, [], ◌∷◌, arith, Bool-cases,
  inl, inr,
}
use android_system_libfmq.Memory.{sub64}
use android_system_libfmq.Parcel.{
  BinderStatus, status_ok, is_ok, ParcelApi, Codec, Field, write_fields, write_to_parcel,
}
use android_system_libfmq.Parcel.Chain.{PositionLaws, Lawful, WordLaws, AllLawful, Chain}

pub ok_of : (s : BinderStatus) → is_ok s ≡ true → s ≡ status_ok
ok_of status_ok e = refl
ok_of BinderStatus.status_bad_value e = cc
ok_of (BinderStatus.status_error n) e = cc

module _ (api : ParcelApi) {O : Type 0} where
  pub Chain-le :
      (fs : List (Field api O)) (laws : AllLawful api fs) (o : O) (a b : ℕ) (m : ℕ → api.Cell)
      → Chain api fs laws o a b m
      → a ≤ b
  Chain-le [] laws o a b m e = omega (arith, e)
  Chain-le (f ∷ fs) laws o a b m (c, less, stored, rest) =
      omega (arith, less, Chain-le fs laws.1 o c b m rest)

  pub Chain-local :
      (fs : List (Field api O)) (laws : AllLawful api fs) (o : O) (a b : ℕ) (m m' : ℕ → api.Cell)
      → ((i : ℕ) → a ≤ i → i < b → m' i ≡ m i)
      → Chain api fs laws o a b m
      → Chain api fs laws o a b m'
  Chain-local [] laws o a b m m' same e = e
  Chain-local (f ∷ fs) laws o a b m m' same (c, less, stored, rest) =
      let below = Chain-le fs laws.1 o c b m rest in
      (
        c,
        less,
        laws.0.local a c m m' (f.get o) (λ i h k. same i h (omega (arith, below))) stored,
        Chain-local fs laws.1 o c b m m' (λ i h k. same i (omega arith) k) rest,
      )

  -- The fields behind each other, and what was there before.
  pub write_fields-Chain :
      (fs : List (Field api O)) (laws : AllLawful api fs) (o : O) (p p' : api.Parcel)
      → write_fields api fs o p ≡ (status_ok, p')
      → (api.position p ≤ api.position p')
        × Chain api fs laws o (api.position p) (api.position p') (api.cell p')
        × ((i : ℕ) → i < api.position p → api.cell p' i ≡ api.cell p i)
  unfolding write_fields
  write_fields-Chain [] laws o p p' e =
      let same : p ≡ p' = ap (λ (t : BinderStatus × api.Parcel). t.1) e in
      (
        omega (arith, ap api.position same),
        ap api.position same,
        λ i h. ap (λ q. api.cell q i) (sym same),
      )
  write_fields-Chain (f ∷ fs) laws o p p' e =
      elim (Bool-cases (is_ok (f.codec.write (f.get o) p).0)) [
        | inl ok ↦
            let p₁ = (f.codec.write (f.get o) p).1 in
            let (less, stored, kept) =
              laws.0.writes (f.get o) p p₁ (λ i. (ok_of (f.codec.write (f.get o) p).0 ok i, p₁)) in
            let (below, rest, kept') = write_fields-Chain fs laws.1 o p₁ p' (rw ok at e) in
            (
              omega (arith, less, below),
              (
                api.position p₁,
                less,
                laws.0.local _ _ _ _ (f.get o) (λ i h k. kept' i k) stored,
                rest,
              ),
              λ i h. kept' i (omega (arith, less)) ∙ kept i h,
            )
        | inr failed ↦ cc (failed, rw failed at e)
      ]

-- A parcelable in a parcel, between two positions: its size, and its fields behind it.
pub record Framed (api : ParcelApi) {O : Type 0} (int32 : Codec api ℕ) (word : Lawful api int32)
    (fs : List (Field api O)) (laws : AllLawful api fs) (o : O) (a b : ℕ) (m : ℕ → api.Cell)
    : Type 0 where
  pub room : a + 4 ≤ b
  pub size_stored : word.Stored a (a + 4) m (b - a)
  pub fields_stored : Chain api fs laws o (a + 4) b m

module _ (api : ParcelApi) {O : Type 0} (positions : PositionLaws api) (int32 : Codec api ℕ)
    (word : Lawful api int32) (width : WordLaws api int32 word) (fs : List (Field api O))
    (laws : AllLawful api fs) where
  open api use {Parcel, position, set_position, cell}

  module _ (o : O) (start : ℕ) (p₁ p₂ : Parcel) (at : position p₁ ≡ start + 4)
      (stored : word.Stored start (start + 4) (cell p₁) 0)
      (ok : write_fields api fs o p₁ ≡ (status_ok, p₂)) where
    abbrev back : Parcel
    back = set_position start p₂

    abbrev size : ℕ
    size = sub64 (position p₂) start % 2 ^ 32

    below : position p₁ ≤ position p₂
    below = (write_fields-Chain api fs laws o p₁ p₂ ok).0

    back_at : position back ≡ start
    back_at = positions.moves start p₂ (omega (arith, positions.fits p₂, below, at))

    back_stored : word.Stored (position back) (position back + 4) (cell back) 0
    back_stored = rw back_at (
        word.local start (start + 4) (cell p₁) (cell back) 0
          (λ i h k.
            positions.keeps start p₂ i
            ∙ (write_fields-Chain api fs laws o p₁ p₂ ok).2 i (omega (arith, at)))
          stored)

    -- The size can go where the 0 was.
    size_written : (p₃ : Parcel) × (int32.write size back ≡ (status_ok, p₃))
    size_written = width.replaces 0 size back back_stored

    module _ (p₃ : Parcel) (wrote : int32.write size back ≡ (status_ok, p₃)) where
      abbrev end : ℕ
      end = position p₂

      three_at : position p₃ ≡ start + 4
      three_at = rw back_at at (width.width size back p₃ wrote)

      -- It disturbs nothing else.
      replaced : Framed api int32 word fs laws o start end (cell (set_position end p₃))
      replaced = record {
        room = omega (arith, below, at);
        size_stored =
            word.local start (start + 4) (cell p₃) (cell (set_position end p₃)) (end - start)
              (λ i h k. positions.keeps end p₃ i)
              (rw (back_at, three_at, size_is) at (word.writes size back p₃ wrote).1);
        fields_stored = rw at at (
            Chain-local api fs laws o (position p₁) end (cell p₂) (cell (set_position end p₃))
              (λ i h k.
                positions.keeps end p₃ i
                ∙ width.behind size back p₃ wrote i (omega (arith, back_at, at))
                ∙ positions.keeps start p₂ i)
              (write_fields-Chain api fs laws o p₁ p₂ ok).1);
      }
        where
          size_is : size ≡ end - start
          size_is = omega (arith, below, at, positions.fits p₂)

      untouched : (i : ℕ) → i < start → cell (set_position end p₃) i ≡ cell p₁ i
      untouched i h =
          positions.keeps end p₃ i
          ∙ (word.writes size back p₃ wrote).2 i (omega (arith, back_at))
          ∙ positions.keeps start p₂ i
          ∙ (write_fields-Chain api fs laws o p₁ p₂ ok).2 i (omega (arith, at))

  written :
      (o : O) (p p₁ p₂ p' : Parcel)
      → int32.write 0 p ≡ (status_ok, p₁)
      → write_fields api fs o p₁ ≡ (status_ok, p₂)
      → set_position
          (position p₂)
          (int32.write (sub64 (position p₂) (position p) % 2 ^ 32) (set_position (position p) p₂)).1
        ≡ p'
      → Framed api int32 word fs laws o (position p) (position p') (cell p')
        × ((i : ℕ) → i < position p → cell p' i ≡ cell p i)
  written o p p₁ p₂ p' first rest e =
      rw (ended, ← final)
        (
          replaced o (position p) p₁ p₂ at stored rest p₃ wrote,
          λ i h.
              untouched o (position p) p₁ p₂ at stored rest p₃ wrote i h
              ∙ (word.writes 0 p p₁ first).2 i h,
        )
    where
      at : position p₁ ≡ position p + 4
      at = width.width 0 p p₁ first

      stored : word.Stored (position p) (position p + 4) (cell p₁) 0
      stored = rw at at (word.writes 0 p p₁ first).1

      found :
          (p₃ : Parcel) × (int32.write
              (sub64 (position p₂) (position p) % 2 ^ 32)
              (set_position (position p) p₂)
            ≡ (status_ok, p₃))
      found = size_written o (position p) p₁ p₂ at stored rest

      p₃ : Parcel
      p₃ = found.0

      wrote :
          int32.write (sub64 (position p₂) (position p) % 2 ^ 32) (set_position (position p) p₂)
          ≡ (status_ok, p₃)
      wrote = found.1

      final : set_position (position p₂) p₃ ≡ p'
      final = rw wrote at e

      ended : position p' ≡ position p₂
      ended = rw (← final) (positions.moves (position p₂) p₃ (positions.fits p₂))

  -- A parcelable that is written lies between the position before and the one after.
  pub write_to_parcel-Framed :
      (o : O) (p p' : Parcel)
      → write_to_parcel api int32 fs o p ≡ (status_ok, p')
      → Framed api int32 word fs laws o (position p) (position p') (cell p')
        × ((i : ℕ) → i < position p → cell p' i ≡ cell p i)
  unfolding write_to_parcel
  write_to_parcel-Framed o p p' e = elim (Bool-cases (is_ok (int32.write 0 p).0)) [
    | inr failed ↦ cc (failed, rw failed at e)
    | inl ok ↦
        let p₁ = (int32.write 0 p).1 in
        elim (Bool-cases (is_ok (write_fields api fs o p₁).0)) [
          | inr failed ↦ cc (failed, rw (ok, failed) at e)
          | inl ok₂ ↦
              let p₂ = (write_fields api fs o p₁).1 in
              written o p p₁ p₂ p' (λ i. (ok_of (int32.write 0 p).0 ok i, p₁))
                (λ i. (ok_of (write_fields api fs o p₁).0 ok₂ i, p₂))
                (ap (λ (r : BinderStatus × Parcel). r.1) (rw (ok, ok₂) at e))
        ]
  ]
