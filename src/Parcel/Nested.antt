-- ===== src/Parcel/Nested.antt =====
-- A parcelable as a field of another: its `writeToParcel` and `readFromParcel` are a codec.
use android_system_libfmq.Base.{ℕ, ◌+◌, ◌-◌, ◌≤◌, ◌<◌, ◌^◌, ◌≡◌, refl, List, [], arith}
use mathlib.Core.List.{append-nil}
use mathlib.Core.Path.{subst}
use android_system_libfmq.Parcel.{
  ParcelApi, Codec, Field, read_fields, write_to_parcel, read_from_parcel,
}
use android_system_libfmq.Parcel.Chain.{PositionLaws, Lawful, WordLaws, AllLawful, put_all}
use android_system_libfmq.Parcel.Written.{Framed, write_to_parcel-Framed, Chain-local}
use android_system_libfmq.Parcel.Reading.{Reads, read_fields-fewer}
use android_system_libfmq.Parcel.Versions.{from_frame}

module _ (api : ParcelApi) {O : Type 0} (positions : PositionLaws api) (int32 : Codec api ℕ)
    (word : Lawful api int32) (width : WordLaws api int32 word) (fs : List (Field api O))
    (laws : AllLawful api fs) where
  open api use {Parcel, position, cell}

  abbrev codec : Codec api O
  codec = record { read = read_from_parcel api int32 fs; write = write_to_parcel api int32 fs }

  Framed-local :
      (o : O) (a b : ℕ) (m m' : ℕ → api.Cell)
      → ((i : ℕ) → a ≤ i → i < b → m' i ≡ m i)
      → Framed api int32 word fs laws o a b m
      → Framed api int32 word fs laws o a b m'
  Framed-local o a b m m' same framed = record {
    room = framed.room;
    size_stored =
        word.local a (a + 4) m m' (b - a) (λ i h k. same i h (omega (arith, framed.room)))
          framed.size_stored;
    fields_stored =
        Chain-local api fs laws o (a + 4) b m m' (λ i h k. same i (omega arith) k)
          framed.fields_stored;
  }

  -- The parcelable at a position is read whole.
  frame_read :
      (o old : O) (b : ℕ) (p : Parcel)
      → b < 2 ^ 31
      → Framed api int32 word fs laws o (position p) b (cell p)
      → Reads api positions (read_from_parcel api int32 fs p old) (put_all api fs o old) b (cell p)
  frame_read o old b p fits framed =
      from_frame api positions int32 word fs fs laws o (put_all api fs o old) old (position p) b p
        refl fits framed
        (λ p₁ at whole chain.
          subst
            (λ rs.
              Reads api positions (read_fields api (position p) (b - position p) rs p₁ old)
                (put_all api fs o old) b (cell p₁))
            (append-nil fs)
            (read_fields-fewer api positions fs [] laws (position p) (b - position p) b o old p₁
              (omega (arith, at)) whole fits chain))

  -- If the fields are all that an object has, the codec reads back what it writes.
  pub parcelable-Lawful : ((o old : O) → put_all api fs o old ≡ o) → Lawful api codec
  parcelable-Lawful whole = record {
    Stored = λ a b m o. (b < 2 ^ 31) × Framed api int32 word fs laws o a b m;
    local = λ a b m m' o same s. (s.0, Framed-local o a b m m' same s.1);
    writes = λ o p p' e.
        let (framed, kept) =
          write_to_parcel-Framed api positions int32 word width fs laws o p p' e in
        (omega (arith, framed.room), (positions.fits p', framed), kept);
    reads = λ p old o b s.
        subst (λ t. Reads api positions (read_from_parcel api int32 fs p old) t b (cell p))
          (whole o old) (frame_read o old b p s.0 s.1);
  }
