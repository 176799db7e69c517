-- ===== src/Parcel/Chain.antt =====
-- What is asked of `AParcel` and of the codecs, and the fields of a parcelable behind each other.
use android_system_libfmq.Base.{ℕ, ◌+◌, ◌^◌, ◌≤◌, ◌<◌, ◌≡◌, List, [], ◌∷◌}
use android_system_libfmq.Parcel.{status_ok, ParcelApi, Codec, Field}

-- A position is a non-negative `int32_t`. `AParcel_setDataPosition` moves to such a position, and
-- touches no data.
pub record PositionLaws (api : ParcelApi) : Type 0 where
  pub fits : (p : api.Parcel) → api.position p < 2 ^ 31
  pub moves : (a : ℕ) (p : api.Parcel) → a < 2 ^ 31 → api.position (api.set_position a p) ≡ a
  pub keeps : (a : ℕ) (p : api.Parcel) (i : ℕ) → api.cell (api.set_position a p) i ≡ api.cell p i

-- A codec reads back what it has written. A write that succeeds goes on by one cell at least, and
-- keeps what lies before it; a read keeps all data.
pub record Lawful (api : ParcelApi) {A : Type 0} (c : Codec api A) : Type 1 where
  pub Stored : ℕ → ℕ → (ℕ → api.Cell) → A → Type 0
  pub local :
      (a b : ℕ) (m m' : ℕ → api.Cell) (v : A)
      → ((i : ℕ) → a ≤ i → i < b → m' i ≡ m i)
      → Stored a b m v
      → Stored a b m' v
  pub writes :
      (v : A) (p p' : api.Parcel)
      → c.write v p ≡ (status_ok, p')
      → (api.position p < api.position p')
        × Stored (api.position p) (api.position p') (api.cell p') v
        × ((i : ℕ) → i < api.position p → api.cell p' i ≡ api.cell p i)
  pub reads :
      (p : api.Parcel) (old v : A) (b : ℕ)
      → Stored (api.position p) b (api.cell p) v
      → (p' : api.Parcel) × (c.read p old ≡ (status_ok, v, p'))
        × (api.position p' ≡ b)
        × ((i : ℕ) → api.cell p' i ≡ api.cell p i)

-- An `int32_t` takes four bytes, and can be replaced where one is.
pub record WordLaws (api : ParcelApi) (int32 : Codec api ℕ) (lawful : Lawful api int32)
    : Type 0 where
  pub width :
      (v : ℕ) (p p' : api.Parcel)
      → int32.write v p ≡ (status_ok, p')
      → api.position p' ≡ api.position p + 4
  pub behind :
      (v : ℕ) (p p' : api.Parcel)
      → int32.write v p ≡ (status_ok, p')
      → (i : ℕ) → api.position p + 4 ≤ i
      → api.cell p' i ≡ api.cell p i
  pub replaces :
      (v w : ℕ) (p : api.Parcel)
      → lawful.Stored (api.position p) (api.position p + 4) (api.cell p) v
      → (p' : api.Parcel) × (int32.write w p ≡ (status_ok, p'))

module _ (api : ParcelApi) {O : Type 0} where
  -- Every field has a codec as above.
  abbrev pub AllLawful : List (Field api O) → Type 1
  AllLawful [] = Unit
  AllLawful (f ∷ fs) = Lawful api f.codec × AllLawful fs

  -- The fields of an object lie behind each other, from one position to another.
  abbrev pub Chain : (fs : List (Field api O)) → AllLawful fs → O → ℕ → ℕ → (ℕ → api.Cell) → Type 0
  Chain [] laws o a b m = a ≡ b
  Chain (f ∷ fs) laws o a b m =
      (c : ℕ) × (a < c) × laws.0.Stored a c m (f.get o) × Chain fs laws.1 o c b m

  -- What reading the fields of `o` makes of an object.
  abbrev pub put_all : List (Field api O) → O → O → O
  put_all [] o old = old
  put_all (f ∷ fs) o old = put_all fs o (f.put (f.get o) old)
