-- ===== src/Parcel/Tests.antt =====
-- A parcel whose cells hold numbers and lists of them, and the theorems on it.
mod Vectors
use android_system_libfmq.Base.{
  ℕ, ◌+◌, ◌%◌, ◌^◌, ◌<◌, ◌≡◌, inl, inr, refl, sym, ◌∙◌, ap, List, [], ◌∷◌, ◌++◌, arith, ltb, lt→ltb,
  ◌==◌, if◌then◌else◌, Bool-cases,
}
use android_system_libfmq.Convert.{AidlGrantor}
use android_system_libfmq.Parcel.{
  BinderStatus, status_ok, status_error, ParcelApi, Codec, Field, read_from_parcel, write_to_parcel,
  write_fields,
}
use android_system_libfmq.Parcel.Types.{
  AidlNativeHandle, AidlMqDescriptor, Codecs, write_grantor, write_native_handle, grantor_fields,
  handle_fields, mq_descriptor_fields, read_mq_descriptor, write_mq_descriptor,
}
use android_system_libfmq.Parcel.Chain.{PositionLaws, Lawful, WordLaws}
use android_system_libfmq.Parcel.Versions.{older_writer, newer_writer}
use android_system_libfmq.Parcel.RoundTrip.{CodecLaws, write_mq_descriptor-read}
use android_system_libfmq.Parcel.Tests.Vectors.{vector, vector-Lawful}
use native.Mathlib.Nat.{mod-eq_of_lt}

data Item : Type 0 where
  number : ℕ → Item
  numbers : List ℕ → Item

record Cells : Type 0 where
  items : ℕ → Item
  at : ℕ

abbrev cells : ParcelApi
cells = record {
  Parcel = Cells;
  Cell = Item;
  cell = λ p. p.items;
  position = λ p. p.at % 2 ^ 31;
  set_position = λ a p. record p { at = a };
}

set_item : (ℕ → Item) → ℕ → Item → ℕ → Item
set_item m a v i = if i == a then v else m i

set_item-same : (m : ℕ → Item) (a : ℕ) (v : Item) → set_item m a v a ≡ v
unfolding set_item
set_item-same m a v = ground arith

set_item-other : (m : ℕ → Item) (a i : ℕ) (v : Item) → (i ≡ a → ⊥) → set_item m a v i ≡ m i
unfolding set_item
set_item-other m a i v h = ground (arith, h)

-- A value takes one cell and counts as four bytes.
abbrev boxed : {A : Type 0} → (A → Item) → (Item → A) → Codec cells A
unfolding set_item
boxed into out = record {
  read = λ p old. (status_ok, out (p.items (p.at % 2 ^ 31)), record p { at = p.at % 2 ^ 31 + 4 });
  write = λ v p.
      if ltb (p.at % 2 ^ 31 + 4) (2 ^ 31)
      then (
        status_ok,
        record { items = set_item p.items (p.at % 2 ^ 31) (into v); at = p.at % 2 ^ 31 + 4 },
      )
      else (status_error 0, p);
}

module _ {A : Type 0} (into : A → Item) (out : Item → A) (back : (v : A) → out (into v) ≡ v) where
  boxed_writes :
      (v : A) (p p' : Cells)
      → (boxed into out).write v p ≡ (status_ok, p')
      → (p.at % 2 ^ 31 + 4 < 2 ^ 31)
        × (p'
            ≡ record { items = set_item p.items (p.at % 2 ^ 31) (into v); at = p.at % 2 ^ 31 + 4 })
  unfolding set_item
  boxed_writes v p p' e = elim (Bool-cases (ltb (p.at % 2 ^ 31 + 4) (2 ^ 31))) [
    | inl t ↦ (ground arith, ap (λ (r : BinderStatus × Cells). r.1) (sym (rw t at e)))
    | inr f ↦ cc (rw f at e)
  ]

  abbrev boxed-Lawful : Lawful cells (boxed into out)
  unfolding set_item
  boxed-Lawful = record {
    Stored = λ a b m v. (b ≡ a + 4) × (b < 2 ^ 31) × (m a ≡ into v);
    local = λ a b m m' v same s. (s.0, s.1, same a (omega arith) (omega (arith, s.0)) ∙ s.2);
    writes = λ v p p' e.
        let (fits, same) = boxed_writes v p p' e in
        let at : p'.at ≡ p.at % 2 ^ 31 + 4 = ap (λ (q : Cells). q.at) same in
        let items : (i : ℕ) → p'.items i ≡ set_item p.items (p.at % 2 ^ 31) (into v) i =
          λ i. ap (λ (q : Cells). q.items i) same in
        (
          omega (arith, fits, at),
          (
            omega (arith, fits, at),
            omega (arith, fits, at),
            items (p.at % 2 ^ 31) ∙ set_item-same p.items (p.at % 2 ^ 31) (into v),
          ),
          λ i h. items i ∙ set_item-other p.items (p.at % 2 ^ 31) i (into v) (λ same. omega arith),
        );
    reads = λ p old v b s. (
      record p { at = p.at % 2 ^ 31 + 4 },
      λ i. (status_ok, (ap out s.2 ∙ back v) i, record p { at = p.at % 2 ^ 31 + 4 }),
      omega (arith, s.0, s.1),
      λ i. refl,
    );
  }

abbrev number_of : Item → ℕ
number_of (number n) = n
number_of _ = 0

abbrev numbers_of : Item → List ℕ
numbers_of (numbers ns) = ns
numbers_of _ = []

abbrev word : Codec cells ℕ
word = boxed number number_of

abbrev word-Lawful : Lawful cells word
word-Lawful = boxed-Lawful number number_of (λ v. refl)

abbrev codecs : Codecs cells ℕ
codecs = record {
  int32 = word;
  int64 = word;
  file = word;
  files = boxed numbers numbers_of;
  int32s = boxed numbers numbers_of;
  parcelable = λ c. c;
  vector_of = λ new c. vector cells c word new;
}

positions : PositionLaws cells
positions = record {
  fits = λ p. omega arith;
  moves = λ a p h. mod-eq_of_lt h;
  keeps = λ a p i. refl;
}

width : WordLaws cells word word-Lawful
unfolding set_item
width = record {
  width = λ v p p' e.
      let (fits, same) = boxed_writes number number_of (λ v. refl) v p p' e in
      omega (arith, fits, ap (λ (q : Cells). q.at) same);
  behind = λ v p p' e i h.
      ap (λ (q : Cells). q.items i) (boxed_writes number number_of (λ v. refl) v p p' e).1
      ∙ set_item-other p.items (p.at % 2 ^ 31) i (number v) (λ same. omega arith);
  replaces = λ v w p s. (
    record { items = set_item p.items (p.at % 2 ^ 31) (number w); at = p.at % 2 ^ 31 + 4 },
    rw (lt→ltb (s.1)) refl,
  );
}

codecs-laws : CodecLaws cells codecs
codecs-laws = record {
  positions = positions;
  int32 = word-Lawful;
  word = width;
  int64 = word-Lawful;
  file = word-Lawful;
  files = boxed-Lawful numbers numbers_of (λ v. refl);
  int32s = boxed-Lawful numbers numbers_of (λ v. refl);
  parcelable = λ c lawful. lawful;
  vector_of = λ new c lawful. vector-Lawful cells c lawful word word-Lawful new;
}

abbrev empty : Cells
empty = record { items = λ i. number 9; at = 8 }

abbrev sample : AidlMqDescriptor ℕ
sample = record {
  grantors = record { fd_index = 0; offset = 8; extent = 16 } ∷ [];
  handle = record { fds = 3 ∷ []; ints = [] };
  quantum = 2;
  flags = 1;
}

abbrev no_sample : AidlMqDescriptor ℕ
no_sample = record {
  grantors = [];
  handle = record { fds = []; ints = [] };
  quantum = 0;
  flags = 0;
}

write_mq_descriptor-read_example :
    (q : Cells) × (read_mq_descriptor cells codecs
        (record (write_mq_descriptor cells codecs sample empty).1 { at = 8 })
        no_sample
      ≡ (status_ok, sample, q))
    × (q.at % 2 ^ 31 ≡ 52)
    × ((i : ℕ) → q.items i ≡ (write_mq_descriptor cells codecs sample empty).1.items i)
unfolding write_mq_descriptor write_to_parcel write_fields mq_descriptor_fields set_item
    write_grantor write_native_handle grantor_fields handle_fields
write_mq_descriptor-read_example =
    write_mq_descriptor-read cells codecs codecs-laws sample no_sample empty
      (write_mq_descriptor cells codecs sample empty).1 refl

abbrev first_fields : List (Field cells AidlGrantor)
first_fields =
    record {
      Value = ℕ;
      codec = word;
      get = λ g. g.fd_index;
      put = λ v g. record g { fd_index = v };
    }
    ∷ record { Value = ℕ; codec = word; get = λ g. g.offset; put = λ v g. record g { offset = v } }
    ∷ []

abbrev last_field : List (Field cells AidlGrantor)
last_field =
    record { Value = ℕ; codec = word; get = λ g. g.extent; put = λ v g. record g { extent = v } }
    ∷ []

abbrev grantor : ℕ → AidlGrantor
grantor n = record { fd_index = n; offset = n + 1; extent = n + 2 }

older_writer_example :
    (q : Cells) × (read_from_parcel cells word
        (first_fields ++ last_field)
        (record (write_to_parcel cells word first_fields (grantor 1) empty).1 { at = 8 })
        (grantor 5)
      ≡ (status_ok, record { fd_index = 1; offset = 2; extent = 7 }, q))
    × (q.at % 2 ^ 31 ≡ 20)
    × ((i : ℕ) → q.items i ≡ (write_to_parcel cells word first_fields (grantor 1) empty).1.items i)
unfolding write_to_parcel write_fields set_item
older_writer_example =
    older_writer cells positions word word-Lawful width first_fields last_field
      (word-Lawful, (word-Lawful, tt)) (grantor 1) (grantor 5) empty
      (write_to_parcel cells word first_fields (grantor 1) empty).1 refl

newer_writer_example :
    (q : Cells) × (read_from_parcel cells word first_fields
        (record (write_to_parcel cells word (first_fields ++ last_field) (grantor 1) empty).1 {
          at = 8;
        })
        (grantor 5)
      ≡ (status_ok, record { fd_index = 1; offset = 2; extent = 7 }, q))
    × (q.at % 2 ^ 31 ≡ 24)
    × ((i : ℕ)
        → q.items i
          ≡ (write_to_parcel cells word (first_fields ++ last_field) (grantor 1) empty).1.items i)
unfolding write_to_parcel write_fields set_item
newer_writer_example =
    newer_writer cells positions word word-Lawful width first_fields last_field
      (word-Lawful, (word-Lawful, tt)) (word-Lawful, tt) (grantor 1) (grantor 5) empty
      (write_to_parcel cells word (first_fields ++ last_field) (grantor 1) empty).1 refl
