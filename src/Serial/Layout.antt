-- ===== src/Serial/Layout.antt =====
-- Where the values of a row stand in its bytes.
use rarm_db.Base.{
  ℕ, ◌+◌, ◌*◌, ◌/◌, ◌≤◌, ◌<◌, ◌≡◌, ◌∙◌, List, [], ◌∷◌, true, false, length, arith, ◌⊎◌, inl,
  to_le_bytes, le→ltb, lt→ltb, eq→==,
}
use rarm_db.Page.Buffer.{Buffer, slice, overlay}
use rarm_db.Page.Buffer.Laws.{overlay_outside}
use rarm_db.Schema.DataType.{PrimitiveDataType}
use rarm_db.Schema.Column.{ColumnDefinition}
use rarm_db.Value.{Decimals, Value}
use rarm_db.Serial.{value}
use rarm_db.Serial.Write.{Cursor, put, set_null}
use rarm_db.Serial.Bitmap.{bit_at, with_null, with_null_lt, bit_at-with_null_ne}
use rarm_db.Serial.Cell.{Cell, absent, fixed, variable}

-- Writes in range.
pub put_inside :
    (total : ℕ) (b : Buffer) (off n : ℕ) (v : List ℕ)
    → off + n ≤ total
    → length v ≡ n
    → put total b off n v ≡ value (overlay b off v)
unfolding put
put_inside total b off n v h e = rw (le→ltb total (off + n) h, eq→== (length v) n e)

pub set_null_inside :
    (total : ℕ) (b : Buffer) (i : ℕ) → i / 8 < total → set_null total b i ≡ value (with_null b i)
unfolding set_null
set_null_inside total b i h = rw (lt→ltb (i / 8) total h)

module _ (d : Decimals) where
  abbrev pub Row : List ColumnDefinition → List (Value d) → Type 0
  Row [] [] = Unit
  Row (c ∷ columns) (v ∷ r) = Cell d c.data_type v × Row columns r
  Row columns r = ⊥

  -- The bytes of a value among the fixed and among the variable values, and its length there.
  abbrev pub fixed_width : {t : PrimitiveDataType} {v : Value d} → Cell d t v → ℕ
  fixed_width (absent h) = 0
  fixed_width (fixed x) = x.size
  fixed_width (variable x) = 0

  abbrev pub variable_width : {t : PrimitiveDataType} {v : Value d} → Cell d t v → ℕ
  variable_width (absent h) = 0
  variable_width (fixed x) = 0
  variable_width (variable x) = 4 + length x.bytes

  abbrev pub cell_lengths : {t : PrimitiveDataType} {v : Value d} → Cell d t v → List ℕ → List ℕ
  cell_lengths (absent h) l = l
  cell_lengths (fixed x) l = l
  cell_lengths (variable x) l = length x.bytes ∷ l

  abbrev pub fixed_total :
      (columns : List ColumnDefinition) (r : List (Value d)) → Row columns r → ℕ
  fixed_total [] r w = 0
  fixed_total (c ∷ columns) [] w = 0
  fixed_total (c ∷ columns) (v ∷ r) w = fixed_width w.0 + fixed_total columns r w.1

  abbrev pub variable_total :
      (columns : List ColumnDefinition) (r : List (Value d)) → Row columns r → ℕ
  variable_total [] r w = 0
  variable_total (c ∷ columns) [] w = 0
  variable_total (c ∷ columns) (v ∷ r) w = variable_width w.0 + variable_total columns r w.1

  abbrev pub lengths :
      (columns : List ColumnDefinition) (r : List (Value d)) → Row columns r → List ℕ
  lengths [] r w = []
  lengths (c ∷ columns) [] w = []
  lengths (c ∷ columns) (v ∷ r) w = cell_lengths w.0 (lengths columns r w.1)

  -- The buffer holds the value of column `i`.
  abbrev pub HoldsCell :
      {t : PrimitiveDataType} {v : Value d} → Buffer → ℕ → ℕ → ℕ → Cell d t v → Type 0
  HoldsCell b i fo vo (absent h) = bit_at b i ≡ true
  HoldsCell b i fo vo (fixed x) = (bit_at b i ≡ false) × (slice b fo x.size ≡ x.bytes)
  HoldsCell b i fo vo (variable x) =
      (bit_at b i ≡ false)
      × (slice b vo 4 ≡ to_le_bytes 4 (length x.bytes))
      × (slice b (vo + 4) (length x.bytes) ≡ x.bytes)

  -- It holds the row from column `i` on, with the values from the two offsets on.
  abbrev pub Holds :
      Buffer
      → ℕ
      → ℕ
      → ℕ
      → (columns : List ColumnDefinition) (r : List (Value d)) → Row columns r
      → Type 0
  Holds b i fo vo [] r w = Unit
  Holds b i fo vo (c ∷ columns) [] w = Unit
  Holds b i fo vo (c ∷ columns) (v ∷ r) w =
      HoldsCell b i fo vo w.0
      × Holds b (i + 1) (fo + fixed_width w.0) (vo + variable_width w.0) columns r w.1

-- A bitmap of `nb` bytes whose bits from `i` on are not set yet.
pub record IsClean (b : Buffer) (nb i : ℕ) : Type 0 where
  pub is_byte : (q : ℕ) → q < nb → b q < 256
  pub unset : (j : ℕ) → i ≤ j → j < 8 * nb → bit_at b j ≡ false

-- What the rest of the loop does: it writes the row, and leaves the bits before `i` and all bytes
-- behind the bitmap but those of the two regions that it fills.
pub record Fills (b b' : Buffer) (nb i fo fixed_size vo variable_size : ℕ) : Type 0 where
  pub bits : (j : ℕ) → j < i → bit_at b' j ≡ bit_at b j
  pub bytes :
      (p m : ℕ)
      → nb ≤ p
      → (p + m ≤ fo) ⊎ (fo + fixed_size ≤ p)
      → (p + m ≤ vo) ⊎ (vo + variable_size ≤ p)
      → slice b' p m ≡ slice b p m

-- A write behind the bitmap.
module _ (b : Buffer) (nb i off : ℕ) (v : List ℕ) (behind : nb ≤ off) where
  pub bit_at-overlay : (j : ℕ) → j < 8 * nb → bit_at (overlay b off v) j ≡ bit_at b j
  bit_at-overlay j h = rw (overlay_outside b off v (j / 8) (inl (omega arith)))

  pub overlay-IsClean : IsClean b nb i → IsClean (overlay b off v) nb i
  overlay-IsClean c = record {
    is_byte = λ q h. rw (overlay_outside b off v q (inl (omega arith))) (c.is_byte q h);
    unset = λ j h k. bit_at-overlay j k ∙ c.unset j h k;
  }

pub with_null-IsClean :
    (b : Buffer) (nb i : ℕ) → i < 8 * nb → IsClean b nb i → IsClean (with_null b i) nb (i + 1)
with_null-IsClean b nb i h c = record {
  is_byte = λ q k. with_null_lt b i q (c.is_byte (i / 8) (omega arith)) (c.is_byte q k);
  unset = λ j k l.
      bit_at-with_null_ne b i j (omega arith) (c.is_byte (i / 8) (omega arith))
      ∙ c.unset j (omega arith) l;
}

pub later-IsClean : (b : Buffer) (nb i : ℕ) → IsClean b nb i → IsClean b nb (i + 1)
later-IsClean b nb i c = record { is_byte = c.is_byte; unset = λ j h k. c.unset j (omega arith) k }

abbrev pub cursor : Buffer → ℕ → ℕ → List ℕ → Cursor
cursor b fo vo sizes = record {
  bytes = b;
  fixed_offset = fo;
  variable_offset = vo;
  sizes_left = sizes;
}
