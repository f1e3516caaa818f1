-- ===== src/Serial/RoundTrip.antt =====
-- A row that `serialize` accepts is read back by `deserialize`.
use mathlib.Core.List.{append_assoc, append-nil}
use rarm_db.Base.{
  ℕ, ◌+◌, ◌*◌, ◌^◌, ◌≤◌, ◌<◌, ◌≡◌, refl, ap, sym, ◌∙◌, List, [], ◌∷◌, ◌++◌, true, false, length,
  arith,
}
use rarm_db.Page.Buffer.{Buffer, slice}
use rarm_db.Page.Buffer.Laws.{length-slice}
use rarm_db.Schema.DataType.{PrimitiveDataType, get_fixed_size}
use rarm_db.Schema.Column.{ColumnDefinition}
use rarm_db.Value.{Decimals, IsLawful, Value}
use rarm_db.Serial.{value, error, ◌>>=◌, SerializationError, get_null_bitmap_size}
use rarm_db.Serial.Write.{
  Sizes, add_size, add_column_sizes, calculate_serialized_record_size, serialize,
}
use rarm_db.Serial.Read.{deserialize}
use rarm_db.Serial.Bitmap.{bit_at_zero}
use rarm_db.Serial.Cell.{Cell, absent, fixed, variable, Fits, stored_size, cell}
use rarm_db.Serial.Layout.{
  Row, fixed_width, variable_width, fixed_total, variable_total, lengths, Holds,
}
use rarm_db.Serial.Slices.{sub_vec-slice}
use rarm_db.Serial.Written.{write_columns-Holds}
use rarm_db.Serial.Reading.{add_fixed_sizes-Holds, read_columns-Holds, nulls_allowed, judged}

module _ (d : Decimals) where
  -- As many values as columns, each null or of its column's type.
  abbrev pub RowFits : List ColumnDefinition → List (Value d) → Type 0
  RowFits [] [] = Unit
  RowFits (c ∷ columns) (v ∷ r) = Fits d c.data_type v × RowFits columns r
  RowFits columns r = ⊥

  -- The bytes of a row's values.
  abbrev pub stored_total : List (Value d) → ℕ
  stored_total [] = 0
  stored_total (v ∷ r) = stored_size d v + stored_total r

  pub row :
      IsLawful d
      → (columns : List ColumnDefinition) (r : List (Value d)) → RowFits columns r
      → Row d columns r
  row laws [] [] w = tt
  row laws (c ∷ columns) (v ∷ r) w = (cell d laws c.data_type v w.0, row laws columns r w.1)
  row laws [] (v ∷ r) w = absurd w
  row laws (c ∷ columns) [] w = absurd w

  widths_add_up :
      (t : PrimitiveDataType) (v : Value d) (x : Cell d t v)
      → fixed_width d x + variable_width d x ≡ stored_size d v
  widths_add_up t v (absent n) = rw n
  widths_add_up t v (fixed x) = omega (arith, x.is_stored)
  widths_add_up t v (variable x) = omega (arith, x.is_stored)

  pub totals_add_up :
      (columns : List ColumnDefinition) (r : List (Value d)) (w : Row d columns r)
      → fixed_total d columns r w + variable_total d columns r w ≡ stored_total r
  totals_add_up [] [] w = refl
  totals_add_up [] (v ∷ r) w = absurd w
  totals_add_up (c ∷ columns) [] w = absurd w
  totals_add_up (c ∷ columns) (v ∷ r) (x, w) =
      omega (arith, widths_add_up c.data_type v x, totals_add_up columns r w)

  -- The sizes with those of the row from here on.
  abbrev with_row :
      (columns : List ColumnDefinition) (r : List (Value d)) → Row d columns r → Sizes → Sizes
  with_row columns r w s = record {
    total_record_size = s.total_record_size + stored_total r;
    fixed_length_size = s.fixed_length_size + fixed_total d columns r w;
    variable_length_sizes = s.variable_length_sizes ++ lengths d columns r w;
  }

  with_row_cons :
      (c : ColumnDefinition) (columns : List ColumnDefinition) (v : Value d) (r : List (Value d))
      (x : Cell d c.data_type v) (w : Row d columns r) (s : Sizes)
      → with_row columns r w (add_size d (get_fixed_size c.data_type) v s)
        ≡ with_row (c ∷ columns) (v ∷ r) (x, w) s
  with_row_cons c columns v r (absent n) w s =
      let z : s.fixed_length_size + (0 + fixed_total d columns r w)
          ≡ s.fixed_length_size + fixed_total d columns r w =
        omega arith in
      let z' : s.total_record_size + (0 + stored_total r) ≡ s.total_record_size + stored_total r =
        omega arith in
      rw (n, z, z')
  with_row_cons c columns v r (fixed x) w s =
      let z : s.fixed_length_size + x.size + fixed_total d columns r w
          ≡ s.fixed_length_size + (x.size + fixed_total d columns r w) =
        omega arith in
      let z' : s.total_record_size + x.size + stored_total r
          ≡ s.total_record_size + (x.size + stored_total r) =
        omega arith in
      rw (x.has_size, x.adds s, x.is_stored, z, z')
  with_row_cons c columns v r (variable x) w s =
      let n = length x.bytes in
      let z : s.fixed_length_size + (0 + fixed_total d columns r w)
          ≡ s.fixed_length_size + fixed_total d columns r w =
        omega arith in
      let z' : s.total_record_size + 4 + length x.bytes + stored_total r
          ≡ s.total_record_size + (4 + length x.bytes + stored_total r) =
        omega arith in
      rw (
        x.no_size,
        x.adds s,
        x.is_stored,
        z,
        z',
        append_assoc s.variable_length_sizes (n ∷ []) (lengths d columns r w),
      )

  add_column_sizes-Row :
      (columns : List ColumnDefinition) (r : List (Value d)) (w : Row d columns r) (s : Sizes)
      → add_column_sizes d columns r s ≡ value (with_row columns r w s)
  unfolding add_column_sizes
  add_column_sizes-Row [] [] w s =
      let z : s.total_record_size + 0 ≡ s.total_record_size = omega arith in
      let z' : s.fixed_length_size + 0 ≡ s.fixed_length_size = omega arith in
      rw (z, z', append-nil s.variable_length_sizes)
  add_column_sizes-Row [] (v ∷ r) w s = absurd w
  add_column_sizes-Row (c ∷ columns) [] w s = absurd w
  add_column_sizes-Row (c ∷ columns) (v ∷ r) (x, w) s =
      add_column_sizes-Row columns r w (add_size d (get_fixed_size c.data_type) v s)
      ∙ ap value (with_row_cons c columns v r x w s)

  -- What `serialize` returns: the first bytes of a buffer that holds the row.
  abbrev Serialized :
      (columns : List ColumnDefinition) (r : List (Value d)) → Row d columns r → Type 0
  Serialized columns r w =
      let nb = get_null_bitmap_size columns in
      let total = nb + stored_total r in
      (b : Buffer) × (serialize d columns r ≡ value (slice b 0 total))
      × Holds d b 0 nb (nb + fixed_total d columns r w) columns r w

  pub bitmap_fits :
      (columns : List ColumnDefinition) → length columns ≤ 8 * get_null_bitmap_size columns
  unfolding get_null_bitmap_size
  bitmap_fits columns = omega arith

  pub serialized :
      (columns : List ColumnDefinition) (r : List (Value d)) (w : Row d columns r)
      → Serialized columns r w
  unfolding serialize calculate_serialized_record_size
  serialized columns r w =
      let nb = get_null_bitmap_size columns in
      let total = nb + stored_total r in
      let F = fixed_total d columns r w in
      let z : 0 + F ≡ F = omega arith in
      let (s, e, holds, fills) =
        write_columns-Holds d total nb columns r w 0 nb (nb + F) (λ i. 0)
          (omega (arith, bitmap_fits columns)) (omega arith) (omega arith)
          (omega (arith, totals_add_up columns r w))
          (record { is_byte = λ q h. omega arith; unset = λ j h k. bit_at_zero j }) in
      (
        s.bytes,
        rw (
          add_column_sizes-Row columns r w (record {
            total_record_size = nb;
            fixed_length_size = 0;
            variable_length_sizes = [];
          }),
          z,
          e,
        ),
        holds,
      )

  deserialize-Serialized :
      (columns : List ColumnDefinition) (r : List (Value d)) (w : Row d columns r)
      → get_null_bitmap_size columns + stored_total r < 2 ^ 64
      → (serialize d columns r >>= λ bytes. deserialize d columns bytes) ≡ judged d columns r
  unfolding deserialize
  deserialize-Serialized columns r w h =
      let nb = get_null_bitmap_size columns in
      let total = nb + stored_total r in
      let F = fixed_total d columns r w in
      let (b, e, holds) = serialized columns r w in
      rw
        (
          e,
          sub_vec-slice b 0 total 0 nb (omega arith),
          add_fixed_sizes-Holds d b nb total columns r w 0 nb (nb + F)
              (omega (arith, bitmap_fits columns)) holds,
        )
        (read_columns-Holds d b nb total columns r w 0 nb (nb + F)
          (omega (arith, bitmap_fits columns)) (omega arith)
          (omega (arith, totals_add_up columns r w)) h holds)

  module _ (laws : IsLawful d) (columns : List ColumnDefinition) (r : List (Value d))
      (w : RowFits columns r) where
    -- For a row of as many values as columns, each null or of its column's type, with each text valid
    -- UTF-8 and each text and blob shorter than 2^31 bytes: `serialize` succeeds, and its record has the bytes of the null bitmap, those of each value that is not null, and
    -- four more for each text and blob.
    pub length-serialize :
        (bytes : List ℕ) × (serialize d columns r ≡ value bytes)
        × (length bytes ≡ get_null_bitmap_size columns + stored_total r)
    length-serialize =
        let (b, e, holds) = serialized columns r (row laws columns r w) in
        let total = get_null_bitmap_size columns + stored_total r in
        (slice b 0 total, e, length-slice b 0 total)

    -- For a row of as many values as columns, each null or of its column's type, with each text valid
    -- UTF-8, each text and blob shorter than 2^31 bytes, no null in a column that is not nullable and
    -- a record of fewer than 2^64 bytes: `serialize` succeeds and `deserialize` returns the row from
    -- its bytes.
    pub deserialize-serialize :
        get_null_bitmap_size columns + stored_total r < 2 ^ 64
        → nulls_allowed d columns r ≡ true
        → (serialize d columns r >>= λ bytes. deserialize d columns bytes) ≡ value r
    deserialize-serialize h k = deserialize-Serialized columns r (row laws columns r w) h ∙ (rw k)

    -- For a row of as many values as columns, each null or of its column's type, with each text valid
    -- UTF-8, each text and blob shorter than 2^31 bytes, a null in a column that is not nullable and
    -- a record of fewer than 2^64 bytes: `serialize` succeeds all the same, and `deserialize` refuses
    -- its bytes with `NullValueForNonNullColumnFound`.
    pub deserialize-serialize_null :
        get_null_bitmap_size columns + stored_total r < 2 ^ 64
        → nulls_allowed d columns r ≡ false
        → (bytes : List ℕ) × (serialize d columns r ≡ value bytes)
          × (deserialize d columns bytes
              ≡ error SerializationError.null_value_for_non_null_column_found)
    deserialize-serialize_null h k =
        let x = row laws columns r w in
        let (b, e, holds) = serialized columns r x in
        let bytes = slice b 0 (get_null_bitmap_size columns + stored_total r) in
        let refused : (value bytes >>= λ bytes. deserialize d columns bytes) ≡ judged d columns r =
          ap (λ a. a >>= λ bytes. deserialize d columns bytes) (sym e)
          ∙ deserialize-Serialized columns r x h in
        (bytes, e, refused ∙ (rw k))
