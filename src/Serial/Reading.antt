-- ===== src/Serial/Reading.antt =====
-- `deserialize` on the bytes of a row: what each column and the whole loop read.
use rarm_db.Base.{
  ℕ, ◌+◌, ◌-◌, ◌*◌, ◌^◌, ◌≤◌, ◌<◌, ◌≡◌, ◌≢◌, refl, ◌∙◌, List, [], ◌∷◌, Bool, true, false, ◌&&◌,
  ◌||◌, if◌then◌else◌, not, length, arith, to_le_bytes, from_le_bytes-to_le_bytes_4, lt→ltb,
  Bool-cases, inl, inr,
}
use rarm_db.Page.Buffer.{Buffer, slice}
use rarm_db.Schema.DataType.{PrimitiveDataType}
use rarm_db.Schema.Column.{ColumnDefinition, is_fixed_type}
use rarm_db.Value.{Decimals, DataValue, Value, null_value}
use rarm_db.Serial.{Attempt, value, error, ◌>>=◌, SerializationError}
use rarm_db.Serial.Read.{
  add_fixed_sizes, deserialize_col_value, deserialize_fixed_sized_col_value,
  deserialize_variable_sized_col_value, read_columns,
}
use rarm_db.Serial.Cell.{absent, fixed, variable, FixedCell, VariableCell}
use rarm_db.Serial.Layout.{Row, fixed_total, variable_total, Holds}
use rarm_db.Serial.Slices.{sub_vec-slice, is_col_value_null-slice, read_length-slice}

abbrev pub is_null : {D : Type 0} → DataValue D → Bool
is_null null_value = true
is_null v = false

-- No null stands in a column that does not take it.
abbrev pub nulls_allowed : (d : Decimals) → List ColumnDefinition → List (Value d) → Bool
nulls_allowed d [] r = true
nulls_allowed d (c ∷ columns) [] = true
nulls_allowed d (c ∷ columns) (v ∷ r) =
    (not (is_null v) || c.is_nullable) && nulls_allowed d columns r

-- What the loop of `deserialize` finds: the row, or the error for a null.
abbrev pub judged :
    (d : Decimals) → List ColumnDefinition → List (Value d) → Attempt (List (Value d))
judged d columns r =
    if nulls_allowed d columns r
    then value r
    else error SerializationError.null_value_for_non_null_column_found

module _ (d : Decimals) (b : Buffer) (nb total : ℕ) where
  -- The offset of the variable values is behind the fixed ones.
  pub add_fixed_sizes-Holds :
      (columns : List ColumnDefinition) (r : List (Value d)) (w : Row d columns r) (i fo vo : ℕ)
      → i + length columns ≤ 8 * nb
      → Holds d b i fo vo columns r w
      → add_fixed_sizes columns i (slice b 0 nb) fo ≡ value (fo + fixed_total d columns r w)
  unfolding add_fixed_sizes is_fixed_type
  add_fixed_sizes-Holds [] [] w i fo vo h k = let e : fo + 0 ≡ fo = omega arith in rw e
  add_fixed_sizes-Holds [] (v ∷ r) w i fo vo h k = absurd w
  add_fixed_sizes-Holds (c ∷ columns) [] w i fo vo h k = absurd w
  add_fixed_sizes-Holds (c ∷ columns) (v ∷ r) (absent n, w) i fo vo h (k, ks) =
      let z : fo + 0 ≡ fo = omega arith in
      let z' : 0 + fixed_total d columns r w ≡ fixed_total d columns r w = omega arith in
      let ih = add_fixed_sizes-Holds columns r w (i + 1) (fo + 0) (vo + 0) (omega arith) ks in
      rw (is_col_value_null-slice b nb i (omega arith), k, z') (rw z at ih)
  add_fixed_sizes-Holds (c ∷ columns) (v ∷ r) (fixed x, w) i fo vo h (k, ks) =
      let z : fo + x.size + fixed_total d columns r w ≡ fo + (x.size + fixed_total d columns r w) =
        omega arith in
      rw (is_col_value_null-slice b nb i (omega arith), k.0, x.fixed_type, x.has_size)
        (add_fixed_sizes-Holds columns r w (i + 1) (fo + x.size) (vo + 0) (omega arith) ks ∙ (rw z))
  add_fixed_sizes-Holds (c ∷ columns) (v ∷ r) (variable x, w) i fo vo h (k, ks) =
      let z : fo + 0 ≡ fo = omega arith in
      let z' : 0 + fixed_total d columns r w ≡ fixed_total d columns r w = omega arith in
      let ih =
        add_fixed_sizes-Holds columns r w (i + 1) (fo + 0) (vo + (4 + length x.bytes)) (omega arith)
          ks in
      rw (is_col_value_null-slice b nb i (omega arith), k.0, x.variable_type, z') (rw z at ih)

  -- A value that is there is read, and the offsets move behind it.
  fixed_col_value :
      (t : PrimitiveDataType) (v : Value d) (x : FixedCell d t v) (fo vo : ℕ)
      → fo + x.size ≤ total
      → slice b fo x.size ≡ x.bytes
      → deserialize_col_value d t (slice b 0 total) fo vo ≡ value (v, fo + x.size, vo)
  unfolding deserialize_col_value deserialize_fixed_sized_col_value
  fixed_col_value t v x fo vo h e =
      let z : 0 + fo ≡ fo = omega arith in
      rw (x.fixed_size, x.has_size, sub_vec-slice b 0 total fo x.size h, z, e, x.reads)

  variable_col_value :
      (t : PrimitiveDataType) (v : Value d) (x : VariableCell d t v) (fo vo : ℕ)
      → vo + (4 + length x.bytes) ≤ total
      → total < 2 ^ 64
      → slice b vo 4 ≡ to_le_bytes 4 (length x.bytes)
      → slice b (vo + 4) (length x.bytes) ≡ x.bytes
      → deserialize_col_value d t (slice b 0 total) fo vo ≡ value (v, fo, vo + (4 + length x.bytes))
  unfolding deserialize_col_value deserialize_variable_sized_col_value
  variable_col_value t v x fo vo h k e e' =
      let n = length x.bytes in
      let z : vo + 4 + 0 ≡ vo + 4 = omega arith in
      let z' : vo + 4 + length x.bytes ≡ vo + (4 + length x.bytes) = omega arith in
      rw (
        x.variable_size,
        read_length-slice b total vo (omega arith),
        e,
        from_le_bytes-to_le_bytes_4 n (omega (arith, x.short)),
        lt→ltb n (2 ^ 31) x.short,
        sub_vec-slice b (vo + 4) (total - vo - 4) 0 n (omega arith),
        z,
        e',
        x.reads,
        z',
        lt→ltb (vo + (4 + n)) (2 ^ 64) (omega arith),
      )

  judged_cons :
      (c : ColumnDefinition) (columns : List ColumnDefinition) (v : Value d) (r : List (Value d))
      → (not (is_null v) || c.is_nullable) ≡ true
      → (judged d columns r >>= λ r'. value (v ∷ r')) ≡ judged d (c ∷ columns) (v ∷ r)
  judged_cons c columns v r e = elim (Bool-cases (nulls_allowed d columns r)) [
    | inl h ↦ rw (e, h)
    | inr h ↦ rw (e, h)
  ]

  judged_null :
      (c : ColumnDefinition) (columns : List ColumnDefinition) (r : List (Value d))
      (rest : Attempt (List (Value d)))
      → rest ≡ judged d columns r
      → (elim c.is_nullable [
        | false ↦ error SerializationError.null_value_for_non_null_column_found
        | true ↦ rest >>= λ r'. value (null_value ∷ r')
      ])
        ≡ judged d (c ∷ columns) (null_value ∷ r)
  judged_null c columns r rest e = elim (Bool-cases c.is_nullable) [
    | inl n ↦ rw (n, e) (rw n at (judged_cons c columns null_value r n))
    | inr n ↦ rw n
  ]

  is_not_null_lem : (v : Value d) → v ≢ null_value → (c : Bool) → (not (is_null v) || c) ≡ true
  is_not_null_lem null_value n c = absurd (n refl)
  is_not_null_lem _ n c = refl

  pub read_columns-Holds :
      (columns : List ColumnDefinition) (r : List (Value d)) (w : Row d columns r) (i fo vo : ℕ)
      → i + length columns ≤ 8 * nb
      → fo + fixed_total d columns r w ≤ vo
      → vo + variable_total d columns r w ≤ total
      → total < 2 ^ 64
      → Holds d b i fo vo columns r w
      → read_columns d columns i (slice b 0 nb) (slice b 0 total) fo vo ≡ judged d columns r
  unfolding read_columns
  read_columns-Holds [] [] w i fo vo h1 h2 h3 h4 k = refl
  read_columns-Holds [] (v ∷ r) w i fo vo h1 h2 h3 h4 k = absurd w
  read_columns-Holds (c ∷ columns) [] w i fo vo h1 h2 h3 h4 k = absurd w
  read_columns-Holds (c ∷ columns) (v ∷ r) (absent n, w) i fo vo h1 h2 h3 h4 (k, ks) =
      let z : fo + 0 ≡ fo = omega arith in
      let z' : vo + 0 ≡ vo = omega arith in
      let ih =
        read_columns-Holds columns r w (i + 1) (fo + 0) (vo + 0) (omega arith) (omega arith)
          (omega arith) h4 ks in
      rw (is_col_value_null-slice b nb i (omega arith), k, n)
        (judged_null c columns r
          (read_columns d columns (i + 1) (slice b 0 nb) (slice b 0 total) fo vo)
          (rw (z, z') at ih))
  read_columns-Holds (c ∷ columns) (v ∷ r) (fixed x, w) i fo vo h1 h2 h3 h4 (k, ks) =
      let z' : vo + 0 ≡ vo = omega arith in
      let ih =
        read_columns-Holds columns r w (i + 1) (fo + x.size) (vo + 0) (omega arith) (omega arith)
          (omega arith) h4 ks in
      rw
        (
          is_col_value_null-slice b nb i (omega arith),
          k.0,
          fixed_col_value c.data_type v x fo vo (omega arith) k.1,
          (rw z' at ih),
        )
        (judged_cons c columns v r (is_not_null_lem v x.is_not_null c.is_nullable))
  read_columns-Holds (c ∷ columns) (v ∷ r) (variable x, w) i fo vo h1 h2 h3 h4 (k, ks) =
      let z : fo + 0 ≡ fo = omega arith in
      let ih =
        read_columns-Holds columns r w (i + 1) (fo + 0) (vo + (4 + length x.bytes)) (omega arith)
          (omega arith) (omega arith) h4 ks in
      rw
        (
          is_col_value_null-slice b nb i (omega arith),
          k.0,
          variable_col_value c.data_type v x fo vo (omega arith) h4 k.1 k.2,
          (rw z at ih),
        )
        (judged_cons c columns v r (is_not_null_lem v x.is_not_null c.is_nullable))
