-- ===== src/Serial/KeyRead.antt =====
-- `deserialize_key` finds in the bytes of a row the key that the row itself has.
use rarm_db.Base.{
  ℕ, ◌+◌, ◌-◌, ◌*◌, ◌^◌, ◌≤◌, ◌<◌, ◌≡◌, ◌≢◌, refl, sym, List, [], ◌∷◌, true, false, leb, length,
  set, replicate, arith, Option, none, some, to_le_bytes, from_le_bytes-to_le_bytes_4, lt→ltb,
  Bool-cases, Option-cases, inl, inr, leb→le,
}
use rarm_db.Page.Buffer.{Buffer, slice}
use rarm_db.Schema.Column.{ColumnDefinition, is_fixed_type}
use rarm_db.Value.{Decimals, IsLawful, Value, null_value}
use rarm_db.Serial.{Attempt, value, error, ◌>>=◌, SerializationError, get_null_bitmap_size}
use rarm_db.Serial.Write.{serialize}
use rarm_db.Serial.Read.{deserialize_fixed_sized_col_value, deserialize_variable_sized_col_value}
use rarm_db.Serial.Key.{position, store, key_value, read_key, deserialize_key}
use rarm_db.Serial.Bitmap.{bit_at}
use rarm_db.Serial.Cell.{Cell, absent, fixed, variable, FixedCell, VariableCell}
use rarm_db.Serial.Layout.{
  Row, fixed_width, variable_width, fixed_total, variable_total, HoldsCell, Holds,
}
use rarm_db.Serial.Slices.{sub_vec-slice, is_col_value_null-slice, read_length-slice}
use rarm_db.Serial.Reading.{is_null, add_fixed_sizes-Holds}
use rarm_db.Serial.RoundTrip.{RowFits, stored_total, row, serialized, bitmap_fits, totals_add_up}

-- The number of columns that are in the key.
abbrev pub key_count : List ColumnDefinition → List ColumnDefinition → ℕ
key_count key_cols [] = 0
key_count key_cols (c ∷ columns) =
    elim (position key_cols c.name) [ none ↦ 0 | some k ↦ 1 ] + key_count key_cols columns

-- The key of a row: each value of a key column at the index of that column, and none of them null.
abbrev pub picked :
    (d : Decimals)
    → List ColumnDefinition
    → List ColumnDefinition
    → List (Value d)
    → List (Value d)
    → Attempt (List (Value d))
picked d key_cols [] r keys = value keys
picked d key_cols (c ∷ columns) [] keys = value keys
picked d key_cols (c ∷ columns) (v ∷ r) keys = elim (position key_cols c.name) [
  | none ↦ picked d key_cols columns r keys
  | some k ↦ elim (is_null v) [
    | true ↦ error SerializationError.null_primary_key_column_value
    | false ↦ picked d key_cols columns r (set keys k v)
  ]
]

module _ (d : Decimals) (b : Buffer) (nb total : ℕ) (key_cols : List ColumnDefinition) where
  abbrev stored : Option ℕ → Value d → List (Value d) → List (Value d)
  stored none v keys = keys
  stored (some k) v keys = set keys k v

  store_value :
      (key : Option ℕ) (v : Value d) (keys : List (Value d))
      → store d key (value v) keys ≡ value (stored key v keys)
  store_value none v keys = refl
  store_value (some k) v keys = refl

  fixed_key_value :
      (c : ColumnDefinition) (v : Value d) (x : FixedCell d c.data_type v) (fo vo : ℕ)
      (key : Option ℕ) (keys : List (Value d))
      → fo + x.size ≤ total
      → slice b fo x.size ≡ x.bytes
      → key_value d c (slice b 0 total) fo vo key keys ≡ value (stored key v keys, fo + x.size, vo)
  unfolding key_value deserialize_fixed_sized_col_value is_fixed_type
  fixed_key_value c v x fo vo key keys h e =
      let z : 0 + fo ≡ fo = omega arith in
      rw (
        x.fixed_type,
        x.has_size,
        sub_vec-slice b 0 total fo x.size h,
        z,
        e,
        x.reads,
        store_value key v keys,
      )

  variable_key_value :
      (c : ColumnDefinition) (v : Value d) (x : VariableCell d c.data_type v) (fo vo : ℕ)
      (key : Option ℕ) (keys : List (Value d))
      → vo + (4 + length x.bytes) ≤ total
      → total < 2 ^ 64
      → slice b vo 4 ≡ to_le_bytes 4 (length x.bytes)
      → slice b (vo + 4) (length x.bytes) ≡ x.bytes
      → key_value d c (slice b 0 total) fo vo key keys
        ≡ value (stored key v keys, fo, vo + (4 + length x.bytes))
  unfolding key_value deserialize_variable_sized_col_value is_fixed_type
  variable_key_value c v x fo vo key keys h k e e' =
      let n = length x.bytes in
      let z : vo + 4 + 0 ≡ vo + 4 = omega arith in
      let z' : vo + 4 + length x.bytes ≡ vo + (4 + length x.bytes) = omega arith in
      rw (
        x.variable_type,
        read_length-slice b total vo (omega arith),
        e,
        from_le_bytes-to_le_bytes_4 n (omega (arith, x.short)),
        lt→ltb n (2 ^ 31) x.short,
        sub_vec-slice b (vo + 4) (total - vo - 4) 0 n (omega arith),
        z,
        e',
        x.reads,
        store_value key v keys,
        z',
        lt→ltb (vo + (4 + n)) (2 ^ 64) (omega arith),
      )

  -- Columns that are not in the key change nothing.
  picked_none :
      (columns : List ColumnDefinition) (r keys : List (Value d))
      → key_count key_cols columns ≡ 0
      → picked d key_cols columns r keys ≡ value keys
  picked_none [] r keys h = refl
  picked_none (c ∷ columns) [] keys h = refl
  picked_none (c ∷ columns) (v ∷ r) keys h = ground (arith, picked_none columns r keys)

  is_null-false : (v : Value d) → v ≢ null_value → is_null v ≡ false
  is_null-false null_value n = absurd (n refl)
  is_null-false _ n = refl

  -- The loop from a column on, and what it is to return.
  abbrev Reads :
      (columns : List ColumnDefinition) (r : List (Value d)) (i fo vo found : ℕ)
      (keys : List (Value d))
      → Type 0
  Reads columns r i fo vo found keys =
      read_key d key_cols columns i (slice b 0 nb) (slice b 0 total) fo vo found keys
      ≡ picked d key_cols columns r keys

  done_reading :
      (c : ColumnDefinition) (columns : List ColumnDefinition) (v : Value d) (r : List (Value d))
      (i fo vo found : ℕ) (keys : List (Value d))
      → leb (length key_cols) found ≡ true
      → found + key_count key_cols (c ∷ columns) ≡ length key_cols
      → Reads (c ∷ columns) (v ∷ r) i fo vo found keys
  unfolding read_key
  done_reading c columns v r i fo vo found keys h e =
      let le : length key_cols ≤ found = leb→le (length key_cols) found h in
      rw h (sym (picked_none (c ∷ columns) (v ∷ r) keys (omega arith)))

  absent_reading :
      (c : ColumnDefinition) (columns : List ColumnDefinition) (v : Value d) (r : List (Value d))
      (i fo vo found : ℕ) (keys : List (Value d))
      → leb (length key_cols) found ≡ false
      → i < 8 * nb
      → v ≡ null_value
      → bit_at b i ≡ true
      → (position key_cols c.name ≡ none → Reads columns r (i + 1) fo vo found keys)
      → Reads (c ∷ columns) (v ∷ r) i fo vo found keys
  unfolding read_key
  absent_reading c columns v r i fo vo found keys h hi n k ih =
      elim (Option-cases (position key_cols c.name)) [
        | inl e ↦ rw (h, is_col_value_null-slice b nb i hi, k, e, picked) (ih e)
        | inr (j, e) ↦ rw (h, is_col_value_null-slice b nb i hi, k, e, n, picked)
      ]

  present_reading :
      (c : ColumnDefinition) (columns : List ColumnDefinition) (v : Value d) (r : List (Value d))
      (i fo vo fo' vo' found : ℕ) (keys : List (Value d))
      → leb (length key_cols) found ≡ false
      → i < 8 * nb
      → is_null v ≡ false
      → bit_at b i ≡ false
      → ((key : Option ℕ)
          → key_value d c (slice b 0 total) fo vo key keys ≡ value (stored key v keys, fo', vo'))
      → ((keys' : List (Value d)) (found' : ℕ)
          → found' ≡ found + elim (position key_cols c.name) [ none ↦ 0 | some k ↦ 1 ]
          → Reads columns r (i + 1) fo' vo' found' keys')
      → Reads (c ∷ columns) (v ∷ r) i fo vo found keys
  unfolding read_key
  present_reading c columns v r i fo vo fo' vo' found keys h hi n k kv ih =
      elim (Option-cases (position key_cols c.name)) [
        | inl e ↦
            rw (h, is_col_value_null-slice b nb i hi, k, e, kv none, picked)
              (ih keys found (rw e (omega arith)))
        | inr (j, e) ↦
            rw (h, is_col_value_null-slice b nb i hi, k, e, kv (some j), n, picked)
              (ih (set keys j v) (found + 1) (rw e))
      ]

  pub read_key-Holds :
      (columns : List ColumnDefinition) (r : List (Value d)) (w : Row d columns r)
      (i fo vo found : ℕ) (keys : List (Value d))
      → i + length columns ≤ 8 * nb
      → fo + fixed_total d columns r w ≤ vo
      → vo + variable_total d columns r w ≤ total
      → total < 2 ^ 64
      → found + key_count key_cols columns ≡ length key_cols
      → Holds d b i fo vo columns r w
      → Reads columns r i fo vo found keys
  unfolding read_key
  read_key-Holds [] [] w i fo vo found keys h1 h2 h3 h4 h5 k = refl
  read_key-Holds [] (v ∷ r) w i fo vo found keys h1 h2 h3 h4 h5 k = absurd w
  read_key-Holds (c ∷ columns) [] w i fo vo found keys h1 h2 h3 h4 h5 k = absurd w
  read_key-Holds (c ∷ columns) (v ∷ r) (x, w) i fo vo found keys h1 h2 h3 h4 h5 (k, ks) =
      elim (Bool-cases (leb (length key_cols) found)) [
        | inl h ↦ done_reading c columns v r i fo vo found keys h h5
        | inr h ↦ round x h2 h3 k h (λ keys' found' e.
            read_key-Holds columns r w (i + 1) (fo + fixed_width d x) (vo + variable_width d x)
              found' keys' (omega arith) (omega arith) (omega arith) h4 (omega arith) ks)
      ]
    where
      round :
          (x : Cell d c.data_type v)
          → fo + (fixed_width d x + fixed_total d columns r w) ≤ vo
          → vo + (variable_width d x + variable_total d columns r w) ≤ total
          → HoldsCell d b i fo vo x
          → leb (length key_cols) found ≡ false
          → ((keys' : List (Value d)) (found' : ℕ)
              → found' ≡ found + elim (position key_cols c.name) [ none ↦ 0 | some k ↦ 1 ]
              → Reads columns r
                  (i + 1)
                  (fo + fixed_width d x)
                  (vo + variable_width d x)
                  found'
                  keys')
          → Reads (c ∷ columns) (v ∷ r) i fo vo found keys
      round (absent n) l1 l2 k h ih =
          absent_reading c columns v r i fo vo found keys h (omega arith) n k (λ e.
            let z : fo + 0 ≡ fo = omega arith in
            let z' : vo + 0 ≡ vo = omega arith in
            rw (z, z') at (ih keys found (rw e (omega arith))))
      round (fixed x) l1 l2 k h ih =
          let z : vo + 0 ≡ vo = omega arith in
          present_reading c columns v r i fo vo (fo + x.size) vo found keys h (omega arith)
            (is_null-false v x.is_not_null) k.0
            (λ key. fixed_key_value c v x fo vo key keys (omega arith) k.1)
            (λ keys' found' e. rw z at (ih keys' found' e))
      round (variable x) l1 l2 k h ih =
          let z : fo + 0 ≡ fo = omega arith in
          present_reading c columns v r i fo vo fo (vo + (4 + length x.bytes)) found keys h
            (omega arith) (is_null-false v x.is_not_null) k.0
            (λ key. variable_key_value c v x fo vo key keys (omega arith) h4 k.1 k.2)
            (λ keys' found' e. rw z at (ih keys' found' e))

-- Each key column names exactly one of the columns, when the counts agree.
module _ (d : Decimals) (laws : IsLawful d) (columns key_cols : List ColumnDefinition)
    (r : List (Value d)) (w : RowFits d columns r)
    (short : get_null_bitmap_size columns + stored_total d r < 2 ^ 64)
    (one_each : key_count key_cols columns ≡ length key_cols) where
  -- For a row of as many values as columns, each null or of its column's type, with each text valid
  -- UTF-8 and each text and blob shorter than 2^31 bytes, whose record has fewer than 2^64 bytes, and
  -- key columns of which there are as many as columns with such a name: `deserialize_key`
  -- on the bytes of `serialize` returns the values of the row's key columns, each at the index of
  -- its column in the key, or `NullPrimaryKeyColumnValue` if one of them is null.
  pub deserialize_key-serialize :
      (serialize d columns r >>= λ bytes. deserialize_key d columns key_cols bytes)
      ≡ picked d key_cols columns r (replicate (length key_cols) null_value)
  unfolding deserialize_key
  deserialize_key-serialize =
      let x = row d laws columns r w in
      let nb = get_null_bitmap_size columns in
      let total = nb + stored_total d r in
      let F = fixed_total d columns r x in
      let (b, e, holds) = serialized d columns r x in
      rw
        (
          e,
          sub_vec-slice b 0 total 0 nb (omega arith),
          add_fixed_sizes-Holds d b nb total columns r x 0 nb (nb + F)
              (omega (arith, bitmap_fits d columns)) holds,
        )
        (read_key-Holds d b nb total key_cols columns r x 0 nb (nb + F) 0
          (replicate (length key_cols) null_value) (omega (arith, bitmap_fits d columns))
          (omega arith) (omega (arith, totals_add_up d columns r x)) short (omega (arith, one_each))
          holds)
