-- ===== src/Serial/Cell.antt =====
-- A value in a column: what its type allows, and how it is stored.
use rarm_db.Base.{
  ℕ, ◌+◌, ◌^◌, ◌<◌, ◌≡◌, ◌≢◌, refl, List, [], ◌∷◌, ◌++◌, none, some, Bool, true, false, not, ◌==◌,
  length, to_le_bytes, length-to_le_bytes, from_le_bytes-to_le_bytes_4, from_le_bytes-to_le_bytes_8,
  eq→==,
}
use rarm_db.Page.Buffer.{Buffer}
use rarm_db.Schema.DataType.{
  PrimitiveDataType, int, big_int, varchar, boolean, decimal, date_time, float, blob,
  get_fixed_size, is_fixed_size,
}
use rarm_db.Schema.Column.{is_fixed}
use rarm_db.Value.{
  Decimals, IsLawful, Value, null_value, int_value, big_int_value, boolean_value, float_value,
  text_value, blob_value, date_time_value, decimal_value,
}
use rarm_db.Value.Utf8.{is_utf8}
use rarm_db.Serial.{value, ◌>>=◌}
use rarm_db.Serial.Write.{
  Sizes, Cursor, put, put_with_length, add_size, write_column, write_fixed, write_variable,
  write_variable_column, bool_byte,
}
use rarm_db.Serial.Read.{read_fixed, read_variable}

module _ (d : Decimals) where
  -- A value that is stored in a column of the type, with words of the type's width and a text that
  -- is UTF-8. The length of a text or blob is less than 2^31, since it is written as an `i32`: the
  -- type `BLOB(n)` allows more, which the readers panic on. The limit of the type is not needed.
  abbrev pub Matches : PrimitiveDataType → Value d → Type 0
  Matches int (int_value n) = n < 2 ^ 32
  Matches big_int (big_int_value n) = n < 2 ^ 64
  Matches boolean (boolean_value b) = Unit
  Matches float (float_value x) = x < 2 ^ 64
  Matches date_time (date_time_value n) = n < 2 ^ 64
  Matches (decimal p s) (decimal_value v) = Unit
  Matches (varchar m) (text_value bytes) = (length bytes < 2 ^ 31) × (is_utf8 bytes ≡ true)
  Matches (blob m) (blob_value bytes) = length bytes < 2 ^ 31
  Matches t v = ⊥

  -- The bytes that a value takes behind the bitmap.
  abbrev pub stored_size : Value d → ℕ
  stored_size null_value = 0
  stored_size (int_value n) = 4
  stored_size (big_int_value n) = 8
  stored_size (boolean_value b) = 1
  stored_size (float_value n) = 8
  stored_size (date_time_value n) = 8
  stored_size (decimal_value v) = 16
  stored_size (text_value bytes) = 4 + length bytes
  stored_size (blob_value bytes) = 4 + length bytes

  -- A value of a fixed type, as `bytes`.
  pub record FixedCell (t : PrimitiveDataType) (v : Value d) : Type 0 where
    pub size : ℕ
    pub bytes : List ℕ
    pub has_size : get_fixed_size t ≡ some size
    pub fixed_size : is_fixed_size t ≡ true
    pub fixed_type : is_fixed t ≡ true
    pub fills : length bytes ≡ size
    pub is_stored : stored_size v ≡ size
    pub is_not_null : v ≢ null_value
    pub adds :
        (s : Sizes)
        → add_size d (some size) v s ≡ record s {
          total_record_size = s.total_record_size + size;
          fixed_length_size = s.fixed_length_size + size;
        }
    pub writes :
        (total i : ℕ) (s : Cursor)
        → write_column d total i (some size) v s ≡ (
            put total s.bytes s.fixed_offset size bytes >>= λ b.
            value (record s { bytes = b; fixed_offset = s.fixed_offset + size }))
    pub reads : read_fixed d t bytes ≡ value v

  -- A value of a variable type, as `bytes` after their length.
  pub record VariableCell (t : PrimitiveDataType) (v : Value d) : Type 0 where
    pub bytes : List ℕ
    pub no_size : get_fixed_size t ≡ none
    pub variable_size : is_fixed_size t ≡ false
    pub variable_type : is_fixed t ≡ false
    pub short : length bytes < 2 ^ 31
    pub is_stored : stored_size v ≡ 4 + length bytes
    pub is_not_null : v ≢ null_value
    pub adds :
        (s : Sizes)
        → add_size d none v s ≡ record s {
          total_record_size = s.total_record_size + 4 + length bytes;
          variable_length_sizes = s.variable_length_sizes ++ (length bytes ∷ []);
        }
    pub writes :
        (total i : ℕ) (b : Buffer) (fixed_offset variable_offset n : ℕ) (sizes : List ℕ)
        → write_column d total i none v (record {
          bytes = b;
          fixed_offset = fixed_offset;
          variable_offset = variable_offset;
          sizes_left = n ∷ sizes;
        })
          ≡ (put_with_length d total bytes b variable_offset n >>= λ b'. value (record {
            bytes = b';
            fixed_offset = fixed_offset;
            variable_offset = variable_offset + (4 + n);
            sizes_left = sizes;
          }))
    pub reads : read_variable d t bytes ≡ value v

  pub data Cell (t : PrimitiveDataType) (v : Value d) : Type 0 where
    absent : v ≡ null_value → Cell t v
    fixed : FixedCell t v → Cell t v
    variable : VariableCell t v → Cell t v

  abbrev pub Fits : PrimitiveDataType → Value d → Type 0
  Fits t null_value = Unit
  Fits t v = Matches t v

  int_cell : (n : ℕ) → n < 2 ^ 32 → FixedCell int (int_value n)
  unfolding get_fixed_size is_fixed_size write_column write_fixed read_fixed
  int_cell n h = record {
    size = 4;
    bytes = to_le_bytes 4 n;
    has_size = refl;
    fixed_size = refl;
    fixed_type = refl;
    fills = length-to_le_bytes 4 n;
    is_stored = refl;
    is_not_null = λ e. cc;
    adds = λ s. refl;
    writes = λ total i s. refl;
    reads = rw (
      eq→== (length (to_le_bytes 4 n)) 4 (length-to_le_bytes 4 n),
      from_le_bytes-to_le_bytes_4 n h,
    );
  }

  big_int_cell : (n : ℕ) → n < 2 ^ 64 → FixedCell big_int (big_int_value n)
  unfolding get_fixed_size is_fixed_size write_column write_fixed read_fixed
  big_int_cell n h = record {
    size = 8;
    bytes = to_le_bytes 8 n;
    has_size = refl;
    fixed_size = refl;
    fixed_type = refl;
    fills = length-to_le_bytes 8 n;
    is_stored = refl;
    is_not_null = λ e. cc;
    adds = λ s. refl;
    writes = λ total i s. refl;
    reads = rw (
      eq→== (length (to_le_bytes 8 n)) 8 (length-to_le_bytes 8 n),
      from_le_bytes-to_le_bytes_8 n h,
    );
  }

  date_time_cell : (n : ℕ) → n < 2 ^ 64 → FixedCell date_time (date_time_value n)
  unfolding get_fixed_size is_fixed_size write_column write_fixed read_fixed
  date_time_cell n h = record {
    size = 8;
    bytes = to_le_bytes 8 n;
    has_size = refl;
    fixed_size = refl;
    fixed_type = refl;
    fills = length-to_le_bytes 8 n;
    is_stored = refl;
    is_not_null = λ e. cc;
    adds = λ s. refl;
    writes = λ total i s. refl;
    reads = rw (
      eq→== (length (to_le_bytes 8 n)) 8 (length-to_le_bytes 8 n),
      from_le_bytes-to_le_bytes_8 n h,
    );
  }

  float_cell : (n : ℕ) → n < 2 ^ 64 → FixedCell float (float_value n)
  unfolding get_fixed_size is_fixed_size write_column write_fixed read_fixed
  float_cell n h = record {
    size = 8;
    bytes = to_le_bytes 8 n;
    has_size = refl;
    fixed_size = refl;
    fixed_type = refl;
    fills = length-to_le_bytes 8 n;
    is_stored = refl;
    is_not_null = λ e. cc;
    adds = λ s. refl;
    writes = λ total i s. refl;
    reads = rw (
      eq→== (length (to_le_bytes 8 n)) 8 (length-to_le_bytes 8 n),
      from_le_bytes-to_le_bytes_8 n h,
    );
  }

  read_bool : (b : Bool) → not (bool_byte b == 0) ≡ b
  read_bool true = refl
  read_bool false = refl

  boolean_cell : (b : Bool) → FixedCell boolean (boolean_value b)
  unfolding get_fixed_size is_fixed_size write_column write_fixed read_fixed
  boolean_cell b = record {
    size = 1;
    bytes = bool_byte b ∷ [];
    has_size = refl;
    fixed_size = refl;
    fixed_type = refl;
    fills = refl;
    is_stored = refl;
    is_not_null = λ e. cc;
    adds = λ s. refl;
    writes = λ total i s. refl;
    reads = rw (read_bool b);
  }

  decimal_cell : IsLawful d → (p s : ℕ) (v : d.Decimal) → FixedCell (decimal p s) (decimal_value v)
  unfolding get_fixed_size is_fixed_size write_column write_fixed read_fixed
  decimal_cell laws p s v = record {
    size = 16;
    bytes = d.serialize v;
    has_size = refl;
    fixed_size = refl;
    fixed_type = refl;
    fills = laws.length-serialize v;
    is_stored = refl;
    is_not_null = λ e. cc;
    adds = λ s. refl;
    writes = λ total i s. refl;
    reads =
        rw (
          eq→== (length (d.serialize v)) 16 (laws.length-serialize v),
          laws.deserialize-serialize v,
        );
  }

  blob_cell :
      (m : ℕ) (bytes : List ℕ) → length bytes < 2 ^ 31 → VariableCell (blob m) (blob_value bytes)
  unfolding get_fixed_size is_fixed_size write_column write_variable_column write_variable
      read_variable
  blob_cell m bytes h = record {
    bytes = bytes;
    no_size = refl;
    variable_size = refl;
    variable_type = refl;
    short = h;
    is_stored = refl;
    is_not_null = λ e. cc;
    adds = λ s. refl;
    writes = λ total i b fixed_offset variable_offset n sizes. refl;
    reads = refl;
  }

  text_cell :
      (m : ℕ) (bytes : List ℕ)
      → length bytes < 2 ^ 31
      → is_utf8 bytes ≡ true
      → VariableCell (varchar m) (text_value bytes)
  unfolding get_fixed_size is_fixed_size write_column write_variable_column write_variable
      read_variable
  text_cell m bytes h u = record {
    bytes = bytes;
    no_size = refl;
    variable_size = refl;
    variable_type = refl;
    short = h;
    is_stored = refl;
    is_not_null = λ e. cc;
    adds = λ s. refl;
    writes = λ total i b fixed_offset variable_offset n sizes. refl;
    reads = rw u;
  }

  -- Each value that fits its column is stored in one of the three ways.
  pub cell : IsLawful d → (t : PrimitiveDataType) (v : Value d) → Fits t v → Cell t v
  cell laws t null_value h = absent refl
  cell laws int (int_value n) h = fixed (int_cell n h)
  cell laws big_int (big_int_value n) h = fixed (big_int_cell n h)
  cell laws boolean (boolean_value b) h = fixed (boolean_cell b)
  cell laws float (float_value n) h = fixed (float_cell n h)
  cell laws date_time (date_time_value n) h = fixed (date_time_cell n h)
  cell laws (decimal p s) (decimal_value v) h = fixed (decimal_cell laws p s v)
  cell laws (varchar m) (text_value bytes) h = variable (text_cell m bytes h.0 h.1)
  cell laws (blob m) (blob_value bytes) h = variable (blob_cell m bytes h)
  cell laws _ _ h = absurd h
