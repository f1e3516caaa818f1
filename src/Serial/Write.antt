-- ===== src/Serial/Write.antt =====
-- `serialize` and `calculate_serialized_record_size`.
use Prim.Native.Nat.{bit_or}
use rarm_db.Base.{
  ℕ, ◌+◌, ◌/◌, ◌%◌, ◌^◌, List, [], ◌∷◌, ◌++◌, Option, none, some, Bool, true, false, ltb, ◌==◌,
  if◌then◌else◌, length, to_le_bytes,
}
use rarm_db.Page.Buffer.{Buffer, slice, overlay}
use rarm_db.Schema.DataType.{get_fixed_size}
use rarm_db.Schema.Column.{ColumnDefinition}
use rarm_db.Value.{
  Decimals, Value, null_value, int_value, big_int_value, boolean_value, float_value, text_value,
  blob_value, date_time_value, decimal_value,
}
use rarm_db.Serial.{Attempt, value, error, panics, ◌>>=◌, SerializationError, get_null_bitmap_size}

-- The number that a `bool` is cast to.
abbrev pub bool_byte : Bool → ℕ
bool_byte true = 1
bool_byte false = 0

-- `bytes[off..off + n].copy_from_slice(v)` in a vector of `total` bytes.
unfoldable pub put : ℕ → Buffer → ℕ → ℕ → List ℕ → Attempt Buffer
put total b off n v =
    if ltb total (off + n)
    then panics
    else if length v == n
    then value (overlay b off v)
    else panics

-- `bytes[i / 8] |= 1 << (i % 8)`
unfoldable pub set_null : ℕ → Buffer → ℕ → Attempt Buffer
set_null total b i =
    if ltb (i / 8) total
    then value (overlay b (i / 8) (bit_or (b (i / 8)) (2 ^ (i % 8)) ∷ []))
    else panics

-- The sizes while they are added up.
pub record Sizes : Type 0 where
  pub total_record_size : ℕ
  pub fixed_length_size : ℕ
  pub variable_length_sizes : List ℕ

-- Where the next values go, and the sizes of the variable values that are still to come.
pub record Cursor : Type 0 where
  pub bytes : Buffer
  pub fixed_offset : ℕ
  pub variable_offset : ℕ
  pub sizes_left : List ℕ

module _ (d : Decimals) where
  -- A variable value adds the four bytes of its length and its bytes; any other value in a
  -- variable column adds the four bytes only.
  abbrev pub add_variable_size : Value d → Sizes → Sizes
  add_variable_size (blob_value val) s = record {
    total_record_size = s.total_record_size + 4 + length val;
    fixed_length_size = s.fixed_length_size;
    variable_length_sizes = s.variable_length_sizes ++ (length val ∷ []);
  }
  add_variable_size (text_value val) s = record {
    total_record_size = s.total_record_size + 4 + length val;
    fixed_length_size = s.fixed_length_size;
    variable_length_sizes = s.variable_length_sizes ++ (length val ∷ []);
  }
  add_variable_size v s = record s { total_record_size = s.total_record_size + 4 }

  abbrev pub add_size : Option ℕ → Value d → Sizes → Sizes
  add_size size null_value s = s
  add_size (some fixed_size) v s = record s {
    total_record_size = s.total_record_size + fixed_size;
    fixed_length_size = s.fixed_length_size + fixed_size;
  }
  add_size none v s = add_variable_size v s

  -- The loop of `calculate_serialized_record_size`; `record[i]` panics past the end.
  unfoldable pub add_column_sizes : List ColumnDefinition → List (Value d) → Sizes → Attempt Sizes
  add_column_sizes [] r s = value s
  add_column_sizes (c ∷ columns) [] s = panics
  add_column_sizes (c ∷ columns) (v ∷ r) s =
      add_column_sizes columns r (add_size (get_fixed_size c.data_type) v s)

  unfoldable pub calculate_serialized_record_size :
      List ColumnDefinition → List (Value d) → Attempt Sizes
  calculate_serialized_record_size columns r = add_column_sizes columns r (record {
    total_record_size = get_null_bitmap_size columns;
    fixed_length_size = 0;
    variable_length_sizes = [];
  })

  -- The match on a value in a fixed column of `size` bytes.
  unfoldable pub write_fixed : ℕ → Value d → Buffer → ℕ → ℕ → Attempt Buffer
  write_fixed total (big_int_value val) b off size = put total b off size (to_le_bytes 8 val)
  write_fixed total (boolean_value val) b off size = put total b off 1 (bool_byte val ∷ [])
  write_fixed total (date_time_value val) b off size = put total b off size (to_le_bytes 8 val)
  write_fixed total (decimal_value val) b off size = put total b off size (d.serialize val)
  write_fixed total (float_value val) b off size = put total b off size (to_le_bytes 8 val)
  write_fixed total (int_value val) b off size = put total b off size (to_le_bytes 4 val)
  write_fixed total v b off size = error SerializationError.data_type_mismatch

  abbrev pub put_with_length : ℕ → List ℕ → Buffer → ℕ → ℕ → Attempt Buffer
  put_with_length total val b length_offset variable_length = do
    b ← put total b length_offset 4 (to_le_bytes 4 (variable_length % 2 ^ 32))
    put total b (length_offset + 4) variable_length val

  -- The match on a value in a variable column.
  unfoldable pub write_variable : ℕ → Value d → Buffer → ℕ → ℕ → Attempt Buffer
  write_variable total (blob_value val) b off size = put_with_length total val b off size
  write_variable total (text_value val) b off size = put_with_length total val b off size
  write_variable total v b off size = error SerializationError.data_type_mismatch

  -- One round of the loop of `serialize`, for the column `i`.
  unfoldable pub write_variable_column : ℕ → Value d → Cursor → List ℕ → Attempt Cursor
  write_variable_column total v s [] = panics
  write_variable_column total v s (variable_length ∷ sizes) = do
    b ← write_variable total v s.bytes s.variable_offset variable_length
    value (record {
      bytes = b;
      fixed_offset = s.fixed_offset;
      variable_offset = s.variable_offset + (4 + variable_length);
      sizes_left = sizes;
    })

  unfoldable pub write_column : ℕ → ℕ → Option ℕ → Value d → Cursor → Attempt Cursor
  write_column total i size null_value s = do
    b ← set_null total s.bytes i
    value (record s { bytes = b })
  write_column total i (some fixed_size) v s = do
    b ← write_fixed total v s.bytes s.fixed_offset fixed_size
    value (record s { bytes = b; fixed_offset = s.fixed_offset + fixed_size })
  write_column total i none v s = write_variable_column total v s s.sizes_left

  -- The loop stops at the end of the columns or of the values, whichever is first.
  unfoldable pub write_columns :
      ℕ → ℕ → List ColumnDefinition → List (Value d) → Cursor → Attempt Cursor
  write_columns total i [] r s = value s
  write_columns total i (c ∷ columns) [] s = value s
  write_columns total i (c ∷ columns) (v ∷ r) s =
      write_column total i (get_fixed_size c.data_type) v s >>= λ s'.
      write_columns total (i + 1) columns r s'

  unfoldable pub serialize : List ColumnDefinition → List (Value d) → Attempt (List ℕ)
  serialize columns r = do
    let null_bitmap_size = get_null_bitmap_size columns
    sizes ← calculate_serialized_record_size columns r
    s ← write_columns sizes.total_record_size 0 columns r (record {
      bytes = λ i. 0;
      fixed_offset = null_bitmap_size;
      variable_offset = null_bitmap_size + sizes.fixed_length_size;
      sizes_left = sizes.variable_length_sizes;
    })
    value (slice s.bytes 0 sizes.total_record_size)
