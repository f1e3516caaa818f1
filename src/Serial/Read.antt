-- ===== src/Serial/Read.antt =====
-- `deserialize`, `deserialize_key` and `deserialize_primary_key`.
use Prim.Native.Nat.{bit_and}
use rarm_db.Base.{
  ℕ, ◌+◌, ◌-◌, ◌/◌, ◌%◌, ◌^◌, List, [], ◌∷◌, Bool, true, false, not, ltb, ◌==◌, if◌then◌else◌,
  length, take, drop, get_elem?, from_le_bytes,
}
use rarm_db.Page.Slotted.{sub_vec}
use rarm_db.Schema.DataType.{
  PrimitiveDataType, int, big_int, varchar, boolean, decimal, date_time, float, blob,
  get_fixed_size, is_fixed_size,
}
use rarm_db.Schema.Column.{ColumnDefinition, is_fixed_type}
use rarm_db.Value.{
  Decimals, Value, null_value, int_value, big_int_value, boolean_value, float_value, text_value,
  blob_value, date_time_value, decimal_value,
}
use rarm_db.Value.Utf8.{is_utf8}
use rarm_db.Serial.{
  Attempt, value, error, panics, ◌>>=◌, SerializationError, get_null_bitmap_size, unwrap_result,
  unwrap_option, lift,
}

unfoldable pub is_col_value_null : List ℕ → ℕ → Attempt Bool
is_col_value_null null_bitmap index = do
  null_bitmap_byte ← unwrap_option (get_elem? null_bitmap (index / 8))
  value (not (bit_and null_bitmap_byte (2 ^ (index % 8)) == 0))

-- The loop of `get_variable_length_data_offset`, from column `i` on.
unfoldable pub add_fixed_sizes : List ColumnDefinition → ℕ → List ℕ → ℕ → Attempt ℕ
add_fixed_sizes [] i null_bitmap offset = value offset
add_fixed_sizes (c ∷ columns) i null_bitmap offset = is_col_value_null null_bitmap i >>= λ null.
    (if null
      then value offset
      else if is_fixed_type c
      then (unwrap_option (get_fixed_size c.data_type) >>= λ size. value (offset + size))
      else value offset)
    >>= λ offset'. add_fixed_sizes columns (i + 1) null_bitmap offset'

abbrev pub get_variable_length_data_offset : List ColumnDefinition → List ℕ → ℕ → Attempt ℕ
get_variable_length_data_offset columns null_bitmap null_bitmap_size =
    add_fixed_sizes columns 0 null_bitmap null_bitmap_size

-- `v.try_into().unwrap()` to an array of `n` bytes.
abbrev pub array : ℕ → List ℕ → Attempt (List ℕ)
array n v = if length v == n then value v else panics

-- `data_size as usize` of an `i32`, by its bit pattern: a negative number is extended.
abbrev pub usize_of_i32 : ℕ → ℕ
usize_of_i32 n = if ltb n (2 ^ 31) then n else n + 2 ^ 64 - 2 ^ 32

-- `a + b` on `usize`.
abbrev pub checked_add : ℕ → ℕ → Attempt ℕ
checked_add a b = if ltb (a + b) (2 ^ 64) then value (a + b) else panics

-- `&bytes[off..]`
abbrev pub tail_from : List ℕ → ℕ → Attempt (List ℕ)
tail_from bytes off = if ltb (length bytes) off then panics else value (drop off bytes)

-- The length before a variable value, and the bytes after it.
unfoldable pub read_length : List ℕ → ℕ → Attempt (ℕ × List ℕ)
read_length bytes off = do
  variable_data_bytes ← tail_from bytes off
  if ltb (length variable_data_bytes) 4
      then panics
      else value (from_le_bytes (take 4 variable_data_bytes), drop 4 variable_data_bytes)

module _ (d : Decimals) where
  -- The match on the type of a fixed column.
  unfoldable pub read_fixed : PrimitiveDataType → List ℕ → Attempt (Value d)
  read_fixed big_int v = array 8 v >>= λ a. value (big_int_value (from_le_bytes a))
  read_fixed boolean v =
      unwrap_option (get_elem? v 0) >>= λ val. value (boolean_value (not (val == 0)))
  read_fixed date_time v = array 8 v >>= λ a. value (date_time_value (from_le_bytes a))
  read_fixed (decimal p s) v =
      if length v == 16
      then value (decimal_value (d.deserialize v))
      else error SerializationError.data_type_mismatch
  read_fixed float v = array 8 v >>= λ a. value (float_value (from_le_bytes a))
  read_fixed int v = array 4 v >>= λ a. value (int_value (from_le_bytes a))
  read_fixed t v = error SerializationError.data_type_mismatch

  unfoldable pub deserialize_fixed_sized_col_value :
      PrimitiveDataType → List ℕ → ℕ → ℕ → Attempt (Value d)
  deserialize_fixed_sized_col_value t bytes off data_size = do
    data_value ← lift (sub_vec bytes off data_size)
    read_fixed t data_value

  -- The match on the type of a variable column.
  unfoldable pub read_variable : PrimitiveDataType → List ℕ → Attempt (Value d)
  read_variable (blob n) v = value (blob_value v)
  read_variable (varchar n) v = if is_utf8 v then value (text_value v) else panics
  read_variable t v = error SerializationError.data_type_mismatch

  unfoldable pub deserialize_variable_sized_col_value :
      PrimitiveDataType → List ℕ → ℕ → Attempt (Value d)
  deserialize_variable_sized_col_value t bytes data_size = do
    data_bytes ← lift (sub_vec bytes 0 (usize_of_i32 data_size))
    read_variable t data_bytes

  -- A value, and the two offsets after it.
  unfoldable pub deserialize_col_value :
      PrimitiveDataType → List ℕ → ℕ → ℕ → Attempt (Value d × ℕ × ℕ)
  deserialize_col_value t bytes fixed_offset variable_offset =
      if is_fixed_size t
      then (do
        data_size ← unwrap_option (get_fixed_size t)
        row_value ← unwrap_result (deserialize_fixed_sized_col_value t bytes fixed_offset data_size)
        value (row_value, fixed_offset + data_size, variable_offset))
      else (do
        (data_size, rest) ← read_length bytes variable_offset
        row_value ← unwrap_result (deserialize_variable_sized_col_value t rest data_size)
        variable_offset' ← checked_add (variable_offset + 4) (usize_of_i32 data_size)
        value (row_value, fixed_offset, variable_offset'))

  -- The loop of `deserialize`, from column `i` on.
  unfoldable pub read_columns :
      List ColumnDefinition → ℕ → List ℕ → List ℕ → ℕ → ℕ → Attempt (List (Value d))
  read_columns [] i null_bitmap bytes fixed_offset variable_offset = value []
  read_columns (c ∷ columns) i null_bitmap bytes fixed_offset variable_offset =
      is_col_value_null null_bitmap i >>= λ null. elim null [
        | true ↦ elim c.is_nullable [
          | false ↦ error SerializationError.null_value_for_non_null_column_found
          | true ↦
              read_columns columns (i + 1) null_bitmap bytes fixed_offset variable_offset >>= λ r.
              value (null_value ∷ r)
        ]
        | false ↦ deserialize_col_value c.data_type bytes fixed_offset variable_offset >>= λ x.
            read_columns columns (i + 1) null_bitmap bytes x.1 x.2 >>= λ r. value (x.0 ∷ r)
      ]

  unfoldable pub deserialize : List ColumnDefinition → List ℕ → Attempt (List (Value d))
  deserialize columns bytes = do
    let null_bitmap_size = get_null_bitmap_size columns
    null_bitmap ← lift (sub_vec bytes 0 null_bitmap_size)
    variable_offset ← get_variable_length_data_offset columns null_bitmap null_bitmap_size
    read_columns columns 0 null_bitmap bytes null_bitmap_size variable_offset
