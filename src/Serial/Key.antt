-- ===== src/Serial/Key.antt =====
-- `deserialize_key` and `deserialize_primary_key`: a key from the bytes of a record.
use rarm_db.Base.{
  ℕ, ◌+◌, List, [], ◌∷◌, Option, none, some, true, false, leb, if◌then◌else◌, length, set,
  replicate,
}
use rarm_db.Page.Slotted.{sub_vec}
use rarm_db.Schema.Text.{text_eq}
use rarm_db.Schema.DataType.{get_fixed_size}
use rarm_db.Schema.Column.{ColumnDefinition, is_fixed_type}
use rarm_db.Schema.Table.{TableDefinition, get_primary_key_columns}
use rarm_db.Value.{Decimals, Value, null_value}
use rarm_db.Serial.{
  Attempt, value, error, ◌>>=◌, SerializationError, get_null_bitmap_size, unwrap_result,
  unwrap_option, lift,
}
use rarm_db.Serial.Read.{
  is_col_value_null, get_variable_length_data_offset, usize_of_i32, checked_add, read_length,
  deserialize_fixed_sized_col_value, deserialize_variable_sized_col_value,
}

-- `key_cols.iter().position(|c| c.name == name)`; `any` asks for the same column.
unfoldable pub position : List ColumnDefinition → List ℕ → Option ℕ
position [] name = none
position (c ∷ key_cols) name = elim (text_eq c.name name) [
  | true ↦ some 0
  | false ↦ elim (position key_cols name) [ some k ↦ some (k + 1) | none ↦ none ]
]

module _ (d : Decimals) where
  -- The keys, with the value at the index of its key column, if it is one.
  abbrev pub store : Option ℕ → Attempt (Value d) → List (Value d) → Attempt (List (Value d))
  store none v row_values = value row_values
  store (some key_col_index) v row_values =
      unwrap_result v >>= λ x. value (set row_values key_col_index x)

  -- A value that is not null: it is read for a key column, and passed over in any case.
  unfoldable pub key_value :
      ColumnDefinition
      → List ℕ
      → ℕ
      → ℕ
      → Option ℕ
      → List (Value d)
      → Attempt (List (Value d) × ℕ × ℕ)
  key_value col_def record_bytes fixed_offset variable_offset key row_values =
      if is_fixed_type col_def
      then (do
        data_size ← unwrap_option (get_fixed_size col_def.data_type)
        row_values' ←
            store key
              (deserialize_fixed_sized_col_value d col_def.data_type record_bytes fixed_offset
                data_size)
              row_values
        value (row_values', fixed_offset + data_size, variable_offset))
      else (do
        (data_size, rest) ← read_length record_bytes variable_offset
        row_values' ←
            store key (deserialize_variable_sized_col_value d col_def.data_type rest data_size)
              row_values
        variable_offset' ← checked_add (variable_offset + 4) (usize_of_i32 data_size)
        value (row_values', fixed_offset, variable_offset'))

  -- The loop of `deserialize_key`, from column `i` on.
  unfoldable pub read_key :
      List ColumnDefinition
      → List ColumnDefinition
      → ℕ
      → List ℕ
      → List ℕ
      → ℕ
      → ℕ
      → ℕ
      → List (Value d)
      → Attempt (List (Value d))
  read_key key_cols [] i null_bitmap bytes fixed_offset variable_offset key_cols_found row_values =
      value row_values
  read_key key_cols (c ∷ columns) i null_bitmap bytes fixed_offset variable_offset key_cols_found
        row_values =
      if leb (length key_cols) key_cols_found
      then value row_values
      else (is_col_value_null null_bitmap i >>= λ null. elim (position key_cols c.name) [
        | none ↦ elim null [
          | true ↦
              read_key key_cols columns (i + 1) null_bitmap bytes fixed_offset variable_offset
                key_cols_found row_values
          | false ↦ key_value c bytes fixed_offset variable_offset none row_values >>= λ x.
              read_key key_cols columns (i + 1) null_bitmap bytes x.1 x.2 key_cols_found x.0
        ]
        | some k ↦ elim null [
          | true ↦ error SerializationError.null_primary_key_column_value
          | false ↦ key_value c bytes fixed_offset variable_offset (some k) row_values >>= λ x.
              read_key key_cols columns (i + 1) null_bitmap bytes x.1 x.2 (key_cols_found + 1) x.0
        ]
      ])

  unfoldable pub deserialize_key :
      List ColumnDefinition → List ColumnDefinition → List ℕ → Attempt (List (Value d))
  deserialize_key record_cols key_cols record_bytes = do
    let null_bitmap_size = get_null_bitmap_size record_cols
    null_bitmap ← lift (sub_vec record_bytes 0 null_bitmap_size)
    variable_offset ← get_variable_length_data_offset record_cols null_bitmap null_bitmap_size
    read_key key_cols record_cols 0 null_bitmap record_bytes null_bitmap_size variable_offset 0
        (replicate (length key_cols) null_value)

  abbrev key_of_columns :
      TableDefinition → List ℕ → Option (List ColumnDefinition) → Attempt (List (Value d))
  key_of_columns table_def record_bytes (some key_cols) =
      deserialize_key table_def.columns key_cols record_bytes
  key_of_columns table_def record_bytes none = error SerializationError.primary_key_not_found

  unfoldable pub deserialize_primary_key : TableDefinition → List ℕ → Attempt (List (Value d))
  deserialize_primary_key table_def record_bytes = do
    result ← lift (get_primary_key_columns table_def)
    key_of_columns table_def record_bytes result
