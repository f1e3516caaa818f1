-- ===== src/Tests/Serials.antt =====
-- Rows and table definitions at concrete inputs.
use rarm_db.Base.{
  ℕ, ◌+◌, ◌≡◌, ◌↔◌, refl, List, [], ◌∷◌, Bool, true, false, not, ◌==◌, length, replicate, none,
  some, panic, done, to_le_bytes, arith, inl, inr,
}
use rarm_db.Schema.{ok, ReferentialAction, codes}
use rarm_db.Schema.DataType.{int, big_int, varchar, decimal, get_fixed_size}
use rarm_db.Schema.Column.{ColumnDefinition}
use rarm_db.Schema.Constraint.{
  Constraint, col_names, primary, unique, foreign, primary_key, unique_key, foreign_key,
}
use rarm_db.Schema.Table.{TableDefinition, get_primary_key, get_primary_key_columns}
use rarm_db.Schema.Text.{is_blank}
use rarm_db.Schema.Keys.{
  IsForeignKey, Named, NamesColumns, keys_iff, foreign_key_iff, get_primary_key_columns-Named,
}
use rarm_db.Value.{Decimals, IsLawful, Value, null_value, int_value, text_value, decimal_value}
use rarm_db.Value.PrimaryKey.{get_primary_key_of, key_values, reverse_lookup}
use rarm_db.Value.Utf8.{utf8_from, lead}
use rarm_db.Serial.{value, error, panics, ◌>>=◌, SerializationError, get_null_bitmap_size}
use rarm_db.Serial.Write.{
  serialize, calculate_serialized_record_size, add_column_sizes, write_columns, write_column,
  write_fixed, write_variable_column, put,
}
use rarm_db.Serial.Read.{deserialize}
use rarm_db.Serial.Key.{position, deserialize_key}
use rarm_db.Serial.RoundTrip.{
  RowFits, length-serialize, deserialize-serialize, deserialize-serialize_null,
}
use rarm_db.Serial.KeyRead.{deserialize_key-serialize}

-- Decimals that are 0 or 1.
abbrev pub bits : Decimals
bits = record {
  Decimal = Bool;
  serialize = λ b. elim b [ true ↦ 1 ∷ replicate 15 0 | false ↦ replicate 16 0 ];
  deserialize = λ bytes. elim bytes [ [] ↦ false | x ∷ xs ↦ not (x == 0) ];
  scale = λ b. 0;
  integer_part = λ b. elim b [ true ↦ 1 | false ↦ 0 ];
}

bits-IsLawful : IsLawful bits
bits-IsLawful = record { length-serialize = lengths; deserialize-serialize = back }
  where
    lengths : (b : Bool) → length (bits.serialize b) ≡ 16
    lengths true = refl
    lengths false = refl

    back : (b : Bool) → bits.deserialize (bits.serialize b) ≡ b
    back true = refl
    back false = refl

abbrev pub id_column : ColumnDefinition
id_column = record { name = codes "id"; data_type = int; is_nullable = false; default_value = none }

abbrev pub name_column : ColumnDefinition
name_column = record {
  name = codes "name";
  data_type = varchar 20;
  is_nullable = true;
  default_value = none;
}

abbrev price_column : ColumnDefinition
price_column = record {
  name = codes "price";
  data_type = decimal 1 0;
  is_nullable = true;
  default_value = none;
}

abbrev columns : List ColumnDefinition
columns = id_column ∷ name_column ∷ price_column ∷ []

abbrev full_row : List (Value bits)
full_row = int_value 7 ∷ text_value (codes "ab") ∷ decimal_value true ∷ []

abbrev anonymous_row : List (Value bits)
anonymous_row = int_value 7 ∷ null_value ∷ decimal_value true ∷ []

abbrev idless_row : List (Value bits)
idless_row = null_value ∷ text_value (codes "ab") ∷ null_value ∷ []

full_row-RowFits : RowFits bits columns full_row
unfolding utf8_from lead
full_row-RowFits = (omega arith, ((omega arith, refl), (tt, tt)))

length-serialize_example :
    (bytes : List ℕ) × (serialize bits columns full_row ≡ value bytes)
    × (length bytes ≡ get_null_bitmap_size columns + 26)
length-serialize_example = length-serialize bits bits-IsLawful columns full_row full_row-RowFits

deserialize-serialize_example :
    (serialize bits columns anonymous_row >>= λ bytes. deserialize bits columns bytes)
    ≡ value anonymous_row
unfolding get_null_bitmap_size
deserialize-serialize_example =
    deserialize-serialize bits bits-IsLawful columns anonymous_row (omega arith, (tt, (tt, tt)))
      (omega arith) refl

deserialize-serialize_null_example :
    (bytes : List ℕ) × (serialize bits columns idless_row ≡ value bytes)
    × (deserialize bits columns bytes
        ≡ error SerializationError.null_value_for_non_null_column_found)
unfolding get_null_bitmap_size utf8_from lead
deserialize-serialize_null_example =
    deserialize-serialize_null bits bits-IsLawful columns idless_row
      (tt, ((omega arith, refl), (tt, tt))) (omega arith) refl

deserialize_key-serialize_example :
    (serialize bits columns full_row >>= λ bytes.
    deserialize_key bits columns (name_column ∷ id_column ∷ []) bytes)
    ≡ value (text_value (codes "ab") ∷ int_value 7 ∷ [])
unfolding get_null_bitmap_size position
deserialize_key-serialize_example =
    deserialize_key-serialize bits bits-IsLawful columns (name_column ∷ id_column ∷ []) full_row
      full_row-RowFits (omega arith) refl

keys_iff_example :
    ((primary_key (codes "pk") (codes "id" ∷ []) ≡ ok (primary (codes "pk") (codes "id" ∷ []))) ↔ (
      (primary (codes "pk") (codes "id" ∷ []) ≡ primary (codes "pk") (codes "id" ∷ []))
      × (is_blank (codes "pk") ≡ false)
      × NamesColumns (codes "id" ∷ [])))
    × ((unique_key (codes "pk") (codes "id" ∷ []) ≡ ok (primary (codes "pk") (codes "id" ∷ []))) ↔ (
        (primary (codes "pk") (codes "id" ∷ []) ≡ unique (codes "pk") (codes "id" ∷ []))
        × (is_blank (codes "pk") ≡ false)
        × NamesColumns (codes "id" ∷ [])))
keys_iff_example = keys_iff (codes "pk") (codes "id" ∷ []) (primary (codes "pk") (codes "id" ∷ []))

abbrev orders_key : Constraint
orders_key =
    foreign (codes "fk") ReferentialAction.cascade ReferentialAction.no_action (codes "order" ∷ [])
      (codes "orders") (codes "id" ∷ [])

foreign_key_iff_example :
    (foreign_key
        (codes "fk")
        (codes "order" ∷ [])
        (codes "orders")
        (codes "id" ∷ [])
        ReferentialAction.cascade
        ReferentialAction.no_action
      ≡ ok orders_key)
    ↔ IsForeignKey
        (codes "fk")
        (codes "order" ∷ [])
        (codes "orders")
        (codes "id" ∷ [])
        ReferentialAction.cascade
        ReferentialAction.no_action
        orders_key
foreign_key_iff_example =
    foreign_key_iff (codes "fk") (codes "order" ∷ []) (codes "orders") (codes "id" ∷ [])
      ReferentialAction.cascade ReferentialAction.no_action orders_key

abbrev people : TableDefinition
people = record {
  table_id = 1;
  name = codes "people";
  columns = columns;
  constraints =
      unique (codes "u") (codes "price" ∷ [])
      ∷ primary (codes "pk") (codes "name" ∷ codes "id" ∷ [])
      ∷ [];
}

get_primary_key_columns-Named_example :
    (cols : List ColumnDefinition) × (get_primary_key_columns people ≡ done (some cols))
    × Named columns (codes "name" ∷ codes "id" ∷ []) cols
unfolding get_primary_key
get_primary_key_columns-Named_example =
    get_primary_key_columns-Named people (codes "pk") (codes "name" ∷ codes "id" ∷ []) refl
      (inr (inl refl), (inl refl, tt))

-- The key of the table is in another order than its columns: the key of the record panics.
get_primary_key_of_example : get_primary_key_of people full_row ≡ panic
unfolding get_primary_key get_primary_key_of key_values reverse_lookup col_names
get_primary_key_of_example = refl

-- An `Int` fits a `BigInt` column, but its four bytes are copied to eight.
serialize_int_example :
    serialize bits
      (record { name = codes "n"; data_type = big_int; is_nullable = false; default_value = none }
        ∷ [])
      (int_value 7 ∷ [])
    ≡ panics
unfolding serialize calculate_serialized_record_size add_column_sizes write_columns write_column
    write_fixed put get_null_bitmap_size get_fixed_size to_le_bytes
serialize_int_example = refl

-- A value that is not a text, in a last column of texts: the sizes have no entry for it.
serialize_mismatch_example : serialize bits (name_column ∷ []) (int_value 7 ∷ []) ≡ panics
unfolding serialize calculate_serialized_record_size add_column_sizes write_columns write_column
    write_variable_column get_null_bitmap_size get_fixed_size
serialize_mismatch_example = refl
