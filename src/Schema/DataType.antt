-- ===== src/Schema/DataType.antt =====
-- crates/schema_def/src/primitive_data_type.rs: the data types of columns.
use rarm_db.Base.{ℕ, Option, none, some, Bool, true, false, ltb, if◌then◌else◌}
use rarm_db.Schema.{SchemaError, SchemaResult, ok, err}

pub data PrimitiveDataType : Type 0 where
  unknown : PrimitiveDataType
  int : PrimitiveDataType
  big_int : PrimitiveDataType
  varchar : ℕ → PrimitiveDataType
  boolean : PrimitiveDataType
  decimal : ℕ → ℕ → PrimitiveDataType
  date_time : PrimitiveDataType
  float : PrimitiveDataType
  blob : ℕ → PrimitiveDataType

-- `PrimitiveDataType::decimal`.
unfoldable pub checked_decimal : ℕ → ℕ → SchemaResult PrimitiveDataType
checked_decimal precision scale =
    if ltb precision scale
    then err (SchemaError.invalid_scale precision scale)
    else ok (decimal precision scale)

unfoldable pub is_fixed_size : PrimitiveDataType → Bool
is_fixed_size (blob n) = false
is_fixed_size (varchar n) = false
is_fixed_size unknown = false
is_fixed_size int = true
is_fixed_size big_int = true
is_fixed_size boolean = true
is_fixed_size (decimal p s) = true
is_fixed_size date_time = true
is_fixed_size float = true

unfoldable pub get_fixed_size : PrimitiveDataType → Option ℕ
get_fixed_size int = some 4
get_fixed_size big_int = some 8
get_fixed_size boolean = some 1
get_fixed_size (decimal p s) = some 16
get_fixed_size float = some 8
get_fixed_size date_time = some 8
get_fixed_size unknown = none
get_fixed_size (varchar n) = none
get_fixed_size (blob n) = none
