-- ===== src/Schema/Column.antt =====
-- crates/schema_def/src/column_definition.rs: the definitions of columns.
use rarm_db.Base.{ℕ, List, Option, none, some, Bool, true, false}
use rarm_db.Schema.{SchemaError, SchemaResult, ok, reject_if, ◌>>◌}
use rarm_db.Schema.Text.{is_blank}
use rarm_db.Schema.DataType.{PrimitiveDataType, blob, varchar}

pub record ColumnDefinition : Type 0 where
  pub name : List ℕ
  pub data_type : PrimitiveDataType
  pub is_nullable : Bool
  pub default_value : Option (List ℕ)

abbrev pub blank_default : Option (List ℕ) → Bool
blank_default none = false
blank_default (some val) = is_blank val

-- `ColumnDefinition::new`.
unfoldable pub new_column :
    List ℕ → PrimitiveDataType → Bool → Option (List ℕ) → SchemaResult ColumnDefinition
new_column name data_type is_nullable default_value = do
  reject_if (is_blank name) SchemaError.invalid_column_name
  reject_if (blank_default default_value) SchemaError.empty_default_value
  ok (record {
    name = name;
    data_type = data_type;
    is_nullable = is_nullable;
    default_value = default_value;
  })

abbrev pub is_fixed : PrimitiveDataType → Bool
is_fixed (blob n) = false
is_fixed (varchar n) = false
is_fixed _ = true

unfoldable pub is_fixed_type : ColumnDefinition → Bool
is_fixed_type c = is_fixed c.data_type
