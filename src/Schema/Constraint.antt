-- ===== src/Schema/Constraint.antt =====
-- crates/schema_def/src/constraint.rs: the constraints of a table.
use rarm_db.Base.{ℕ, List, [], ◌∷◌, Option, none, some, not, ◌==◌, length}
use rarm_db.Schema.{SchemaError, SchemaResult, ok, reject_if, ◌>>◌, ReferentialAction, codes}
use rarm_db.Schema.Text.{is_blank, is_empty}

pub data Constraint : Type 0 where
  foreign :
      List ℕ
      → ReferentialAction
      → ReferentialAction
      → List (List ℕ)
      → List ℕ
      → List (List ℕ)
      → Constraint
  primary : List ℕ → List (List ℕ) → Constraint
  unique : List ℕ → List (List ℕ) → Constraint

unfoldable pub col_names : Constraint → Option (List (List ℕ))
col_names (primary name column_names) = some column_names
col_names (unique name column_names) = some column_names
col_names (foreign name on_update on_delete referencing table referenced) = none

-- `Constraint::name`.
unfoldable pub constraint_name : Constraint → List ℕ
constraint_name (primary name column_names) = name
constraint_name (unique name column_names) = name
constraint_name (foreign name on_update on_delete referencing table referenced) = name

-- The loop of `validate_columns`.
unfoldable pub validate_each : List (List ℕ) → SchemaResult (Unit {0})
validate_each [] = ok tt
validate_each (col ∷ column_names) =
    reject_if (is_blank col) SchemaError.invalid_column_name >> validate_each column_names

unfoldable pub validate_columns : List (List ℕ) → SchemaResult (Unit {0})
validate_columns column_names = do
  reject_if (is_empty column_names) SchemaError.invalid_column_name
  validate_each column_names

unfoldable pub validate_key : List ℕ → List (List ℕ) → SchemaResult (Unit {0})
validate_key name column_names = do
  reject_if (is_blank name) SchemaError.invalid_key_name
  validate_columns column_names

unfoldable pub primary_key : List ℕ → List (List ℕ) → SchemaResult Constraint
primary_key name column_names = do validate_key name column_names; ok (primary name column_names)

unfoldable pub unique_key : List ℕ → List (List ℕ) → SchemaResult Constraint
unique_key name column_names = do validate_key name column_names; ok (unique name column_names)

unfoldable pub foreign_key :
    List ℕ
    → List (List ℕ)
    → List ℕ
    → List (List ℕ)
    → ReferentialAction
    → ReferentialAction
    → SchemaResult Constraint
foreign_key name referencing table referenced on_update on_delete = do
  reject_if (is_blank name)
      (SchemaError.invalid_foreign_key (codes "Foreign key name cannot be empty!"))
  reject_if (is_blank table)
      (SchemaError.invalid_foreign_key (codes "Foreign key referenced table name cannot be empty!"))
  reject_if (is_empty referenced) (
      SchemaError.invalid_foreign_key
        (codes "Foreign key referenced column name list cannot be empty!"))
  reject_if (is_empty referencing) (
      SchemaError.invalid_foreign_key
        (codes "Foreign key referencing column name list cannot be empty!"))
  validate_columns referenced
  validate_columns referencing
  reject_if (not (length referenced == length referencing)) (
      SchemaError.invalid_foreign_key (
        codes
          "Foreign key referenced column names count must match referencing column names count!"))
  ok (foreign name on_update on_delete referencing table referenced)
