-- ===== src/Schema/Table.antt =====
-- crates/schema_def/src/table_definition.rs: the definition of a table.
use rarm_db.Base.{
  ℕ, List, [], ◌∷◌, ◌++◌, Option, none, some, Bool, true, false, if◌then◌else◌, Outcome, done,
  ◌>>=◌, unwrap,
}
use rarm_db.Schema.{SchemaError, SchemaResult, ok, err, codes}
use rarm_db.Schema.Text.{is_blank, text_eq}
use rarm_db.Schema.Column.{ColumnDefinition}
use rarm_db.Schema.Constraint.{Constraint, primary, unique, foreign, constraint_name}

pub record TableDefinition : Type 0 where
  pub table_id : ℕ
  pub name : List ℕ
  pub columns : List ColumnDefinition
  pub constraints : List Constraint

-- `TableDefinition::new`.
unfoldable pub new_table : List ℕ → SchemaResult TableDefinition
new_table name =
    if is_blank name
    then err (SchemaError.invalid_table_name (codes "Table name cannot be empty or whitespace!"))
    else ok (record { table_id = 0; name = name; columns = []; constraints = [] })

abbrev pub add_column : TableDefinition → ColumnDefinition → TableDefinition
add_column t column_def = record t { columns = t.columns ++ (column_def ∷ []) }

abbrev pub add_constraint : TableDefinition → Constraint → TableDefinition
add_constraint t constraint = record t { constraints = t.constraints ++ (constraint ∷ []) }

-- `iter().find(p)` and `iter().filter(p).collect()`.
abbrev pub find {ℓ} : {A : Type ℓ} → (A → Bool) → List A → Option A
find p [] = none
find p (x ∷ xs) = if p x then some x else find p xs

abbrev pub filter {ℓ} : {A : Type ℓ} → (A → Bool) → List A → List A
filter p [] = []
filter p (x ∷ xs) = let rest = filter p xs in if p x then x ∷ rest else rest

abbrev pub find_column : List ColumnDefinition → List ℕ → Option ColumnDefinition
find_column columns name = find (λ c. text_eq c.name name) columns

unfoldable pub get_column : TableDefinition → List ℕ → Option ColumnDefinition
get_column t name = find_column t.columns name

unfoldable pub get_constraint : TableDefinition → List ℕ → Option Constraint
get_constraint t name = find (λ c. text_eq (constraint_name c) name) t.constraints

abbrev pub is_primary : Constraint → Bool
is_primary (primary name column_names) = true
is_primary (unique name column_names) = false
is_primary (foreign name on_update on_delete referencing table referenced) = false

abbrev pub is_foreign : Constraint → Bool
is_foreign (primary name column_names) = false
is_foreign (unique name column_names) = false
is_foreign (foreign name on_update on_delete referencing table referenced) = true

abbrev pub is_unique : Constraint → Bool
is_unique (primary name column_names) = false
is_unique (unique name column_names) = true
is_unique (foreign name on_update on_delete referencing table referenced) = false

unfoldable pub get_primary_key : TableDefinition → Option Constraint
get_primary_key t = find is_primary t.constraints

unfoldable pub get_foreign_keys : TableDefinition → List Constraint
get_foreign_keys t = filter is_foreign t.constraints

unfoldable pub get_unique_keys : TableDefinition → List Constraint
get_unique_keys t = filter is_unique t.constraints

-- The column definitions of the names; a name without a column panics.
unfoldable pub columns_of : List ColumnDefinition → List (List ℕ) → Outcome (List ColumnDefinition)
columns_of columns [] = done []
columns_of columns (col_name ∷ names) = do
  c ← unwrap (find_column columns col_name)
  rest ← columns_of columns names
  done (c ∷ rest)

abbrev key_columns : TableDefinition → Option Constraint → Outcome (Option (List ColumnDefinition))
key_columns t (some (primary name column_names)) =
    columns_of t.columns column_names >>= λ cols. done (some cols)
key_columns t _ = done none

unfoldable pub get_primary_key_columns : TableDefinition → Outcome (Option (List ColumnDefinition))
get_primary_key_columns t = key_columns t (get_primary_key t)
