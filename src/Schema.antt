-- ===== src/Schema.antt =====
-- crates/schema_def/src: the definitions of tables. This file has the errors (schema_error.rs) and
-- the referential actions (referential_action.rs). A text is the list of its code points.
pub mod Text
pub mod DataType
pub mod Column
pub mod Constraint
pub mod Table
pub mod Keys
use Prim.Native.Char.{code}
use Prim.Native.String.{String}
use rarm_db.Base.{ℕ, List, [], ◌∷◌, Bool, true, false}

abbrev pub codes : String → List ℕ
codes String.[] = []
codes (String.◌∷◌ c s) = code c ∷ codes s

pub data SchemaError : Type 0 where
  argument_mismatch : List ℕ → List ℕ → ℕ → SchemaError
  empty_default_value : SchemaError
  empty_input : SchemaError
  invalid_column_name : SchemaError
  invalid_foreign_key : List ℕ → SchemaError
  invalid_format : List ℕ → SchemaError
  invalid_key_name : SchemaError
  invalid_number : List ℕ → SchemaError
  invalid_table_name : List ℕ → SchemaError
  invalid_scale : ℕ → ℕ → SchemaError
  unknown_type : List ℕ → SchemaError

-- `Result<T, SchemaError>`.
pub data SchemaResult {ℓ} (A : Type ℓ) : Type ℓ where
  ok : A → SchemaResult A
  err : SchemaError → SchemaResult A

infixl 5 ◌>>=◌ ◌>>◌
abbrev pub ◌>>=◌ {ℓ κ} :
    {A : Type ℓ} {B : Type κ} → SchemaResult A → (A → SchemaResult B) → SchemaResult B
ok a >>= f = f a
err e >>= f = err e

abbrev pub ◌>>◌ {ℓ} : {B : Type ℓ} → SchemaResult (Unit {0}) → SchemaResult B → SchemaResult B
m >> k = m >>= λ _. k

-- `if failed { return Err(e) }`
abbrev pub reject_if : Bool → SchemaError → SchemaResult (Unit {0})
reject_if true e = err e
reject_if false e = ok tt

pub data ReferentialAction : Type 0 where
  no_action cascade set_null set_default : ReferentialAction
