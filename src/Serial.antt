-- ===== src/Serial.antt =====
-- crates/storage/src/record_serializer.rs: records as bytes, with the errors of
-- serialization_error.rs. The vector of bytes is a buffer with a size; every slice is checked.
pub mod Write
pub mod Read
pub mod Bitmap
pub mod Cell
pub mod Layout
pub mod Written
pub mod Slices
pub mod Reading
pub mod Key
pub mod KeyRead
pub mod RoundTrip
use rarm_db.Base.{
  ℕ, ◌+◌, ◌/◌, ◌%◌, ◌*◌, ◌^◌, List, Outcome, panic, done, Option, none, some, length,
}
use rarm_db.Schema.Column.{ColumnDefinition}

pub data SerializationError : Type 0 where
  data_type_mismatch primary_key_not_found : SerializationError
  null_primary_key_column_value null_value_for_non_null_column_found : SerializationError

-- What a call comes to: a value, an error, or a panic.
pub data Attempt {ℓ} (A : Type ℓ) : Type ℓ where
  value : A → Attempt A
  error : SerializationError → Attempt A
  panics : Attempt A

infixl 5 ◌>>=◌
abbrev pub ◌>>=◌ {ℓ κ} : {A : Type ℓ} {B : Type κ} → Attempt A → (A → Attempt B) → Attempt B
value a >>= f = f a
error e >>= f = error e
panics >>= f = panics

-- `.unwrap()` of a result, of an option, and of a call that may panic.
abbrev pub unwrap_result {ℓ} : {A : Type ℓ} → Attempt A → Attempt A
unwrap_result (value a) = value a
unwrap_result (error e) = panics
unwrap_result panics = panics

abbrev pub unwrap_option {ℓ} : {A : Type ℓ} → Option A → Attempt A
unwrap_option none = panics
unwrap_option (some a) = value a

abbrev pub lift {ℓ} : {A : Type ℓ} → Outcome A → Attempt A
lift (done a) = value a
lift panic = panics

-- An `unwrap` in code that has no errors.
abbrev pub settle {ℓ} : {A : Type ℓ} → Attempt A → Outcome A
settle (value a) = done a
settle (error e) = panic
settle panics = panic

unfoldable pub get_null_bitmap_size : List ColumnDefinition → ℕ
get_null_bitmap_size columns = (length columns + 7) / 8
