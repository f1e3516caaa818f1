-- ===== src/Value.antt =====
-- crates/data_model/src: the values of columns, records and keys. Signed integers and floats are
-- their bit patterns, a text is its UTF-8 bytes. Decimals are those of the crate rust_decimal: a
-- parameter.
pub mod Utf8
pub mod PrimaryKey
pub mod Order
use rarm_db.Base.{
  ℕ, zero, suc, ◌+◌, ◌/◌, ◌≡◌, List, [], ◌∷◌, Bool, true, false, ◌||◌, ltb, leb, ◌==◌, length,
  if◌then◌else◌, Outcome, done, panic, checked_sub, ◌>>=◌,
}
use rarm_db.Schema.DataType.{
  PrimitiveDataType, unknown, int, big_int, varchar, boolean, decimal, date_time, float, blob,
}

-- What the code calls of rust_decimal: `serialize` and `deserialize` to 16 bytes, `scale`, and
-- `trunc().abs().mantissa()`, the integer part without its sign.
pub record Decimals : Type 1 where
  pub Decimal : Type 0
  pub serialize : Decimal → List ℕ
  pub deserialize : List ℕ → Decimal
  pub scale : Decimal → ℕ
  pub integer_part : Decimal → ℕ

-- The 16 bytes of a decimal are read back to it.
pub record IsLawful (d : Decimals) : Type 0 where
  pub length-serialize : (v : d.Decimal) → length (d.serialize v) ≡ 16
  pub deserialize-serialize : (v : d.Decimal) → d.deserialize (d.serialize v) ≡ v

pub data DataValue (D : Type 0) : Type 0 where
  null_value : DataValue D
  int_value : ℕ → DataValue D
  big_int_value : ℕ → DataValue D
  boolean_value : Bool → DataValue D
  float_value : ℕ → DataValue D
  text_value : List ℕ → DataValue D
  blob_value : List ℕ → DataValue D
  date_time_value : ℕ → DataValue D
  decimal_value : D → DataValue D

-- `checked_ilog10().unwrap_or(0)` of an `i128`, which has at most 39 digits.
unfoldable pub ilog10_from : ℕ → ℕ → ℕ
ilog10_from zero n = 0
ilog10_from (suc rounds) n =
    let more = suc (ilog10_from rounds (n / 10)) in if ltb n 10 then 0 else more

unfoldable pub ilog10 : ℕ → ℕ
unfolding ilog10_from
ilog10 n = ilog10_from 39 n

module _ (d : Decimals) where
  abbrev pub Value : Type 0
  Value = DataValue d.Decimal

  -- The branch of `is_compatible` for decimals; `p - s` is on `u8`.
  unfoldable pub is_compatible_decimal : d.Decimal → ℕ → ℕ → Outcome Bool
  is_compatible_decimal val p s =
      if ltb s (d.scale val)
      then done false
      else if d.integer_part val == 0
      then done true
      else checked_sub p s >>= λ room. done (leb (ilog10 (d.integer_part val) + 1) room)

  unfoldable pub is_compatible : Value → PrimitiveDataType → Outcome Bool
  is_compatible null_value t = done true
  is_compatible (int_value n) int = done true
  is_compatible (int_value n) big_int = done true
  is_compatible (big_int_value n) big_int = done true
  is_compatible (boolean_value b) boolean = done true
  is_compatible (float_value x) float = done true
  is_compatible (text_value val) (varchar max_len) = done (leb (length val) max_len)
  is_compatible (blob_value val) (blob max_len) = done (leb (length val) max_len)
  is_compatible (date_time_value n) date_time = done true
  is_compatible (decimal_value val) (decimal p s) = is_compatible_decimal val p s
  is_compatible v t = done false
