-- ===== src/Leaf/Codec.antt =====
-- What a leaf uses of records, keys and their serializer: `Key`'s order, `Record::get_primary_key`,
-- `record_serializer::serialize` and `record_serializer::deserialize_primary_key`, each with the
-- `unwrap` or `expect` that follows the call, so that an error is a panic.
use Prim.Native.Nat.{Ordering}
use rarm_db.Base.{List, ℕ, ◌≡◌, Outcome}

pub record Codec : Type 1 where
  pub Key : Type 0
  pub Record : Type 0
  pub key_cmp : Key → Key → Ordering
  pub get_primary_key : Record → Outcome Key
  pub serialize : Record → Outcome (List ℕ)
  pub deserialize_primary_key : List ℕ → Outcome Key

-- The order of the keys is strict and respects equal keys.
pub record IsLawful (c : Codec) : Type 0 where
  pub cmp_flip : (a b : c.Key) → c.key_cmp a b ≡ Ordering.gt → c.key_cmp b a ≡ Ordering.lt
  pub cmp_flip_lt : (a b : c.Key) → c.key_cmp a b ≡ Ordering.lt → c.key_cmp b a ≡ Ordering.gt
  pub cmp_trans :
      (a b d : c.Key)
      → c.key_cmp a b ≡ Ordering.lt
      → c.key_cmp b d ≡ Ordering.lt
      → c.key_cmp a d ≡ Ordering.lt
  pub cmp_eq_lt :
      (a b d : c.Key)
      → c.key_cmp a b ≡ Ordering.eq
      → c.key_cmp b d ≡ Ordering.lt
      → c.key_cmp a d ≡ Ordering.lt
  pub cmp_lt_eq :
      (a b d : c.Key)
      → c.key_cmp a b ≡ Ordering.eq
      → c.key_cmp d b ≡ Ordering.lt
      → c.key_cmp d a ≡ Ordering.lt
