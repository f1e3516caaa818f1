-- ===== src/Leaf/Rows.antt =====
-- The records of a table as those of a leaf: `Record::get_primary_key` and the order of `Key` of
-- crates/data_model/src, and the serializer of crates/storage/src/record_serializer.rs.
use Prim.Native.Nat.{Ordering}
use rarm_db.Base.{List, ap, sym, ◌∙◌}
use rarm_db.Schema.Table.{TableDefinition}
use rarm_db.Value.{Decimals, Value}
use rarm_db.Value.Order.{IsOrder, reverse, key_cmp, key_cmp-IsOrder, eq_right}
use rarm_db.Value.PrimaryKey.{get_primary_key_of}
use rarm_db.Serial.{settle}
use rarm_db.Serial.Write.{serialize}
use rarm_db.Serial.Key.{deserialize_primary_key}
use rarm_db.Leaf.Codec.{Codec, IsLawful}

module _ (d : Decimals) (decimal_cmp : d.Decimal → d.Decimal → Ordering)
    (table : TableDefinition) where
  abbrev pub row_codec : Codec
  row_codec = record {
    Key = List (Value d);
    Record = List (Value d);
    key_cmp = key_cmp d decimal_cmp;
    get_primary_key = get_primary_key_of table;
    serialize = λ r. settle (serialize d table.columns r);
    deserialize_primary_key = λ bytes. settle (deserialize_primary_key d table bytes);
  }

  pub row_codec-IsLawful : IsOrder decimal_cmp → IsLawful row_codec
  row_codec-IsLawful decimals =
      let o = key_cmp-IsOrder d decimal_cmp decimals in
      record {
        cmp_flip = λ a b h. o.flips a b ∙ ap reverse h;
        cmp_flip_lt = λ a b h. o.flips a b ∙ ap reverse h;
        cmp_trans = o.chains;
        cmp_eq_lt = λ a b e h k. sym (o.same a b e h) ∙ k;
        cmp_lt_eq = λ a b e h k. eq_right o e a b h ∙ k;
      }
