-- ===== src/Tests/Rows.antt =====
-- A leaf of rows of a table with the key `id`, in the bytes of the serializer.
use Prim.Native.Nat.{Ordering, compare}
use rarm_db.Base.{
  ◌-◌, ◌∙◌, ℕ, ◌^◌, ◌≡◌, refl, List, [], ◌∷◌, Bool, none, some, arith, done, Returns, to_le_bytes,
  from_le_bytes,
}
use rarm_db.Page.Buffer.{Buffer, slice, overlay}
use rarm_db.Page.Slotted.{get_record, sub_vec}
use rarm_db.Page.Shape.{IsSlotted, item_count}
use rarm_db.Page.Init.{initialized_words}
use rarm_db.Page.{PageType}
use rarm_db.Page.Insert.Refines.{try_insert_record-Inserted}
use rarm_db.Schema.{codes}
use rarm_db.Schema.DataType.{get_fixed_size}
use rarm_db.Schema.Column.{is_fixed_type}
use rarm_db.Schema.Constraint.{primary, col_names}
use rarm_db.Schema.Table.{TableDefinition, columns_of, get_primary_key, get_primary_key_columns}
use rarm_db.Value.{Value, null_value, int_value, text_value}
use rarm_db.Value.Order.{IsOrder, bool_rank, reverse, list_cmp, value_cmp, value_rank, key_cmp}
use rarm_db.Value.PrimaryKey.{get_primary_key_of, key_values, reverse_lookup}
use rarm_db.Serial.{get_null_bitmap_size}
use rarm_db.Serial.Read.{
  add_fixed_sizes, is_col_value_null, deserialize_fixed_sized_col_value, read_fixed,
}
use rarm_db.Serial.Write.{
  serialize, calculate_serialized_record_size, add_column_sizes, write_columns, write_column,
  write_fixed, put, write_variable_column, write_variable,
}
use rarm_db.Serial.Key.{deserialize_primary_key, deserialize_key, read_key, position, key_value}
use rarm_db.Leaf.{LeafNodeView}
use rarm_db.Leaf.Codec.{Codec, IsLawful}
use rarm_db.Leaf.Rows.{row_codec, row_codec-IsLawful}
use rarm_db.Leaf.Search.{find_key, IsSorted, Locates, find_key-Locates}
use rarm_db.Leaf.Ops.{insert_record, update_record}
use rarm_db.Leaf.Ops.Insertion.{InsertsSorted, insert_record-InsertsSorted, key_at-record}
use rarm_db.Leaf.Ops.Replacing.{UpdatesSorted, update_record-UpdatesSorted}
use rarm_db.Tests.Serials.{bits, id_column, name_column}
use rarm_db.Tests.Leaves.{empty, empty-IsSlotted}

abbrev names : TableDefinition
names = record {
  table_id = 4;
  name = codes "names";
  columns = id_column ∷ name_column ∷ [];
  constraints = primary (codes "pk") (codes "id" ∷ []) ∷ [];
}

abbrev bits_cmp : Bool → Bool → Ordering
bits_cmp a b = compare (bool_rank a) (bool_rank b)

bits_cmp-IsOrder : IsOrder bits_cmp
bits_cmp-IsOrder = record {
  flips = λ a b. flips a b;
  same = λ a b e h. ground arith;
  chains = λ a b e h k. ground arith;
}
  where
    flips : (a b : Bool) → bits_cmp b a ≡ reverse (bits_cmp a b)
    flips a b = ground arith

abbrev rows : Codec
rows = row_codec bits bits_cmp names

abbrev row : ℕ → List (Value bits)
row id = int_value id ∷ text_value (codes "ab") ∷ []

-- The bitmap, the number and the text with its length.
abbrev bytes_of : ℕ → List ℕ
bytes_of id = 0 ∷ id ∷ 0 ∷ 0 ∷ 0 ∷ 2 ∷ 0 ∷ 0 ∷ 0 ∷ 97 ∷ 98 ∷ []

abbrev key_of : ℕ → List (Value bits)
key_of id = int_value id ∷ []

row_functions : Unit {0}
unfolding serialize calculate_serialized_record_size add_column_sizes write_columns write_column
    get_fixed_size write_fixed put get_null_bitmap_size to_le_bytes from_le_bytes
    write_variable_column write_variable slice overlay deserialize_primary_key
    get_primary_key_columns columns_of deserialize_key sub_vec add_fixed_sizes is_col_value_null
    is_fixed_type read_key position key_value deserialize_fixed_sized_col_value read_fixed
    get_primary_key_of get_primary_key col_names key_values reverse_lookup
row_functions = tt

row_stored : rows.serialize (row 5) ≡ done (bytes_of 5)
unfolding row_functions
row_stored = refl

row_stored_7 : rows.serialize (row 7) ≡ done (bytes_of 7)
unfolding row_functions
row_stored_7 = refl

row_read : rows.deserialize_primary_key (bytes_of 5) ≡ done (key_of 5)
unfolding row_functions
row_read = refl

row_read_7 : rows.deserialize_primary_key (bytes_of 7) ≡ done (key_of 7)
unfolding row_functions
row_read_7 = refl

row_key : rows.get_primary_key (row 5) ≡ done (key_of 5)
unfolding row_functions
row_key = refl

row_key_7 : rows.get_primary_key (row 7) ≡ done (key_of 7)
unfolding row_functions
row_key_7 = refl

-- A leaf with the row of key 7.
row_7_stored :
    (b : Buffer) × IsSlotted b × (item_count b ≡ 1) × (get_record b 0 ≡ done (some (bytes_of 7)))
row_7_stored =
    let (no_items, whole) = initialized_words (λ i. 0) PageType.leaf_node none in
    let (b, e, v, (count, before, here, after, header), heap) =
      try_insert_record-Inserted empty empty-IsSlotted 0 (bytes_of 7)
        (omega (arith, no_items, whole)) (omega (arith, no_items)) in
    (b, v, omega (arith, count, no_items), here)

abbrev one_row : LeafNodeView
one_row = record { page_id = record { table_id = 4; page_index = 3 }; page_view = row_7_stored.0 }

abbrev keys_of : ℕ → List (Value bits)
keys_of i = key_of 7

one_row-IsSorted : IsSorted rows one_row.page_view keys_of
one_row-IsSorted = record {
  held = λ i h.
      let at : i ≡ 0 = omega (arith, row_7_stored.2) in
      rw at (key_at-record rows one_row.page_view 0 (bytes_of 7) row_7_stored.3 ∙ row_read_7);
  ascending = λ i j h k. let never : ⊥ = omega (arith, row_7_stored.2) in elim never [ ];
}

rows-IsLawful : IsLawful rows
rows-IsLawful = row_codec-IsLawful bits bits_cmp names bits_cmp-IsOrder

find_key-Locates_example :
    Returns
      (find_key rows one_row.page_view (key_of 5))
      (Locates rows (item_count one_row.page_view) keys_of (key_of 5))
find_key-Locates_example =
    find_key-Locates rows rows-IsLawful one_row.page_view keys_of one_row-IsSorted (key_of 5)

insert_record-InsertsSorted_example :
    Returns
      (insert_record rows one_row (row 5))
      (InsertsSorted rows one_row keys_of (key_of 5) (bytes_of 5))
insert_record-InsertsSorted_example =
    insert_record-InsertsSorted rows rows-IsLawful one_row keys_of (row 5) (key_of 5) (bytes_of 5)
      row_7_stored.1 one_row-IsSorted row_key row_stored row_read

update_record-UpdatesSorted_example :
    Returns
      (update_record rows one_row (row 7))
      (UpdatesSorted rows one_row keys_of (key_of 7) (bytes_of 7))
update_record-UpdatesSorted_example =
    update_record-UpdatesSorted rows rows-IsLawful one_row keys_of (row 7) (key_of 7) (bytes_of 7)
      row_7_stored.1 one_row-IsSorted row_key_7 row_stored_7 row_read_7

-- A null is below a number, a negative number below the others, and a shorter key below a longer.
key_cmp_lt : key_cmp bits bits_cmp (null_value ∷ []) (int_value (2 ^ 32 - 1) ∷ []) ≡ Ordering.lt
unfolding list_cmp value_cmp value_rank
key_cmp_lt = refl

key_cmp_negative :
    key_cmp bits bits_cmp (int_value (2 ^ 32 - 1) ∷ []) (int_value 0 ∷ []) ≡ Ordering.lt
unfolding list_cmp value_cmp value_rank
key_cmp_negative = refl
