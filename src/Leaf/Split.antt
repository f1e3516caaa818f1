-- ===== src/Leaf/Split.antt =====
-- crates/storage/src/btree/leaf_node_view.rs: `split_and_insert` and `find_split_index_by_size`.
-- A vector that is filled by `insert` at its own length is a list that grows at its end.
pub mod Index
pub mod Appending
pub mod Order
pub mod Refines
pub mod Siblings
pub mod Distribution
use Prim.Native.Nat.{Ordering}
use rarm_db.Base.{
  ℕ, zero, suc, ◌+◌, ◌-◌, ◌/◌, ◌≡◌, List, [], ◌∷◌, ◌++◌, Option, none, some, Bool, true, false,
  if◌then◌else◌, ltb, ◌==◌, length, take, drop, get_elem?, Outcome, done, panic, ◌>>=◌, unwrap,
}
use rarm_db.Page.{PageType, StorageError, Result, ok, err, parent_index_offset, no_parent}
use rarm_db.Page.Buffer.{Buffer}
use rarm_db.Page.Slotted.{initialize, get_record, get_page_header_u64_value}
use rarm_db.Leaf.{
  LeafNodeView, append, get_item_count, get_next_leaf_index, set_next_leaf_index,
  set_prev_leaf_index,
}
use rarm_db.Leaf.Codec.{Codec}
use rarm_db.Leaf.Ops.{set_prev_of}

-- The loop of `find_split_index_by_size`, with the size and the number of the records before.
unfoldable pub split_from : List (List ℕ) → ℕ → ℕ → ℕ → ℕ
split_from [] half_of_total current_data_size index = index
split_from (r ∷ records) half_of_total current_data_size index =
    let later = split_from records half_of_total (current_data_size + length r) (index + 1) in
    if ltb half_of_total (current_data_size + length r) then index else later

unfoldable pub find_split_index_by_size : List (List ℕ) → ℕ → ℕ
find_split_index_by_size sorted_records total_size = split_from sorted_records (total_size / 2) 0 0

-- Appends the records in their order, up to the first that fails.
unfoldable pub append_all :
    LeafNodeView → List (List ℕ) → Outcome (LeafNodeView × Result (Unit {0}))
append_all l [] = done (l, ok tt)
append_all l (r ∷ records) = append l r >>= λ appended. elim appended.1 [
  | ok i ↦ append_all appended.0 records
  | err e ↦ done (appended.0, err e)
]

-- `&v[from..to]` of a vector of records.
unfoldable pub records_between : List (List ℕ) → ℕ → ℕ → Outcome (List (List ℕ))
records_between v from to =
    if ltb to from
    then panic
    else if ltb (length v) to
    then panic
    else done (take (to - from) (drop from v))

-- The leaf, the new right sibling and the right sibling of before, if there is one.
pub record Split : Type 0 where
  pub left : LeafNodeView
  pub right : LeafNodeView
  pub orig_right : Option LeafNodeView

-- The end of `split_and_insert`, once the records are written.
unfoldable pub link_siblings : Split → Option ℕ → Outcome Split
link_siblings s orig_next_page_index = do
  left ← set_next_leaf_index s.left (some s.right.page_id.page_index)
  right ← set_next_leaf_index s.right orig_next_page_index
  right ← set_prev_leaf_index right (some left.page_id.page_index)
  orig_right ← set_prev_of s.orig_right right.page_id.page_index
  done (record { left = left; right = right; orig_right = orig_right })

abbrev pub parent_of : ℕ → Option ℕ
parent_of raw_parent_index = if raw_parent_index == no_parent then none else some raw_parent_index

module _ (c : Codec) where
  -- The sorted lists while they are built, and the size of their records.
  pub record Sorting : Type 0 where
    pub sorted_keys : List c.Key
    pub sorted_records : List (List ℕ)
    pub new_record_inserted : Bool
    pub total_size : ℕ

  abbrev pub push : Sorting → c.Key → List ℕ → Sorting
  push s key bytes = record s {
    sorted_keys = s.sorted_keys ++ (key ∷ []);
    sorted_records = s.sorted_records ++ (bytes ∷ []);
  }

  -- The new record, put in before the first stored record with a larger key.
  abbrev pub push_new : Bool → Ordering → Sorting → c.Key → List ℕ → Sorting
  push_new false Ordering.lt s key bytes = record (push s key bytes) {
    new_record_inserted = true;
    total_size = s.total_size + length bytes;
  }
  push_new inserted o s key bytes = s

  abbrev pub add_record : Sorting → c.Key → List ℕ → c.Key → List ℕ → Sorting
  add_record s new_key new_bytes current_key record_bytes =
      let counted = record s { total_size = s.total_size + length record_bytes } in
      push
        (push_new s.new_record_inserted (c.key_cmp new_key current_key) counted new_key new_bytes)
        current_key record_bytes

  -- The loop over the records of the leaf, from `index` on; `rounds` records are left.
  unfoldable pub sort_records : ℕ → Buffer → ℕ → c.Key → List ℕ → Sorting → Outcome (Result Sorting)
  sort_records zero b index new_key new_bytes s = done (ok s)
  sort_records (suc rounds) b index new_key new_bytes s = get_record b index >>= λ record_option.
      elim record_option [
        | none ↦ done (err StorageError.invalid_slot_index)
        | some record_bytes ↦ c.deserialize_primary_key record_bytes >>= λ current_key.
            sort_records rounds b (index + 1) new_key new_bytes
              (add_record s new_key new_bytes current_key record_bytes)
      ]

  abbrev pub nothing_sorted : Sorting
  nothing_sorted = record {
    sorted_keys = [];
    sorted_records = [];
    new_record_inserted = false;
    total_size = 0;
  }

  -- A new record with the largest key goes last; its size is not counted.
  abbrev pub push_last : Bool → Sorting → c.Key → List ℕ → Sorting
  push_last true s key bytes = s
  push_last false s key bytes = push s key bytes

  -- The part of `split_and_insert` that writes the pages.
  unfoldable pub distribute : Split → ℕ → Sorting → Outcome (Split × Result c.Key)
  distribute s item_count sorted = do
    let split_index = find_split_index_by_size sorted.sorted_records sorted.total_size
    mid_point_key ← unwrap (get_elem? sorted.sorted_keys split_index)
    raw_parent_index ← get_page_header_u64_value s.left.page_view parent_index_offset
    orig_next_page_index ← get_next_leaf_index s.left
    page ← initialize s.left.page_view PageType.leaf_node (parent_of raw_parent_index)
    (left, written) ←
        append_all (record { page_id = s.left.page_id; page_view = page })
          (take split_index sorted.sorted_records)
    elim written [
      | err e ↦ done (record s { left = left }, err e)
      | ok u ↦ records_between sorted.sorted_records split_index (item_count + 1) >>= λ rest.
          append_all s.right rest >>= λ moved. elim moved.1 [
            | err e ↦ done (record s { left = left; right = moved.0 }, err e)
            | ok u ↦
                link_siblings (record s { left = left; right = moved.0 }) orig_next_page_index
                >>= λ s'. done (s', ok mid_point_key)
          ]
    ]

  unfoldable pub split_and_insert : Split → c.Record → Outcome (Split × Result c.Key)
  split_and_insert s r = do
    right_count ← get_item_count s.right
    if ltb 0 right_count then done (s, err StorageError.new_right_sibling_not_empty) else (do
      item_count ← get_item_count s.left
      serialized_new_record ← c.serialize r
      new_record_key ← c.get_primary_key r
      collected ←
          sort_records item_count s.left.page_view 0 new_record_key serialized_new_record
            nothing_sorted
      elim collected [
        | err e ↦ done (s, err e)
        | ok sorted ↦
            distribute s item_count
              (push_last sorted.new_record_inserted sorted new_record_key serialized_new_record)
      ])
