-- ===== src/Leaf/Ops.antt =====
-- crates/storage/src/btree/leaf_node_view.rs: the operations of `LeafNodeView` on records.
pub mod Insertion
pub mod Replacing
pub mod Merging
use rarm_db.Base.{
  ℕ, zero, suc, ◌+◌, ◌-◌, ◌≤◌, ◌<◌, ◌≡◌, List, Option, none, some, if◌then◌else◌, ltb, Outcome,
  done, panic, ◌>>=◌, checked_sub,
}
use rarm_db.Page.{page_size, page_header_size, PageType, PageId, StorageError, Result, ok, err}
use rarm_db.Page.Buffer.{Buffer}
use rarm_db.Page.Slotted.{
  initialize, get_free_space, get_free_space_contiguous, get_record, try_insert_record,
  try_update_record,
}
use rarm_db.Leaf.{
  LeafNodeView, with_page, append, get_item_count, get_next_leaf_index, set_next_leaf_index,
  set_prev_leaf_index,
}
use rarm_db.Leaf.Codec.{Codec}
use rarm_db.Leaf.Search.{Found, found, insertion, out_of_rounds, find_key}

module _ (c : Codec) where
  -- `insert_record` and `update_record`, once the search is done.
  abbrev pub insert_found : LeafNodeView → c.Record → Found → Outcome (LeafNodeView × Result ℕ)
  insert_found l r (found i) = done (l, err StorageError.duplicate_key)
  insert_found l r (insertion i) = do
    record_bytes ← c.serialize r
    with_page l (try_insert_record l.page_view i record_bytes)
  insert_found l r out_of_rounds = panic

  abbrev pub update_found : LeafNodeView → c.Record → Found → Outcome (LeafNodeView × Result ℕ)
  update_found l r (found i) = do
    record_data ← c.serialize r
    with_page l (try_update_record l.page_view i record_data)
  update_found l r (insertion i) = done (l, err StorageError.key_not_found)
  update_found l r out_of_rounds = panic

  unfoldable pub insert_record : LeafNodeView → c.Record → Outcome (LeafNodeView × Result ℕ)
  insert_record l r = do
    primary_key ← c.get_primary_key r
    slot_index ← find_key c l.page_view primary_key
    insert_found l r slot_index

  unfoldable pub update_record : LeafNodeView → c.Record → Outcome (LeafNodeView × Result ℕ)
  update_record l r = do
    key ← c.get_primary_key r
    slot_result ← find_key c l.page_view key
    update_found l r slot_result

-- The loop of `merge` from the record `index` on; `rounds` records are left. An append that fails
-- leaves the records before it in the left leaf.
unfoldable pub append_records :
    ℕ → LeafNodeView → Buffer → ℕ → Outcome (LeafNodeView × Result (Unit {0}))
append_records zero l right index = done (l, ok tt)
append_records (suc rounds) l right index = get_record right index >>= λ record_data_option.
    elim record_data_option [
      | none ↦ done (l, err StorageError.invalid_slot_index)
      | some record_data ↦ append l record_data >>= λ appended. elim appended.1 [
        | ok i ↦ append_records rounds appended.0 right (index + 1)
        | err e ↦ done (appended.0, err StorageError.insert_record_failed)
      ]
    ]

-- The leaf, its right sibling and the leaf after that, if there is one.
pub record Merge : Type 0 where
  pub left : LeafNodeView
  pub right : LeafNodeView
  pub right_next : Option LeafNodeView

abbrev pub set_prev_of : Option LeafNodeView → ℕ → Outcome (Option LeafNodeView)
set_prev_of none page_index = done none
set_prev_of (some l) page_index = do l ← set_prev_leaf_index l (some page_index); done (some l)

-- The end of `merge`, once the records are copied.
unfoldable pub relink : Merge → Outcome Merge
relink m = do
  next ← get_next_leaf_index m.right
  left ← set_next_leaf_index m.left next
  right_next ← set_prev_of m.right_next left.page_id.page_index
  page ← initialize m.right.page_view PageType.invalid none
  done (record {
    left = left;
    right = record { page_id = m.right.page_id; page_view = page };
    right_next = right_next;
  })

unfoldable pub merge : Merge → Outcome (Merge × Result (Unit {0}))
merge m = do
  free_space ← get_free_space m.right.page_view
  used ← checked_sub page_size free_space
  right_sibling_total_used ← checked_sub used page_header_size
  contiguous ← get_free_space_contiguous m.left.page_view
  if ltb contiguous right_sibling_total_used
      then done (m, err StorageError.insufficient_space_for_merge)
      else (do
        right_sibling_item_count ← get_item_count m.right
        (left, appended) ← append_records right_sibling_item_count m.left m.right.page_view 0
        elim appended [
          | err e ↦ done (record m { left = left }, err e)
          | ok u ↦ relink (record m { left = left }) >>= λ m'. done (m', ok tt)
        ])
