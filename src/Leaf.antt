-- ===== src/Leaf.antt =====
-- crates/storage/src/btree/leaf_node_view.rs: a leaf of the b-tree over a slotted page. This file
-- has the state, the links to the siblings and the raw insertions; Codec is what a leaf needs of
-- records and keys, Search is crates/storage/src/btree/ops.rs, Ops has the operations on records,
-- and Split the split of a full leaf.
pub mod Links
pub mod Codec
pub mod Rows
pub mod Search
pub mod Ops
pub mod Split
use rarm_db.Base.{ℕ, List, Option, none, some, if◌then◌else◌, ◌==◌, Outcome, done, ◌>>=◌}
use rarm_db.Page.{
  PageId, Result, item_count_offset, next_sibling_offset, prev_sibling_offset, invalid_page_index,
}
use rarm_db.Page.Buffer.{Buffer}
use rarm_db.Page.Slotted.{
  get_page_header_u16_value, get_page_header_u32_value, set_page_header_u32_value,
  try_insert_record,
}

pub record LeafNodeView : Type 0 where
  pub page_id : PageId
  pub page_view : Buffer

-- A leaf after an operation on its page.
abbrev pub with_page {ℓ} :
    {A : Type ℓ} → LeafNodeView → Outcome (Buffer × A) → Outcome (LeafNodeView × A)
with_page l m = m >>= λ r. done (record l { page_view = r.0 }, r.1)

unfoldable pub get_item_count : LeafNodeView → Outcome ℕ
get_item_count l = get_page_header_u16_value l.page_view item_count_offset

unfoldable pub append : LeafNodeView → List ℕ → Outcome (LeafNodeView × Result ℕ)
append l record_data = do
  item_count ← get_page_header_u16_value l.page_view item_count_offset
  with_page l (try_insert_record l.page_view item_count record_data)

unfoldable pub insert_raw_record : LeafNodeView → ℕ → List ℕ → Outcome (LeafNodeView × Result ℕ)
insert_raw_record l slot_index record_bytes =
    with_page l (try_insert_record l.page_view slot_index record_bytes)

-- A stored link: the largest `u32` stands for no page.
abbrev pub link_of : ℕ → Option ℕ
link_of val = if val == invalid_page_index then none else some val

abbrev pub word_of : Option ℕ → ℕ
word_of none = invalid_page_index
word_of (some i) = i

unfoldable pub get_next_leaf_index : LeafNodeView → Outcome (Option ℕ)
get_next_leaf_index l = do
  val ← get_page_header_u32_value l.page_view next_sibling_offset
  done (link_of val)

unfoldable pub get_prev_leaf_index : LeafNodeView → Outcome (Option ℕ)
get_prev_leaf_index l = do
  val ← get_page_header_u32_value l.page_view prev_sibling_offset
  done (link_of val)

unfoldable pub set_next_leaf_index : LeafNodeView → Option ℕ → Outcome LeafNodeView
set_next_leaf_index l page_index = do
  b ← set_page_header_u32_value l.page_view next_sibling_offset (word_of page_index)
  done (record l { page_view = b })

unfoldable pub set_prev_leaf_index : LeafNodeView → Option ℕ → Outcome LeafNodeView
set_prev_leaf_index l page_index = do
  b ← set_page_header_u32_value l.page_view prev_sibling_offset (word_of page_index)
  done (record l { page_view = b })
