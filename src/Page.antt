-- ===== src/Page.antt =====
-- crates/storage/src/page.rs, page_id.rs, slot.rs and storage_error.rs: the layout of a page, and
-- the errors of the page operations. `Page.Buffer` is the access to the bytes, `Page.Slotted` the
-- methods of `SlottedPageView`; the other children prove what these do.
pub mod Buffer
pub mod Slotted
pub mod Total
pub mod Header
pub mod Shape
pub mod Slot
pub mod Insert
pub mod Delete
pub mod Init
pub mod Update
pub mod Compact
use rarm_db.Base.{ℕ, ◌-◌, ◌^◌, ◌==◌, if◌then◌else◌}

abbrev pub page_size : ℕ
page_size = 8192

-- Two `u16` fields.
abbrev pub slot_size : ℕ
slot_size = 4

abbrev pub page_header_size : ℕ
page_header_size = 32

abbrev pub parent_index_offset : ℕ
parent_index_offset = 8

-- One offset with three names, by the type of the page: root page of a table header, rightmost
-- child of an internal node, previous sibling of a leaf.
abbrev pub rightmost_child_pointer_offset : ℕ
rightmost_child_pointer_offset = 12

abbrev pub prev_sibling_offset : ℕ
prev_sibling_offset = 12

abbrev pub next_sibling_offset : ℕ
next_sibling_offset = 16

abbrev pub item_count_offset : ℕ
item_count_offset = 20

abbrev pub data_heap_end_offset : ℕ
data_heap_end_offset = 22

abbrev pub page_type_offset : ℕ
page_type_offset = 24

-- `u32::MAX` and `u64::MAX`.
abbrev pub invalid_page_index : ℕ
invalid_page_index = 2 ^ 32 - 1

abbrev pub no_parent : ℕ
no_parent = 2 ^ 64 - 1

pub data PageType : Type 0 where
  invalid leaf_node internal_node table_header : PageType

-- `page_type as u8`.
abbrev pub page_type_code : PageType → ℕ
page_type_code PageType.invalid = 0
page_type_code PageType.leaf_node = 1
page_type_code PageType.internal_node = 2
page_type_code PageType.table_header = 3

-- `PageType::from`.
abbrev pub page_type_from : ℕ → PageType
page_type_from value =
    if value == 1
    then PageType.leaf_node
    else if value == 2
    then PageType.internal_node
    else if value == 3
    then PageType.table_header
    else PageType.invalid

pub record PageId : Type 0 where
  pub table_id : ℕ
  pub page_index : ℕ

pub data StorageError : Type 0 where
  duplicate_key key_not_found insert_record_failed insufficient_space_for_merge : StorageError
  invalid_slot_index new_right_sibling_not_empty page_full : StorageError

-- `Result<T, StorageError>`.
pub data Result {ℓ} (A : Type ℓ) : Type ℓ where
  ok : A → Result A
  err : StorageError → Result A
