-- ===== src/Page/Slotted.antt =====
-- crates/storage/src/slotted_page_view.rs: the methods of `SlottedPageView`, on the buffer that it
-- borrows. `u16` and `usize` arithmetic is checked: an overflow panics.
use rarm_db.Base.{
  ℕ, zero, suc, ◌+◌, ◌-◌, ◌*◌, ◌%◌, ◌^◌, List, [], ◌∷◌, ◌++◌, Option, none, some, if◌then◌else◌,
  ltb, leb, ◌==◌, length, take, drop, Outcome, done, panic, ◌>>=◌, unwrap, checked_sub,
  from_le_bytes, to_le_bytes,
}
use rarm_db.Page.{
  page_size, slot_size, page_header_size, parent_index_offset, rightmost_child_pointer_offset,
  prev_sibling_offset, next_sibling_offset, item_count_offset, data_heap_end_offset,
  page_type_offset, invalid_page_index, no_parent, PageType, page_type_code, page_type_from, Result,
  ok, err, StorageError,
}
use rarm_db.Page.Buffer.{Buffer, read_slice, write_slice, copy_within, fill_zero}

-- The getters and setters of the header's words.
unfoldable pub get_page_header_u16_value : Buffer → ℕ → Outcome ℕ
get_page_header_u16_value b offset = do bytes ← read_slice b offset 2; done (from_le_bytes bytes)

unfoldable pub get_page_header_u32_value : Buffer → ℕ → Outcome ℕ
get_page_header_u32_value b offset = do bytes ← read_slice b offset 4; done (from_le_bytes bytes)

unfoldable pub get_page_header_u64_value : Buffer → ℕ → Outcome ℕ
get_page_header_u64_value b offset = do bytes ← read_slice b offset 8; done (from_le_bytes bytes)

unfoldable pub set_page_header_u16_value : Buffer → ℕ → ℕ → Outcome Buffer
set_page_header_u16_value b offset value = write_slice b offset 2 (to_le_bytes 2 value)

unfoldable pub set_page_header_u32_value : Buffer → ℕ → ℕ → Outcome Buffer
set_page_header_u32_value b offset value = write_slice b offset 4 (to_le_bytes 4 value)

unfoldable pub set_page_header_u64_value : Buffer → ℕ → ℕ → Outcome Buffer
set_page_header_u64_value b offset value = write_slice b offset 8 (to_le_bytes 8 value)

unfoldable pub get_page_type : Buffer → Outcome PageType
get_page_type b = do
  bytes ← read_slice b page_type_offset 1
  done (page_type_from (from_le_bytes bytes))

abbrev pub parent_or_max : Option ℕ → ℕ
parent_or_max none = no_parent
parent_or_max (some index) = index

unfoldable pub initialize : Buffer → PageType → Option ℕ → Outcome Buffer
initialize b page_type parent_page_index = do
  b ← fill_zero b 0 page_size
  b ← write_slice b page_type_offset 1 (page_type_code page_type ∷ [])
  b ← set_page_header_u16_value b item_count_offset 0
  b ← set_page_header_u64_value b parent_index_offset (parent_or_max parent_page_index)
  b ← set_page_header_u32_value b rightmost_child_pointer_offset invalid_page_index
  b ← set_page_header_u32_value b next_sibling_offset invalid_page_index
  b ← set_page_header_u32_value b prev_sibling_offset invalid_page_index
  write_slice b data_heap_end_offset 2 (to_le_bytes 2 page_size)

unfoldable pub get_data_start_offset : Buffer → Outcome ℕ
get_data_start_offset b = get_page_header_u16_value b data_heap_end_offset

unfoldable pub get_item_count : Buffer → Outcome ℕ
get_item_count b = do bytes ← read_slice b item_count_offset 2; done (from_le_bytes bytes)

abbrev pub slot_offset : ℕ → ℕ
slot_offset index = page_header_size + index * slot_size

-- The offset and the size of the record at a slot.
unfoldable pub get_slot : Buffer → ℕ → Outcome (ℕ × ℕ)
get_slot b index = do
  record_offset_bytes ← read_slice b (slot_offset index) 2
  record_size_bytes ← read_slice b (slot_offset index + 2) 2
  done (from_le_bytes record_offset_bytes, from_le_bytes record_size_bytes)

unfoldable pub set_slot : Buffer → ℕ → ℕ → ℕ → Outcome Buffer
set_slot b index record_offset record_size = do
  b ← write_slice b (slot_offset index) 2 (to_le_bytes 2 record_offset)
  write_slice b (slot_offset index + 2) 2 (to_le_bytes 2 record_size)

unfoldable pub get_free_space_contiguous : Buffer → Outcome ℕ
get_free_space_contiguous b = do
  item_count ← get_item_count b
  data_heap_offset ← get_page_header_u16_value b data_heap_end_offset
  data_heap_size ← checked_sub page_size data_heap_offset
  without_slots ← checked_sub (page_size - page_header_size) (item_count * slot_size)
  checked_sub without_slots data_heap_size

-- The loop that adds the sizes of the records from slot `i` on; `rounds` slots are left.
unfoldable pub add_sizes : ℕ → Buffer → ℕ → ℕ → Outcome ℕ
add_sizes zero b i total = done total
add_sizes (suc rounds) b i total =
    get_slot b i >>= λ slot. add_sizes rounds b (i + 1) (total + slot.1)

unfoldable pub get_free_space : Buffer → Outcome ℕ
get_free_space b = do
  item_count ← get_item_count b
  data_heap_offset ← get_page_header_u16_value b data_heap_end_offset
  data_heap_size ← checked_sub page_size data_heap_offset
  without_slots ← checked_sub (page_size - page_header_size) (item_count * slot_size)
  free_space_contiguous ← checked_sub without_slots data_heap_size
  total_used_data_space ← add_sizes item_count b 0 0
  fragmented ← checked_sub data_heap_size total_used_data_space
  done (free_space_contiguous + fragmented)

unfoldable pub get_record : Buffer → ℕ → Outcome (Option (List ℕ))
get_record b index = do
  item_count ← get_item_count b
  if leb item_count index then done none else (do
    (record_offset, record_size) ← get_slot b index
    bytes ← read_slice b record_offset record_size
    done (some bytes))

unfoldable pub delete_record : Buffer → ℕ → Outcome Buffer
delete_record b index = do
  item_count ← get_item_count b
  if leb item_count index then done b else (do
    num_bytes_to_shift ← checked_sub (item_count * slot_size) ((index + 1) * slot_size)
    b ←
        if ltb 0 num_bytes_to_shift
        then copy_within b (slot_offset index + slot_size) num_bytes_to_shift (slot_offset index)
        else done b
    count' ← checked_sub item_count 1
    set_page_header_u16_value b item_count_offset count')

-- `a + b` on `u16`.
abbrev pub checked_add_u16 : ℕ → ℕ → Outcome ℕ
checked_add_u16 a b = if ltb (a + b) (2 ^ 16) then done (a + b) else panic

-- The writes of `try_insert_record`, once both guards are passed.
unfoldable pub insert_record_at : Buffer → ℕ → List ℕ → ℕ → Outcome Buffer
insert_record_at b index record_data initial_item_count = do
  let record_size = length record_data
  data_heap_offset ← get_page_header_u16_value b data_heap_end_offset
  new_data_heap_offset ← checked_sub data_heap_offset (record_size % 2 ^ 16)
  b ← write_slice b new_data_heap_offset record_size record_data
  b ← set_page_header_u16_value b data_heap_end_offset new_data_heap_offset
  let slot_insertion_offset = page_header_size + slot_size * index
  slots_to_shift ← checked_sub initial_item_count index
  b ←
      if ltb 0 slots_to_shift
      then copy_within b slot_insertion_offset (slots_to_shift * slot_size)
          (slot_insertion_offset + slot_size)
      else done b
  b ← write_slice b slot_insertion_offset 2 (to_le_bytes 2 new_data_heap_offset)
  b ← write_slice b (slot_insertion_offset + 2) 2 (to_le_bytes 2 (record_size % 2 ^ 16))
  item_count ← checked_add_u16 initial_item_count 1
  set_page_header_u16_value b item_count_offset item_count

unfoldable pub try_insert_record : Buffer → ℕ → List ℕ → Outcome (Buffer × Result ℕ)
try_insert_record b index record_data = do
  free_space ← get_free_space_contiguous b
  if ltb free_space (length record_data + slot_size)
      then done (b, err StorageError.page_full)
      else (do
        initial_item_count ← get_item_count b
        if ltb initial_item_count index then done (b, err StorageError.invalid_slot_index) else (do
          b ← insert_record_at b index record_data initial_item_count
          done (b, ok index)))

-- The branch of `try_update_record` for a record that has outgrown its place.
unfoldable pub move_record : Buffer → ℕ → List ℕ → Outcome (Buffer × Result ℕ)
move_record b index record_data = do
  free_space ← get_free_space_contiguous b
  if ltb free_space (length record_data) then done (b, err StorageError.page_full) else (do
    data_heap_offset ← get_page_header_u16_value b data_heap_end_offset
    new_data_heap_offset ← checked_sub data_heap_offset (length record_data % 2 ^ 16)
    b ← write_slice b new_data_heap_offset (length record_data) record_data
    b ← set_slot b index new_data_heap_offset (length record_data % 2 ^ 16)
    b ← set_page_header_u16_value b data_heap_end_offset new_data_heap_offset
    done (b, ok index))

unfoldable pub try_update_record : Buffer → ℕ → List ℕ → Outcome (Buffer × Result ℕ)
try_update_record b index record_data = do
  item_count ← get_item_count b
  if leb item_count index then done (b, err StorageError.invalid_slot_index) else (do
    (record_offset, orig_record_size) ← get_slot b index
    let updated_record_size = length record_data
    if leb updated_record_size orig_record_size
        then (do
          b ← write_slice b record_offset updated_record_size record_data
          b ←
              if ltb updated_record_size orig_record_size
              then set_slot b index (record_offset % 2 ^ 16) (updated_record_size % 2 ^ 16)
              else done b
          done (b, ok index))
        else move_record b index record_data)

-- `&v[from..from + n]` of a vector.
unfoldable pub sub_vec : List ℕ → ℕ → ℕ → Outcome (List ℕ)
sub_vec v from n = if ltb (length v) (from + n) then panic else done (take n (drop from v))

-- The first loop of `compact`: the records from slot `i` on, appended to the block.
unfoldable pub collect_records : ℕ → Buffer → ℕ → List ℕ → Outcome (List ℕ)
collect_records zero b i block = done block
collect_records (suc rounds) b i block = get_record b i >>= λ found.
    unwrap found >>= λ record_data. collect_records rounds b (i + 1) (block ++ record_data)

-- The second: each record goes below the one before, from the end of the page down. The result is
-- the buffer and the last offset.
unfoldable pub write_records : ℕ → Buffer → ℕ → ℕ → ℕ → List ℕ → Outcome (Buffer × ℕ)
write_records zero b i heap pos block = done (b, heap)
write_records (suc rounds) b i heap pos block = get_slot b i >>= λ slot.
    sub_vec block pos slot.1 >>= λ record_data. checked_sub heap slot.1 >>= λ heap'.
    write_slice b heap' slot.1 record_data >>= λ b'.
    set_slot b' i (heap' % 2 ^ 16) (slot.1 % 2 ^ 16) >>= λ b''.
    write_records rounds b'' (i + 1) heap' (pos + slot.1) block

unfoldable pub compact : Buffer → Outcome Buffer
compact b = do
  free_space ← get_free_space b
  contiguous ← get_free_space_contiguous b
  if free_space == contiguous then done b else (do
    item_count ← get_item_count b
    total_free_and_data_space ← checked_sub (page_size - page_header_size) (item_count * slot_size)
    total_data_heap_size ← checked_sub total_free_and_data_space free_space
    block ← collect_records item_count b 0 []
    (b, heap) ← write_records item_count b 0 page_size 0 block
    b ← fill_zero b (page_header_size + item_count * slot_size) free_space
    set_page_header_u16_value b data_heap_end_offset (heap % 2 ^ 16))
