-- ===== src/Page/Insert/Reads.antt =====
-- What is read from a page after an insertion: the two words of the header, each slot, and the
-- bytes of the heap.
use rarm_db.Base.{ℕ, suc, ◌+◌, ◌-◌, ◌*◌, ◌≤◌, ◌<◌, ◌≡◌, ◌∙◌, List, arith, length, ◌⊎◌}
use rarm_db.Page.{page_size, slot_size, page_header_size, item_count_offset, data_heap_end_offset}
use rarm_db.Page.Buffer.{Buffer, slice, overlay, u16_at}
use rarm_db.Page.Buffer.Laws.{
  put_u16, slice-put_u16_apart, u16_at-put_u16_apart, u16_at-put_u16_self, slice-overlay_apart,
  slice-overlay_self, u16_at-overlay_apart, slice-move_apart, u16_at-move_apart, u16_at-move_inside,
}
use rarm_db.Page.Slotted.{slot_offset}
use rarm_db.Page.Shape.{item_count, heap_end, record_offset, record_size}
use rarm_db.Page.Insert.{shifted, stored, inserted}

-- Words written by the last four steps.
module _ (c : Buffer) (index n heap size : ℕ) (index_fits : index ≤ n)
    (small : page_header_size + (n + 1) * slot_size ≤ page_size) (heap_small : heap ≤ page_size)
    (size_small : size ≤ page_size) where
  abbrev c3 : Buffer
  c3 = shifted c index n

  abbrev c4 : Buffer
  c4 = put_u16 c3 (page_header_size + slot_size * index) heap

  abbrev c5 : Buffer
  c5 = put_u16 c4 (page_header_size + slot_size * index + 2) size

  abbrev c6 : Buffer
  c6 = put_u16 c5 item_count_offset (n + 1)

  pub count_word : u16_at c6 item_count_offset ≡ n + 1
  count_word =
      u16_at-put_u16_self c5 item_count_offset (n + 1) item_count_offset (omega arith) (omega arith)

  pub offset_word : u16_at c6 (slot_offset index) ≡ heap
  offset_word =
      u16_at-put_u16_apart c5 item_count_offset (n + 1) (slot_offset index) (omega arith)
      ∙ u16_at-put_u16_apart c4 _ size (slot_offset index) (omega arith)
      ∙ u16_at-put_u16_self c3 _ heap (slot_offset index) (omega arith) (omega arith)

  pub size_word : u16_at c6 (slot_offset index + 2) ≡ size
  size_word =
      u16_at-put_u16_apart c5 item_count_offset (n + 1) (slot_offset index + 2) (omega arith)
      ∙ u16_at-put_u16_self c4 _ size (slot_offset index + 2) (omega arith) (omega arith)

  -- The header's other words, and the slots below the new one.
  pub low_word :
      (p : ℕ)
      → (p + 2 ≤ item_count_offset) ⊎ (item_count_offset + 2 ≤ p)
      → p + 2 ≤ slot_offset index
      → u16_at c6 p ≡ u16_at c p
  low_word p h k =
      u16_at-put_u16_apart c5 item_count_offset (n + 1) p h
      ∙ u16_at-put_u16_apart c4 _ size p (omega arith)
      ∙ u16_at-put_u16_apart c3 _ heap p (omega arith)
      ∙ u16_at-move_apart c _ _ _ p (omega arith)

  -- The words of the slots that moved up.
  pub moved_word :
      (p q : ℕ)
      → p ≡ q + slot_size
      → slot_offset index ≤ q
      → q + 2 ≤ slot_offset n
      → u16_at c6 p ≡ u16_at c q
  moved_word p q e h k =
      u16_at-put_u16_apart c5 item_count_offset (n + 1) p (omega arith)
      ∙ u16_at-put_u16_apart c4 _ size p (omega arith)
      ∙ u16_at-put_u16_apart c3 _ heap p (omega arith)
      ∙ u16_at-move_inside c _ _ _ p q (q - slot_offset index) (omega arith) (omega arith)
          (omega arith)

  -- What lies above the slot array.
  pub high_slice : (p m : ℕ) → slot_offset (n + 1) ≤ p → slice c6 p m ≡ slice c p m
  high_slice p m h =
      slice-put_u16_apart c5 item_count_offset (n + 1) p m (omega arith)
      ∙ slice-put_u16_apart c4 _ size p m (omega arith)
      ∙ slice-put_u16_apart c3 _ heap p m (omega arith)
      ∙ slice-move_apart c _ _ _ p m (omega arith)

  -- The header before the item count: the pointers to other pages.
  pub low_slice : (p m : ℕ) → p + m ≤ item_count_offset → slice c6 p m ≡ slice c p m
  low_slice p m h =
      slice-put_u16_apart c5 item_count_offset (n + 1) p m (omega arith)
      ∙ slice-put_u16_apart c4 _ size p m (omega arith)
      ∙ slice-put_u16_apart c3 _ heap p m (omega arith)
      ∙ slice-move_apart c _ _ _ p m (omega arith)

-- What the first two steps, which put the record on the heap, leave readable.
module _ (b : Buffer) (heap : ℕ) (record_data : List ℕ) where
  pub stored-heap_word :
      heap ≤ page_size → u16_at (stored b heap record_data) data_heap_end_offset ≡ heap
  stored-heap_word h =
      u16_at-put_u16_self (overlay b heap record_data) data_heap_end_offset heap
        data_heap_end_offset (omega arith) (omega arith)

  pub stored_word :
      (p : ℕ)
      → p + 2 ≤ heap
      → (p + 2 ≤ data_heap_end_offset) ⊎ (data_heap_end_offset + 2 ≤ p)
      → u16_at (stored b heap record_data) p ≡ u16_at b p
  stored_word p h k =
      u16_at-put_u16_apart (overlay b heap record_data) data_heap_end_offset heap p k
      ∙ u16_at-overlay_apart b heap record_data p (omega arith)

  pub slice-stored :
      (p m : ℕ)
      → heap + length record_data ≤ p
      → page_header_size ≤ p
      → slice (stored b heap record_data) p m ≡ slice b p m
  slice-stored p m h k =
      slice-put_u16_apart (overlay b heap record_data) data_heap_end_offset heap p m (omega arith)
      ∙ slice-overlay_apart b heap record_data p m (omega arith)

  pub stored_header :
      (p m : ℕ)
      → p + m ≤ data_heap_end_offset
      → page_header_size ≤ heap
      → slice (stored b heap record_data) p m ≡ slice b p m
  stored_header p m h k =
      slice-put_u16_apart (overlay b heap record_data) data_heap_end_offset heap p m (omega arith)
      ∙ slice-overlay_apart b heap record_data p m (omega arith)

  pub stored_record :
      page_header_size ≤ heap
      → slice (stored b heap record_data) heap (length record_data) ≡ record_data
  stored_record h =
      slice-put_u16_apart (overlay b heap record_data) data_heap_end_offset heap heap
        (length record_data) (omega arith)
      ∙ slice-overlay_self b heap record_data

-- An insertion into a page with room for the record and its slot.
module _ (b : Buffer) (index : ℕ) (record_data : List ℕ) (index_fits : index ≤ item_count b)
    (heap_inside : heap_end b ≤ page_size)
    (room : page_header_size + (item_count b + 1) * slot_size + length record_data
      ≤ heap_end b) where
  abbrev n : ℕ
  n = item_count b

  abbrev heap : ℕ
  heap = heap_end b - length record_data

  abbrev c : Buffer
  c = stored b heap record_data

  pub item_count-inserted : item_count (inserted b index record_data) ≡ item_count b + 1
  unfolding inserted
  item_count-inserted =
      count_word c index n heap (length record_data) index_fits (omega arith) (omega arith)
        (omega arith)

  pub heap_end-inserted : heap_end (inserted b index record_data) ≡ heap_end b - length record_data
  unfolding inserted
  heap_end-inserted =
      low_word c index n heap (length record_data) index_fits (omega arith) (omega arith)
        (omega arith) data_heap_end_offset (omega arith) (omega arith)
      ∙ stored-heap_word b heap record_data (omega arith)

  pub record_offset-inserted :
      record_offset (inserted b index record_data) index ≡ heap_end b - length record_data
  unfolding inserted
  record_offset-inserted =
      offset_word c index n heap (length record_data) index_fits (omega arith) (omega arith)
        (omega arith)

  pub record_size-inserted : record_size (inserted b index record_data) index ≡ length record_data
  unfolding inserted
  record_size-inserted =
      size_word c index n heap (length record_data) index_fits (omega arith) (omega arith)
        (omega arith)

  word_before :
      (p : ℕ)
      → page_header_size ≤ p
      → p + 2 ≤ slot_offset index
      → u16_at (inserted b index record_data) p ≡ u16_at b p
  unfolding inserted
  word_before p h k =
      low_word c index n heap (length record_data) index_fits (omega arith) (omega arith)
        (omega arith) p (omega arith) k
      ∙ stored_word b heap record_data p (omega arith) (omega arith)

  word_after :
      (p q : ℕ)
      → p ≡ q + slot_size
      → slot_offset index ≤ q
      → q + 2 ≤ slot_offset (item_count b)
      → u16_at (inserted b index record_data) p ≡ u16_at b q
  unfolding inserted
  word_after p q e h k =
      moved_word c index n heap (length record_data) index_fits (omega arith) (omega arith)
        (omega arith) p q e h k
      ∙ stored_word b heap record_data q (omega arith) (omega arith)

  pub record_offset-inserted_before :
      (k : ℕ) → k < index → record_offset (inserted b index record_data) k ≡ record_offset b k
  record_offset-inserted_before k h = word_before (slot_offset k) (omega arith) (omega arith)

  pub record_size-inserted_before :
      (k : ℕ) → k < index → record_size (inserted b index record_data) k ≡ record_size b k
  record_size-inserted_before k h = word_before (slot_offset k + 2) (omega arith) (omega arith)

  pub record_offset-inserted_after :
      (k : ℕ)
      → index ≤ k
      → k < item_count b
      → record_offset (inserted b index record_data) (suc k) ≡ record_offset b k
  record_offset-inserted_after k h h' =
      word_after (slot_offset (suc k)) (slot_offset k) (omega arith) (omega arith) (omega arith)

  pub record_size-inserted_after :
      (k : ℕ)
      → index ≤ k
      → k < item_count b
      → record_size (inserted b index record_data) (suc k) ≡ record_size b k
  record_size-inserted_after k h h' =
      word_after (slot_offset (suc k) + 2) (slot_offset k + 2) (omega arith) (omega arith)
        (omega arith)

  -- The heap that was there, and the new record.
  pub heap_slice-inserted :
      (p m : ℕ) → heap_end b ≤ p → slice (inserted b index record_data) p m ≡ slice b p m
  unfolding inserted
  heap_slice-inserted p m h =
      high_slice c index n heap (length record_data) index_fits (omega arith) (omega arith)
        (omega arith) p m (omega arith)
      ∙ slice-stored b heap record_data p m (omega arith) (omega arith)

  pub record_slice-inserted :
      slice (inserted b index record_data) (heap_end b - length record_data) (length record_data)
      ≡ record_data
  unfolding inserted
  record_slice-inserted =
      high_slice c index n heap (length record_data) index_fits (omega arith) (omega arith)
        (omega arith) heap (length record_data) (omega arith)
      ∙ stored_record b heap record_data (omega arith)

  -- The pointers to other pages stay.
  pub header-inserted :
      (p m : ℕ) → p + m ≤ item_count_offset → slice (inserted b index record_data) p m ≡ slice b p m
  unfolding inserted
  header-inserted p m h =
      low_slice c index n heap (length record_data) index_fits (omega arith) (omega arith)
        (omega arith) p m h
      ∙ stored_header b heap record_data p m (omega arith) (omega arith)
