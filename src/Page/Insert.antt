-- ===== src/Page/Insert.antt =====
-- `try_insert_record`, without its checks: the page that it leaves, and what is read from it.
pub mod Reads
pub mod Refines
use rarm_db.Base.{
  ℕ, zero, suc, ◌+◌, ◌-◌, ◌*◌, ◌%◌, ◌^◌, ◌≤◌, ◌<◌, ◌≡◌, ◌≢◌, refl, ap, ◌∙◌, List, [], Option, none,
  some, arith, length, ◌⊎◌, inl, inr, Outcome, done, panic, ◌>>=◌, if◌then◌else◌, ltb, leb, lt→ltb,
  le→ltb, checked_sub, checked_sub_le, from_le_bytes, to_le_bytes, length-to_le_bytes, sym,
}
use native.Mathlib.Decide.{dec_lt}
use native.Mathlib.Nat.{mod-eq_of_lt}
use rarm_db.Page.{page_size, slot_size, page_header_size, item_count_offset, data_heap_end_offset}
use rarm_db.Page.Buffer.{Buffer, slice, overlay, move, copy_within, u16_at}
use rarm_db.Page.Buffer.Laws.{
  put_u16, slice-put_u16_apart, u16_at-put_u16_apart, u16_at-put_u16_self, slice-overlay_apart,
  slice-overlay_self, u16_at-overlay_apart, slice-move_apart, u16_at-move_apart, u16_at-move_inside,
  move-zero,
}
use rarm_db.Page.Slotted.{slot_offset, insert_record_at, set_page_header_u16_value}
use rarm_db.Page.Shape.{
  item_count, heap_end, record_offset, record_size, record_at, IsSlotted, write_slice_inside,
  write_word, set_page_header_u16_value_lem, get_page_header_u16_value_lem,
}

-- The page with its slots from `index` on moved up by one.
abbrev pub shifted : Buffer → ℕ → ℕ → Buffer
shifted b index n =
    move b (page_header_size + slot_size * index) ((n - index) * slot_size)
      (page_header_size + slot_size * index + slot_size)

-- The page after the record went to the heap at `heap`.
abbrev pub stored : Buffer → ℕ → List ℕ → Buffer
stored b heap record_data = put_u16 (overlay b heap record_data) data_heap_end_offset heap

abbrev pub slotted_in : Buffer → ℕ → ℕ → ℕ → ℕ → Buffer
slotted_in b index n heap size =
    put_u16
      (put_u16 (put_u16 (shifted b index n) (page_header_size + slot_size * index) heap)
        (page_header_size + slot_size * index + 2) size)
      item_count_offset (n + 1)

-- The page after a successful insertion.
pub inserted : Buffer → ℕ → List ℕ → Buffer
inserted b index record_data =
    slotted_in (stored b (heap_end b - length record_data) record_data) index (item_count b)
      (heap_end b - length record_data) (length record_data)

module _ (b : Buffer) (index : ℕ) (record_data : List ℕ) (index_fits : index ≤ item_count b)
    (heap_inside : heap_end b ≤ page_size)
    (room : page_header_size + (item_count b + 1) * slot_size + length record_data
      ≤ heap_end b) where
  shift-shifted :
      (c : Buffer)
      → (if ltb 0 (item_count b - index)
          then copy_within c
              (page_header_size + slot_size * index)
              ((item_count b - index) * slot_size)
              (page_header_size + slot_size * index + slot_size)
          else done c)
        ≡ done (shifted c index (item_count b))
  unfolding copy_within
  shift-shifted c = elim (dec_lt 0 (item_count b - index)) [
    | yes p ↦ rw (
      lt→ltb 0 (item_count b - index) p,
      le→ltb page_size (page_header_size + slot_size * index + (item_count b - index) * slot_size)
          (omega arith),
      le→ltb page_size
          (page_header_size + slot_size * index + slot_size + (item_count b - index) * slot_size)
          (omega arith),
    )
    | no p ↦ let e : item_count b - index ≡ 0 = omega arith in rw (e, move-zero)
  ]

  pub insert_record_at-inserted :
      insert_record_at b index record_data (item_count b) ≡ done (inserted b index record_data)
  unfolding insert_record_at inserted
  insert_record_at-inserted =
      let heap = heap_end b - length record_data in
      rw
        (
          get_page_header_u16_value_lem b data_heap_end_offset (omega arith),
          mod-eq_of_lt {n = length record_data} {m = 65536} (omega arith),
          checked_sub_le (heap_end b) (length record_data) (omega arith),
          write_slice_inside b heap (length record_data) record_data (omega arith) refl,
          set_page_header_u16_value_lem (overlay b heap record_data) data_heap_end_offset heap
              (omega arith),
          checked_sub_le (item_count b) index index_fits,
          shift-shifted (stored b heap record_data),
          write_word (shifted (stored b heap record_data) index (item_count b))
              (page_header_size + slot_size * index) heap (omega arith),
          write_word
              (put_u16 (shifted (stored b heap record_data) index (item_count b))
                (page_header_size + slot_size * index) heap)
              (page_header_size + slot_size * index + 2) (length record_data) (omega arith),
          lt→ltb (item_count b + 1) 65536 (omega arith),
        )
        (set_page_header_u16_value_lem _ item_count_offset (item_count b + 1) (omega arith))
