-- ===== src/Page/Shape.antt =====
-- What a slotted page is: its words and records read without checks, and its invariant.
use rarm_db.Base.{
  ℕ, zero, suc, ◌+◌, ◌-◌, ◌*◌, ◌≤◌, ◌<◌, ◌≡◌, ◌≢◌, ap, List, none, some, arith, length, ◌⊎◌, done,
  le→ltb, le→leb, lt→leb, checked_sub_le, to_le_bytes, length-to_le_bytes,
}
use rarm_db.Page.{page_size, slot_size, page_header_size, item_count_offset, data_heap_end_offset}
use rarm_db.Page.Buffer.{Buffer, slice, overlay, read_slice, write_slice, u16_at, zeroed, fill_zero}
use rarm_db.Page.Buffer.Laws.{put_u16}
use rarm_db.Page.Slotted.{
  set_page_header_u16_value, set_slot, slot_offset, get_page_header_u16_value, get_item_count,
  get_slot, get_free_space_contiguous, add_sizes, get_free_space, get_record,
}
use rarm_db.Page.Total.{total}

abbrev pub item_count : Buffer → ℕ
item_count b = u16_at b item_count_offset

abbrev pub heap_end : Buffer → ℕ
heap_end b = u16_at b data_heap_end_offset

abbrev pub record_offset : Buffer → ℕ → ℕ
record_offset b i = u16_at b (slot_offset i)

abbrev pub record_size : Buffer → ℕ → ℕ
record_size b i = u16_at b (slot_offset i + 2)

abbrev pub record_at : Buffer → ℕ → List ℕ
record_at b i = slice b (record_offset b i) (record_size b i)

-- Two ranges of bytes that do not meet.
abbrev pub Apart : ℕ → ℕ → ℕ → ℕ → Type 0
Apart p m q n = (p + m ≤ q) ⊎ (q + n ≤ p)

-- The slot array ends before the heap begins, every record lies in the heap, no two records share
-- a byte, and together they fit the heap.
pub record IsSlotted (b : Buffer) : Type 0 where
  pub room : page_header_size + item_count b * slot_size ≤ heap_end b
  pub heap_inside : heap_end b ≤ page_size
  pub above : (i : ℕ) → i < item_count b → heap_end b ≤ record_offset b i
  pub inside : (i : ℕ) → i < item_count b → record_offset b i + record_size b i ≤ page_size
  pub used : total (record_size b) (item_count b) + heap_end b ≤ page_size
  pub apart :
      (i j : ℕ)
      → i < item_count b
      → j < item_count b
      → i ≢ j
      → Apart (record_offset b i) (record_size b i) (record_offset b j) (record_size b j)

-- The checked accesses, where their ranges lie in the page.
pub read_slice_inside :
    (b : Buffer) (off n : ℕ) → off + n ≤ page_size → read_slice b off n ≡ done (slice b off n)
unfolding read_slice
read_slice_inside b off n h = rw (le→ltb page_size (off + n) h)

pub write_slice_inside :
    (b : Buffer) (off n : ℕ) (bytes : List ℕ)
    → off + n ≤ page_size
    → length bytes ≡ n
    → write_slice b off n bytes ≡ done (overlay b off bytes)
unfolding write_slice
write_slice_inside b off n bytes h e = ground arith

pub fill_zero_inside :
    (b : Buffer) (off n : ℕ) → off + n ≤ page_size → fill_zero b off n ≡ done (zeroed b off n)
unfolding fill_zero
fill_zero_inside b off n h = rw (le→ltb page_size (off + n) h)

-- A word of two bytes, written in range.
pub write_word :
    (b : Buffer) (off v : ℕ)
    → off + 2 ≤ page_size
    → write_slice b off 2 (to_le_bytes 2 v) ≡ done (put_u16 b off v)
write_word b off v h = write_slice_inside b off 2 (to_le_bytes 2 v) h (length-to_le_bytes 2 v)

pub set_page_header_u16_value_lem :
    (b : Buffer) (off v : ℕ)
    → off + 2 ≤ page_size
    → set_page_header_u16_value b off v ≡ done (put_u16 b off v)
unfolding set_page_header_u16_value
set_page_header_u16_value_lem = write_word

pub set_slot_lem :
    (b : Buffer) (i off size : ℕ)
    → slot_offset (i + 1) ≤ page_size
    → set_slot b i off size
      ≡ done (put_u16 (put_u16 b (slot_offset i) off) (slot_offset i + 2) size)
unfolding set_slot
set_slot_lem b i off size h = rw (
  write_word b (slot_offset i) off (omega arith),
  write_word (put_u16 b (slot_offset i) off) (slot_offset i + 2) size (omega arith),
)

pub get_page_header_u16_value_lem :
    (b : Buffer) (off : ℕ)
    → off + 2 ≤ page_size
    → get_page_header_u16_value b off ≡ done (u16_at b off)
unfolding get_page_header_u16_value u16_at
get_page_header_u16_value_lem b off h = rw (read_slice_inside b off 2 h)

pub get_item_count_lem : (b : Buffer) → get_item_count b ≡ done (item_count b)
unfolding get_item_count u16_at
get_item_count_lem b = rw (read_slice_inside b item_count_offset 2 (omega arith))

pub get_slot_lem :
    (b : Buffer) (i : ℕ)
    → slot_offset (i + 1) ≤ page_size
    → get_slot b i ≡ done (record_offset b i, record_size b i)
unfolding get_slot u16_at
get_slot_lem b i h = rw (
  read_slice_inside b (slot_offset i) 2 (omega arith),
  read_slice_inside b (slot_offset i + 2) 2 (omega arith),
)

module _ (b : Buffer) where
  -- An index from the item count on gives nothing, on any page.
  pub get_record_beyond : (i : ℕ) → item_count b ≤ i → get_record b i ≡ done none
  unfolding get_record
  get_record_beyond i h = rw (get_item_count_lem b, le→leb (item_count b) i h)

  pub get_free_space_contiguous_lem :
      heap_end b ≤ page_size
      → page_header_size + item_count b * slot_size ≤ heap_end b
      → get_free_space_contiguous b
        ≡ done (heap_end b - (page_header_size + item_count b * slot_size))
  unfolding get_free_space_contiguous
  get_free_space_contiguous_lem h k =
      rw
        (
          get_item_count_lem b,
          get_page_header_u16_value_lem b data_heap_end_offset (omega arith),
          checked_sub_le page_size (heap_end b) h,
          checked_sub_le (page_size - page_header_size) (item_count b * slot_size) (omega arith),
          checked_sub_le (page_size - page_header_size - item_count b * slot_size)
              (page_size - heap_end b) (omega arith),
        )
        (ap done (omega arith))

  -- The loop of `get_free_space` from slot `i` on, when the sizes before it are added up.
  pub add_sizes_lem :
      (n i j : ℕ)
      → i + n ≡ j
      → slot_offset j ≤ page_size
      → add_sizes n b i (total (record_size b) i) ≡ done (total (record_size b) j)
  unfolding add_sizes
  add_sizes_lem zero i j e h =
      let e' : i ≡ j = omega arith in ap (λ t. done (total (record_size b) t)) e'
  add_sizes_lem (suc n) i j e h =
      let e' : i + 1 ≡ suc i = omega arith in
      rw (get_slot_lem b i (omega arith), e') (add_sizes_lem n (suc i) j (omega arith) h)

module _ {b : Buffer} (v : IsSlotted b) where
  pub slot_inside : (i : ℕ) → i < item_count b → slot_offset (i + 1) ≤ heap_end b
  slot_inside i h = omega (arith, v.room)

  -- A slot below the item count gives its record.
  pub get_record_lem : (i : ℕ) → i < item_count b → get_record b i ≡ done (some (record_at b i))
  unfolding get_record
  get_record_lem i h = rw (
    get_item_count_lem b,
    lt→leb i (item_count b) h,
    get_slot_lem b i (omega (arith, slot_inside i h, v.heap_inside)),
    read_slice_inside b (record_offset b i) (record_size b i) (v.inside i h),
  )

  -- The free space that the page reports: all that neither header, slots nor records take.
  pub get_free_space_lem :
      get_free_space b
      ≡ done (
          page_size
          - (page_header_size + item_count b * slot_size + total (record_size b) (item_count b)))
  unfolding get_free_space
  get_free_space_lem =
      let n = item_count b in
      let t = total (record_size b) n in
      rw
        (
          get_item_count_lem b,
          get_page_header_u16_value_lem b data_heap_end_offset (omega arith),
          checked_sub_le page_size (heap_end b) v.heap_inside,
          checked_sub_le (page_size - page_header_size) (n * slot_size)
              (omega (arith, v.room, v.heap_inside)),
          checked_sub_le (page_size - page_header_size - n * slot_size) (page_size - heap_end b)
              (omega (arith, v.room, v.heap_inside)),
          add_sizes_lem b n 0 n (omega arith) (omega (arith, v.room, v.heap_inside)),
          checked_sub_le (page_size - heap_end b) t (omega (arith, v.used)),
        )
        (ap done (omega (arith, v.room, v.heap_inside, v.used)))
