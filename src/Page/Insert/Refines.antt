-- ===== src/Page/Insert/Refines.antt =====
-- An insertion keeps the page well formed and inserts the record into the sequence of records.
use native.Mathlib.Decide.{dec_lt, ℕ_discrete}
use rarm_db.Base.{
  ℕ, suc, ◌+◌, ◌-◌, ◌*◌, ◌≤◌, ◌<◌, ◌≡◌, ◌≢◌, refl, sym, subst, ◌∙◌, List, some, arith, length, ◌⊎◌,
  inl, inr, done, lt→ltb, le→ltb, Returns,
}
use rarm_db.Page.{
  page_size, slot_size, page_header_size, item_count_offset, Result, ok, err, StorageError,
}
use rarm_db.Page.Buffer.{Buffer, slice}
use rarm_db.Page.Total.{total, Inserts, total_insert}
use rarm_db.Page.Slotted.{get_record, try_insert_record}
use rarm_db.Page.Shape.{
  item_count, heap_end, record_offset, record_size, record_at, IsSlotted, Apart, get_record_lem,
  get_record_beyond, get_free_space_contiguous_lem, get_item_count_lem,
}
use rarm_db.Page.Insert.{inserted, insert_record_at-inserted}
use rarm_db.Page.Insert.Reads

-- The records of `b'` are those of `b` with `record_data` inserted at `index`, as `get_record`
-- shows them, and the header before the item count (the links to other pages) is the same.
abbrev pub Inserted : Buffer → Buffer → ℕ → List ℕ → Type 0
Inserted b b' index record_data =
    (item_count b' ≡ item_count b + 1)
    × ((j : ℕ) → j < index → get_record b' j ≡ get_record b j)
    × (get_record b' index ≡ done (some record_data))
    × ((j : ℕ) → index ≤ j → get_record b' (suc j) ≡ get_record b j)
    × ((p m : ℕ) → p + m ≤ item_count_offset → slice b' p m ≡ slice b p m)

module _ (b : Buffer) (v : IsSlotted b) (index : ℕ) (record_data : List ℕ)
    (index_fits : index ≤ item_count b)
    (room : page_header_size + (item_count b + 1) * slot_size + length record_data
      ≤ heap_end b) where
  abbrev b' : Buffer
  b' = inserted b index record_data

  -- Where a slot of the new page comes from, when it is not the new one.
  record Moved (j : ℕ) : Type 0 where
    from : ℕ
    from_fits : from < item_count b
    order : ((from < index) × (j ≡ from)) ⊎ ((index ≤ from) × (j ≡ suc from))
    same_offset : record_offset b' j ≡ record_offset b from
    same_size : record_size b' j ≡ record_size b from

  Moved-before : (j : ℕ) → j < index → Moved j
  Moved-before j h = record {
    from = j;
    from_fits = omega arith;
    order = inl (h, refl);
    same_offset =
        Reads.record_offset-inserted_before b index record_data index_fits v.heap_inside room j h;
    same_size =
        Reads.record_size-inserted_before b index record_data index_fits v.heap_inside room j h;
  }

  Moved-after : (k : ℕ) → index ≤ k → k < item_count b → Moved (suc k)
  Moved-after k h h' = record {
    from = k;
    from_fits = h';
    order = inr (h, refl);
    same_offset =
        Reads.record_offset-inserted_after b index record_data index_fits v.heap_inside room k h h';
    same_size =
        Reads.record_size-inserted_after b index record_data index_fits v.heap_inside room k h h';
  }

  slot-cases : (j : ℕ) → j < item_count b + 1 → (j ≡ index) ⊎ Moved j
  slot-cases j h = elim (dec_lt j index) [
    | yes p ↦ inr (Moved-before j p)
    | no p ↦ elim (ℕ_discrete j index) [
      | yes e ↦ inl e
      | no ne ↦
          let e : suc (j - 1) ≡ j = omega arith in
          inr (subst Moved e (Moved-after (j - 1) (omega arith) (omega arith)))
    ]
  ]

  new_offset : record_offset b' index ≡ heap_end b - length record_data
  new_offset = Reads.record_offset-inserted b index record_data index_fits v.heap_inside room

  new_size : record_size b' index ≡ length record_data
  new_size = Reads.record_size-inserted b index record_data index_fits v.heap_inside room

  new_count : item_count b' ≡ item_count b + 1
  new_count = Reads.item_count-inserted b index record_data index_fits v.heap_inside room

  new_heap : heap_end b' ≡ heap_end b - length record_data
  new_heap = Reads.heap_end-inserted b index record_data index_fits v.heap_inside room

  above' : (j : ℕ) → (j ≡ index) ⊎ Moved j → heap_end b' ≤ record_offset b' j
  above' j (inl e) = rw e (omega (arith, new_offset, new_heap))
  above' j (inr m) = omega (arith, m.same_offset, new_heap, v.above m.from m.from_fits)

  inside' : (j : ℕ) → (j ≡ index) ⊎ Moved j → record_offset b' j + record_size b' j ≤ page_size
  inside' j (inl e) = rw e (omega (arith, new_offset, new_size, v.heap_inside))
  inside' j (inr m) = omega (arith, m.same_offset, m.same_size, v.inside m.from m.from_fits)

  -- The new record lies below the old heap.
  new_below : (j : ℕ) → Moved j → record_offset b' index + record_size b' index ≤ record_offset b' j
  new_below j m = omega (arith, new_offset, new_size, m.same_offset, v.above m.from m.from_fits)

  apart' :
      (i j : ℕ)
      → (i ≡ index) ⊎ Moved i
      → (j ≡ index) ⊎ Moved j
      → i ≢ j
      → Apart (record_offset b' i) (record_size b' i) (record_offset b' j) (record_size b' j)
  apart' i j (inl e) (inl f) ne = absurd (ne (e ∙ sym f))
  apart' i j (inl e) (inr m) ne = rw e (inl (new_below j m))
  apart' i j (inr m) (inl e) ne = rw e (inr (new_below i m))
  apart' i j (inr m) (inr m') ne =
      rw (m.same_offset, m.same_size, m'.same_offset, m'.same_size)
        (v.apart m.from m'.from m.from_fits m'.from_fits (origins_ne m.order m'.order))
    where
      origins_ne :
          {p q : ℕ}
          → ((p < index) × (i ≡ p)) ⊎ ((index ≤ p) × (i ≡ suc p))
          → ((q < index) × (j ≡ q)) ⊎ ((index ≤ q) × (j ≡ suc q))
          → p ≢ q
      origins_ne x y same = omega arith

  used' : total (record_size b') (item_count b + 1) + (heap_end b - length record_data) ≤ page_size
  used' =
      let sums : Inserts (record_size b) (record_size b') (item_count b) index
          (length record_data) =
        record {
          within = index_fits;
          before =
              Reads.record_size-inserted_before b index record_data index_fits v.heap_inside room;
          here = new_size;
          after =
              Reads.record_size-inserted_after b index record_data index_fits v.heap_inside room;
        } in
      let e : item_count b + 1 ≡ suc (item_count b) = omega arith in
      rw e (
        omega (
          arith,
          total_insert (record_size b) (record_size b') (item_count b) index (length record_data)
              sums,
          v.used,
        ))

  inserted-IsSlotted : IsSlotted b'
  inserted-IsSlotted = record {
    room = omega (arith, new_count, new_heap);
    heap_inside = omega (arith, new_heap, v.heap_inside);
    above = λ j h. above' j (slot-cases j (omega (arith, new_count)));
    inside = λ j h. inside' j (slot-cases j (omega (arith, new_count)));
    used = rw (new_count, new_heap) used';
    apart = λ i j h k ne.
        apart' i j (slot-cases i (omega (arith, new_count)))
          (slot-cases j (omega (arith, new_count))) ne;
  }

  new_record : record_at b' index ≡ record_data
  new_record =
      rw (new_offset, new_size)
        (Reads.record_slice-inserted b index record_data index_fits v.heap_inside room)

  old_record : (j : ℕ) (m : Moved j) → record_at b' j ≡ record_at b m.from
  old_record j m =
      rw (m.same_offset, m.same_size)
        (Reads.heap_slice-inserted b index record_data index_fits v.heap_inside room
          (record_offset b m.from) (record_size b m.from) (v.above m.from m.from_fits))

  read_moved : (j : ℕ) (m : Moved j) → j < item_count b + 1 → get_record b' j ≡ get_record b m.from
  read_moved j m h = rw (
    get_record_lem inserted-IsSlotted j (omega (arith, new_count)),
    get_record_lem v m.from m.from_fits,
    old_record j m,
  )

  read_before : (j : ℕ) → j < index → get_record b' j ≡ get_record b j
  unfolding Moved-before
  read_before j h = read_moved j (Moved-before j h) (omega arith)

  read_new : get_record b' index ≡ done (some record_data)
  read_new = rw (get_record_lem inserted-IsSlotted index (omega (arith, new_count)), new_record)

  read_after : (k : ℕ) → index ≤ k → get_record b' (suc k) ≡ get_record b k
  unfolding Moved-after
  read_after k h = elim (dec_lt k (item_count b)) [
    | yes p ↦ read_moved (suc k) (Moved-after k h p) (omega arith)
    | no p ↦ rw (
      get_record_beyond b k (omega arith),
      get_record_beyond b' (suc k) (omega (arith, new_count)),
    )
  ]

  -- The records of the new page, by slot.
  get_record-Inserted : Inserted b b' index record_data
  get_record-Inserted = (
    new_count,
    read_before,
    read_new,
    read_after,
    Reads.header-inserted b index record_data index_fits v.heap_inside room,
  )

module _ (b : Buffer) (v : IsSlotted b) (index : ℕ) (record_data : List ℕ) where
  -- An insertion is refused for want of contiguous space, and the page stays.
  try_insert_record-page_full :
      heap_end b < page_header_size + (item_count b + 1) * slot_size + length record_data
      → try_insert_record b index record_data ≡ done (b, err StorageError.page_full)
  unfolding try_insert_record
  try_insert_record-page_full h = rw (
    get_free_space_contiguous_lem b v.heap_inside v.room,
    lt→ltb (heap_end b - (page_header_size + item_count b * slot_size))
        (length record_data + slot_size) (omega (arith, v.room)),
  )

  -- With space for the record, an index past the end is refused, and the page stays.
  try_insert_record-invalid_slot_index :
      page_header_size + (item_count b + 1) * slot_size + length record_data ≤ heap_end b
      → item_count b < index
      → try_insert_record b index record_data ≡ done (b, err StorageError.invalid_slot_index)
  unfolding try_insert_record
  try_insert_record-invalid_slot_index room h = rw (
    get_free_space_contiguous_lem b v.heap_inside v.room,
    le→ltb (heap_end b - (page_header_size + item_count b * slot_size))
        (length record_data + slot_size) (omega arith),
    get_item_count_lem b,
    lt→ltb (item_count b) index h,
  )

  -- With space, and an index up to the item count, `try_insert_record` succeeds: the page stays
  -- well formed, and its records are those before with the new one inserted at the index.
  pub try_insert_record-Inserted :
      page_header_size + (item_count b + 1) * slot_size + length record_data ≤ heap_end b
      → index ≤ item_count b
      → (b' : Buffer) × (try_insert_record b index record_data ≡ done (b', ok index))
        × IsSlotted b'
        × Inserted b b' index record_data
        × (heap_end b' + length record_data ≡ heap_end b)
  unfolding try_insert_record
  try_insert_record-Inserted room fits = (
    inserted b index record_data,
    rw (
      get_free_space_contiguous_lem b v.heap_inside v.room,
      le→ltb (heap_end b - (page_header_size + item_count b * slot_size))
          (length record_data + slot_size) (omega arith),
      get_item_count_lem b,
      le→ltb (item_count b) index fits,
      insert_record_at-inserted b index record_data fits v.heap_inside room,
    ),
    inserted-IsSlotted b v index record_data fits room,
    get_record-Inserted b v index record_data fits room,
    omega (arith, Reads.heap_end-inserted b index record_data fits v.heap_inside room),
  )

-- What an insertion must come to: on success the page is well formed and the record stands at its
-- index among the others; on an error the page is the same and the error has its cause.
abbrev pub InsertSpec : Buffer → ℕ → List ℕ → Buffer × Result ℕ → Type 0
InsertSpec b index record_data (b', ok i) =
    (i ≡ index) × IsSlotted b' × Inserted b b' index record_data
InsertSpec b index record_data (b', err e) =
    (b' ≡ b)
    × ((e ≡ StorageError.page_full)
          × (heap_end b < page_header_size + (item_count b + 1) * slot_size + length record_data)
        ⊎ (e ≡ StorageError.invalid_slot_index) × (item_count b < index))

-- On a well formed page `try_insert_record` never panics. It succeeds unless the contiguous space
-- is too small for the record and a slot, or the index lies past the end of the slots; then it
-- gives `PageFull` or `InvalidSlotIndex` and leaves the page as it was. On success the page is
-- well formed, has one item more, and `get_record` shows the records of before with the new one
-- inserted at the index; the links in the header stay.
pub try_insert_record-InsertSpec :
    (b : Buffer) (index : ℕ) (record_data : List ℕ)
    → IsSlotted b
    → Returns (try_insert_record b index record_data) (InsertSpec b index record_data)
try_insert_record-InsertSpec b index record_data v =
    let taken = page_header_size + (item_count b + 1) * slot_size + length record_data in
    elim (dec_lt (heap_end b) taken) [
      | yes full ↦ (
        (b, err StorageError.page_full),
        try_insert_record-page_full b v index record_data full,
        (refl, inl (refl, full)),
      )
      | no room ↦ elim (dec_lt (item_count b) index) [
        | yes past ↦ (
          (b, err StorageError.invalid_slot_index),
          try_insert_record-invalid_slot_index b v index record_data (omega arith) past,
          (refl, inr (refl, past)),
        )
        | no fits ↦
            let (b', e, w, i, heap) =
              try_insert_record-Inserted b v index record_data (omega arith) (omega arith) in
            ((b', ok index), e, (refl, w, i))
      ]
    ]
