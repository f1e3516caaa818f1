-- ===== src/Page/Delete.antt =====
-- `delete_record`: the slots above the deleted one move down, and the records stay where they are.
use native.Mathlib.Decide.{dec_lt}
use rarm_db.Base.{
  ℕ, suc, ◌+◌, ◌-◌, ◌*◌, ◌≤◌, ◌<◌, ◌≡◌, ◌≢◌, refl, ap, sym, ◌∙◌, arith, ◌⊎◌, inl, inr,
  if◌then◌else◌, ltb, done, Returns, lt→ltb, le→ltb, le→leb, lt→leb, checked_sub_le,
}
use rarm_db.Page.{page_size, slot_size, item_count_offset, data_heap_end_offset}
use rarm_db.Page.Buffer.{Buffer, slice, move, copy_within, u16_at}
use rarm_db.Page.Buffer.Laws.{
  put_u16, slice-put_u16_apart, u16_at-put_u16_apart, u16_at-put_u16_self, slice-move_apart,
  u16_at-move_apart, u16_at-move_inside, move-zero,
}
use rarm_db.Page.Total.{total, Inserts, total_insert}
use rarm_db.Page.Slotted.{slot_offset, get_record, delete_record}
use rarm_db.Page.Shape.{
  item_count, heap_end, record_offset, record_size, record_at, IsSlotted, Apart, get_record_lem,
  get_record_beyond, get_item_count_lem, set_page_header_u16_value_lem,
}

abbrev closed : Buffer → ℕ → ℕ → Buffer
closed b index n =
    move b (slot_offset index + slot_size) (n * slot_size - (index + 1) * slot_size)
      (slot_offset index)

pub deleted : Buffer → ℕ → Buffer
deleted b index = put_u16 (closed b index (item_count b)) item_count_offset (item_count b - 1)

-- The records of `b'` are those of `b` without the one at `index`, as `get_record` shows them; the
-- header before the item count is the same.
abbrev pub Deleted : Buffer → Buffer → ℕ → Type 0
Deleted b b' index =
    (item_count b' + 1 ≡ item_count b)
    × ((j : ℕ) → j < index → get_record b' j ≡ get_record b j)
    × ((j : ℕ) → index ≤ j → get_record b' j ≡ get_record b (suc j))
    × ((p m : ℕ) → p + m ≤ item_count_offset → slice b' p m ≡ slice b p m)

module _ (b : Buffer) (v : IsSlotted b) (index : ℕ) (index_fits : index < item_count b) where
  abbrev n : ℕ
  n = item_count b

  abbrev c : Buffer
  c = closed b index n

  abbrev b' : Buffer
  b' = deleted b index

  shift-closed :
      (if ltb 0 (n * slot_size - (index + 1) * slot_size)
        then copy_within b
            (slot_offset index + slot_size)
            (n * slot_size - (index + 1) * slot_size)
            (slot_offset index)
        else done b)
      ≡ done c
  unfolding copy_within
  shift-closed =
      let m = n * slot_size - (index + 1) * slot_size in
      elim (dec_lt 0 m) [
        | yes p ↦ rw (
          lt→ltb 0 m p,
          le→ltb page_size (slot_offset index + slot_size + m)
              (omega (arith, v.room, v.heap_inside)),
          le→ltb page_size (slot_offset index + m) (omega (arith, v.room, v.heap_inside)),
        )
        | no p ↦ let e : m ≡ 0 = omega arith in rw (e, move-zero)
      ]

  delete_record-deleted : delete_record b index ≡ done b'
  unfolding delete_record deleted
  delete_record-deleted =
      rw
        (
          get_item_count_lem b,
          lt→leb index n index_fits,
          checked_sub_le (n * slot_size) ((index + 1) * slot_size) (omega arith),
          shift-closed,
          checked_sub_le n 1 (omega arith),
        )
        (set_page_header_u16_value_lem c item_count_offset (n - 1) (omega arith))

  new_count : item_count b' ≡ n - 1
  unfolding deleted
  new_count =
      u16_at-put_u16_self c item_count_offset (n - 1) item_count_offset (omega arith)
        (omega (arith, v.room, v.heap_inside))

  word_before :
      (p : ℕ) → item_count_offset + 2 ≤ p → p + 2 ≤ slot_offset index → u16_at b' p ≡ u16_at b p
  unfolding deleted
  word_before p h k =
      u16_at-put_u16_apart c item_count_offset (n - 1) p (omega arith)
      ∙ u16_at-move_apart b _ _ _ p (omega arith)

  word_after :
      (p q : ℕ)
      → q ≡ p + slot_size
      → slot_offset index ≤ p
      → q + 2 ≤ slot_offset n
      → u16_at b' p ≡ u16_at b q
  unfolding deleted
  word_after p q e h k =
      u16_at-put_u16_apart c item_count_offset (n - 1) p (omega arith)
      ∙ u16_at-move_inside b _ _ _ p q (p - slot_offset index) (omega arith) (omega arith)
          (omega arith)

  header_slice : (p m : ℕ) → p + m ≤ item_count_offset → slice b' p m ≡ slice b p m
  unfolding deleted
  header_slice p m h =
      slice-put_u16_apart c item_count_offset (n - 1) p m (omega arith)
      ∙ slice-move_apart b _ _ _ p m (omega arith)

  heap_slice : (p m : ℕ) → slot_offset n ≤ p → slice b' p m ≡ slice b p m
  unfolding deleted
  heap_slice p m h =
      slice-put_u16_apart c item_count_offset (n - 1) p m (omega arith)
      ∙ slice-move_apart b _ _ _ p m (omega arith)

  new_heap : heap_end b' ≡ heap_end b
  new_heap = word_before data_heap_end_offset (omega arith) (omega arith)

  -- Where a slot of the new page comes from.
  record Kept (j : ℕ) : Type 0 where
    from : ℕ
    from_fits : from < item_count b
    order : ((j < index) × (from ≡ j)) ⊎ ((index ≤ j) × (from ≡ suc j))
    same_offset : record_offset b' j ≡ record_offset b from
    same_size : record_size b' j ≡ record_size b from

  Kept-before : (j : ℕ) → j < index → Kept j
  Kept-before j h = record {
    from = j;
    from_fits = omega arith;
    order = inl (h, refl);
    same_offset = word_before (slot_offset j) (omega arith) (omega arith);
    same_size = word_before (slot_offset j + 2) (omega arith) (omega arith);
  }

  Kept-after : (j : ℕ) → index ≤ j → suc j < item_count b → Kept j
  Kept-after j h k = record {
    from = suc j;
    from_fits = k;
    order = inr (h, refl);
    same_offset =
        word_after (slot_offset j) (slot_offset (suc j)) (omega arith) (omega arith) (omega arith);
    same_size =
        word_after (slot_offset j + 2) (slot_offset (suc j) + 2) (omega arith) (omega arith)
          (omega arith);
  }

  kept : (j : ℕ) → j < item_count b' → Kept j
  kept j h = elim (dec_lt j index) [
    | yes p ↦ Kept-before j p
    | no p ↦ Kept-after j (omega arith) (omega (arith, new_count))
  ]

  apart' :
      (i j : ℕ)
      → Kept i
      → Kept j
      → i ≢ j
      → Apart (record_offset b' i) (record_size b' i) (record_offset b' j) (record_size b' j)
  apart' i j m m' ne =
      rw (m.same_offset, m.same_size, m'.same_offset, m'.same_size)
        (v.apart m.from m'.from m.from_fits m'.from_fits (omega (arith, m.order, m'.order)))

  used' : total (record_size b') (n - 1) + heap_end b ≤ page_size
  used' =
      let sums : Inserts (record_size b') (record_size b) (n - 1) index (record_size b index) =
        record {
          within = omega arith;
          before = λ k h. sym (word_before (slot_offset k + 2) (omega arith) (omega arith));
          here = refl;
          after = λ k h h'. sym (
              word_after (slot_offset k + 2) (slot_offset (suc k) + 2) (omega arith) (omega arith)
                (omega arith));
        } in
      let e : suc (n - 1) ≡ n = omega arith in
      let s : total (record_size b) n ≡ total (record_size b') (n - 1) + record_size b index =
        ap (total (record_size b)) (sym e)
        ∙ total_insert (record_size b') (record_size b) (n - 1) index (record_size b index) sums in
      omega (arith, v.used)

  deleted-IsSlotted : IsSlotted b'
  deleted-IsSlotted = record {
    room = omega (arith, new_count, new_heap, v.room);
    heap_inside = omega (arith, new_heap, v.heap_inside);
    above = λ j h.
        let m = kept j h in omega (arith, m.same_offset, new_heap, v.above m.from m.from_fits);
    inside = λ j h.
        let m = kept j h in omega (arith, m.same_offset, m.same_size, v.inside m.from m.from_fits);
    used = rw (new_count, new_heap) used';
    apart = λ i j h k ne. apart' i j (kept i h) (kept j k) ne;
  }

  kept_record : (j : ℕ) (m : Kept j) → record_at b' j ≡ record_at b m.from
  kept_record j m =
      rw (m.same_offset, m.same_size)
        (heap_slice (record_offset b m.from) (record_size b m.from)
          (omega (arith, v.room, v.above m.from m.from_fits)))

  read_kept : (j : ℕ) (m : Kept j) → j < item_count b' → get_record b' j ≡ get_record b m.from
  read_kept j m h =
      rw
        (get_record_lem deleted-IsSlotted j h, get_record_lem v m.from m.from_fits, kept_record j m)

  read_before : (j : ℕ) → j < index → get_record b' j ≡ get_record b j
  unfolding Kept-before
  read_before j h = read_kept j (Kept-before j h) (omega (arith, new_count))

  read_after : (j : ℕ) → index ≤ j → get_record b' j ≡ get_record b (suc j)
  unfolding Kept-after
  read_after j h = elim (dec_lt (suc j) n) [
    | yes p ↦ read_kept j (Kept-after j h p) (omega (arith, new_count))
    | no p ↦ rw (
      get_record_beyond b (suc j) (omega arith),
      get_record_beyond b' j (omega (arith, new_count)),
    )
  ]

  delete_record-Deleted : Returns (delete_record b index) (λ b'. IsSlotted b' × Deleted b b' index)
  delete_record-Deleted = (
    b',
    delete_record-deleted,
    (deleted-IsSlotted, (omega (arith, new_count), read_before, read_after, header_slice)),
  )

-- On a well formed page `delete_record` never panics. With an index below the item count it takes
-- that record out: the page is well formed, has one item less, and `get_record` shows the other
-- records in their order; the links in the header stay. Any other index changes nothing.
pub delete_record-Deleted_or_same :
    (b : Buffer) (index : ℕ)
    → IsSlotted b
    → Returns (delete_record b index) (λ b'.
      IsSlotted b'
      × ((index < item_count b) × Deleted b b' index ⊎ (item_count b ≤ index) × (b' ≡ b)))
delete_record-Deleted_or_same b index v = elim (dec_lt index (item_count b)) [
  | yes h ↦ let (b', e, p) = delete_record-Deleted b v index h in (b', e, (p.0, inl (h, p.1)))
  | no h ↦ (b, beyond (omega arith), (v, inr (omega arith, refl)))
]
  where
    beyond : item_count b ≤ index → delete_record b index ≡ done b
    beyond h = unfold delete_record in rw (get_item_count_lem b, le→leb (item_count b) index h)
