-- ===== src/Page/Update/Places.antt =====
-- The three pages that `try_update_record` can leave: the record in its old place, with its old
-- size or a smaller one, or at the end of the heap. Each has the record replaced.
use rarm_db.Base.{
  ℕ, ◌+◌, ◌-◌, ◌*◌, ◌≤◌, ◌<◌, ◌≡◌, ◌≢◌, refl, sym, ◌∙◌, List, arith, length, ◌⊎◌, inl,
}
use rarm_db.Page.{slot_size, page_header_size, item_count_offset, data_heap_end_offset}
use rarm_db.Page.Buffer.{Buffer, overlay, u16_at}
use rarm_db.Page.Buffer.Laws.{
  put_u16, slice-put_u16_apart, u16_at-put_u16_apart, u16_at-put_u16_self, slice-overlay_apart,
  slice-overlay_self, u16_at-overlay_apart,
}
use rarm_db.Page.Slotted.{slot_offset}
use rarm_db.Page.Shape.{item_count, heap_end, record_offset, record_size, IsSlotted, Apart}
use rarm_db.Page.Slot.{reslot, reslot_offset, reslot_size, reslot_word, slice-reslot}
use rarm_db.Page.Update.{Replaces}

module _ (b : Buffer) (v : IsSlotted b) (index : ℕ) (record_data : List ℕ)
    (index_fits : index < item_count b) where
  abbrev size : ℕ
  size = length record_data

  abbrev off : ℕ
  off = record_offset b index

  -- In place, with the same size.
  abbrev pub same_place : Buffer
  same_place = overlay b off record_data

  place_above : page_header_size + item_count b * slot_size ≤ off
  place_above = omega (arith, v.room, v.above index index_fits)

  place-Apart :
      size ≤ record_size b index
      → (j : ℕ) → j < item_count b
      → j ≢ index
      → Apart off size (record_offset b j) (record_size b j)
  place-Apart h j k ne = omega (arith, v.apart index j index_fits k (λ e. ne (sym e)))

  pub same_place-Replaces : size ≡ record_size b index → Replaces b same_place index record_data
  same_place-Replaces h = record {
    index_fits = index_fits;
    same_count =
        u16_at-overlay_apart b off record_data item_count_offset (omega (arith, place_above));
    room = omega (arith, v.room, heap);
    heap_le = omega (arith, heap);
    grows = omega (arith, heap);
    same_offset = λ j k ne.
        u16_at-overlay_apart b off record_data (slot_offset j) (omega (arith, place_above));
    same_size = λ j k ne.
        u16_at-overlay_apart b off record_data (slot_offset j + 2) (omega (arith, place_above));
    new_size =
        u16_at-overlay_apart b off record_data (slot_offset index + 2) (omega (arith, place_above))
        ∙ sym h;
    new_above = omega (arith, heap, offset, v.above index index_fits);
    new_inside = omega (arith, offset, v.inside index index_fits);
    new_apart = λ j k ne. rw offset (place-Apart (omega arith) j k ne);
    same_bytes = λ j k ne.
        slice-overlay_apart b off record_data (record_offset b j) (record_size b j)
          (omega (arith, place-Apart (omega arith) j k ne));
    new_bytes = rw offset (slice-overlay_self b off record_data);
    same_header = λ p m k. slice-overlay_apart b off record_data p m (omega (arith, place_above));
  }
    where
      heap : heap_end same_place ≡ heap_end b
      heap =
          u16_at-overlay_apart b off record_data data_heap_end_offset (omega (arith, place_above))

      offset : record_offset same_place index ≡ off
      offset =
          u16_at-overlay_apart b off record_data (slot_offset index) (omega (arith, place_above))

  -- In place, with a smaller size.
  abbrev pub smaller : Buffer
  smaller = reslot same_place index off size

  pub smaller-Replaces : size ≤ record_size b index → Replaces b smaller index record_data
  smaller-Replaces h = record {
    index_fits = index_fits;
    same_count = word item_count_offset (omega arith) (omega (arith, place_above));
    room = omega (arith, v.room, heap);
    heap_le = omega (arith, heap);
    grows = omega (arith, heap);
    same_offset = λ j k ne. word (slot_offset j) (omega arith) (omega (arith, place_above));
    same_size = λ j k ne. word (slot_offset j + 2) (omega arith) (omega (arith, place_above));
    new_size = reslot_size same_place index off size (omega (arith, v.inside index index_fits));
    new_above = omega (arith, heap, offset, v.above index index_fits);
    new_inside = omega (arith, offset, v.inside index index_fits);
    new_apart = λ j k ne. rw offset (place-Apart h j k ne);
    same_bytes = λ j k ne.
        slice-reslot same_place index off size (record_offset b j) (record_size b j)
          (omega (arith, v.room, v.above j k))
        ∙ slice-overlay_apart b off record_data (record_offset b j) (record_size b j)
            (omega (arith, place-Apart h j k ne));
    new_bytes = rw offset (
        slice-reslot same_place index off size off size (omega (arith, place_above))
        ∙ slice-overlay_self b off record_data);
    same_header = λ p m k.
        slice-reslot same_place index off size p m (omega arith)
        ∙ slice-overlay_apart b off record_data p m (omega (arith, place_above));
  }
    where
      word :
          (p : ℕ)
          → (p + 2 ≤ slot_offset index) ⊎ (slot_offset index + 4 ≤ p)
          → p + 2 ≤ off
          → u16_at smaller p ≡ u16_at b p
      word p k l =
          reslot_word same_place index off size p k
          ∙ u16_at-overlay_apart b off record_data p (inl l)

      heap : heap_end smaller ≡ heap_end b
      heap = word data_heap_end_offset (omega arith) (omega (arith, place_above))

      offset : record_offset smaller index ≡ off
      offset = reslot_offset same_place index off size (omega (arith, v.inside index index_fits))

  -- At the end of the heap.
  abbrev at : ℕ
  at = heap_end b - size

  abbrev pub moved : Buffer
  moved = put_u16 (reslot (overlay b at record_data) index at size) data_heap_end_offset at

  pub moved-Replaces :
      page_header_size + item_count b * slot_size + size ≤ heap_end b
      → Replaces b moved index record_data
  moved-Replaces h = record {
    index_fits = index_fits;
    same_count =
        u16_at-put_u16_apart (reslot d index at size) data_heap_end_offset at item_count_offset
          (omega arith)
        ∙ word item_count_offset (omega arith) (omega arith);
    room = omega (arith, heap);
    heap_le = omega (arith, heap);
    grows = omega (arith, heap);
    same_offset = λ j k ne. high_word (slot_offset j) (omega arith) (omega arith) (omega arith);
    same_size = λ j k ne. high_word (slot_offset j + 2) (omega arith) (omega arith) (omega arith);
    new_size =
        u16_at-put_u16_apart (reslot d index at size) data_heap_end_offset at
          (slot_offset index + 2) (omega arith)
        ∙ reslot_size d index at size (omega (arith, v.heap_inside));
    new_above = omega (arith, heap, offset);
    new_inside = omega (arith, offset, v.heap_inside);
    new_apart = λ j k ne. inl (omega (arith, offset, v.above j k));
    same_bytes = λ j k ne.
        slice-put_u16_apart (reslot d index at size) data_heap_end_offset at (record_offset b j)
          (record_size b j) (omega (arith, v.room, v.above j k))
        ∙ slice-reslot d index at size (record_offset b j) (record_size b j)
            (omega (arith, v.room, v.above j k))
        ∙ slice-overlay_apart b at record_data (record_offset b j) (record_size b j)
            (omega (arith, v.above j k));
    new_bytes = rw offset (
        slice-put_u16_apart (reslot d index at size) data_heap_end_offset at at size (omega arith)
        ∙ slice-reslot d index at size at size (omega arith)
        ∙ slice-overlay_self b at record_data);
    same_header = λ p m k.
        slice-put_u16_apart (reslot d index at size) data_heap_end_offset at p m (omega arith)
        ∙ slice-reslot d index at size p m (omega arith)
        ∙ slice-overlay_apart b at record_data p m (omega arith);
  }
    where
      d : Buffer
      d = overlay b at record_data

      word :
          (p : ℕ)
          → (p + 2 ≤ slot_offset index) ⊎ (slot_offset index + 4 ≤ p)
          → p + 2 ≤ at
          → u16_at (reslot d index at size) p ≡ u16_at b p
      word p k l = reslot_word d index at size p k ∙ u16_at-overlay_apart b at record_data p (inl l)

      high_word :
          (p : ℕ)
          → page_header_size ≤ p
          → (p + 2 ≤ slot_offset index) ⊎ (slot_offset index + 4 ≤ p)
          → p + 2 ≤ at
          → u16_at moved p ≡ u16_at b p
      high_word p g k l =
          u16_at-put_u16_apart (reslot d index at size) data_heap_end_offset at p (omega arith)
          ∙ word p k l

      heap : heap_end moved ≡ at
      heap =
          u16_at-put_u16_self (reslot d index at size) data_heap_end_offset at data_heap_end_offset
            refl (omega (arith, v.heap_inside))

      offset : record_offset moved index ≡ at
      offset =
          u16_at-put_u16_apart (reslot d index at size) data_heap_end_offset at (slot_offset index)
            (omega arith)
          ∙ reslot_offset d index at size (omega (arith, v.heap_inside))
