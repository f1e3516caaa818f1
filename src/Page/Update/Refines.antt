-- ===== src/Page/Update/Refines.antt =====
-- `try_update_record` replaces one record of the sequence, or leaves the page as it was.
use native.Mathlib.Decide.{dec_lt, dec_le}
use native.Mathlib.Nat.{mod-eq_of_lt}
use rarm_db.Base.{
  ℕ, ◌+◌, ◌-◌, ◌*◌, ◌≤◌, ◌<◌, ◌≡◌, refl, ◌∙◌, List, arith, length, ◌⊎◌, inl, inr, done, Returns,
  lt→ltb, le→ltb, le→leb, lt→leb, checked_sub_le,
}
use rarm_db.Page.{
  page_size, slot_size, page_header_size, data_heap_end_offset, Result, ok, err, StorageError,
}
use rarm_db.Page.Buffer.{Buffer, overlay}
use rarm_db.Page.Slotted.{slot_offset, try_update_record, move_record}
use rarm_db.Page.Shape.{
  item_count, heap_end, record_offset, record_size, IsSlotted, get_item_count_lem, get_slot_lem,
  set_slot_lem, slot_inside, write_slice_inside, get_free_space_contiguous_lem,
  get_page_header_u16_value_lem, set_page_header_u16_value_lem,
}
use rarm_db.Page.Slot.{reslot}
use rarm_db.Page.Update.{Updated, Replaces, Replaces-IsSlotted, Replaces-Updated}
use rarm_db.Page.Update.Places.{
  same_place, smaller, moved, same_place-Replaces, smaller-Replaces, moved-Replaces,
}

-- What an update must come to: on success the page is well formed and the record stands in the
-- place of the old one; on an error the page is the same and the error has its cause.
abbrev pub UpdateSpec : Buffer → ℕ → List ℕ → Buffer × Result ℕ → Type 0
UpdateSpec b index record_data (b', ok i) =
    (i ≡ index) × IsSlotted b' × Updated b b' index record_data
UpdateSpec b index record_data (b', err e) =
    (b' ≡ b)
    × ((e ≡ StorageError.invalid_slot_index) × (item_count b ≤ index)
        ⊎ (e ≡ StorageError.page_full)
          × (record_size b index < length record_data)
          × (heap_end b < page_header_size + item_count b * slot_size + length record_data))

module _ (b : Buffer) (v : IsSlotted b) (index : ℕ) (record_data : List ℕ) where
  update_beyond :
      item_count b ≤ index
      → try_update_record b index record_data ≡ done (b, err StorageError.invalid_slot_index)
  unfolding try_update_record
  update_beyond h = rw (get_item_count_lem b, le→leb (item_count b) index h)

  module _ (index_fits : index < item_count b) where
    slot_fits : slot_offset (index + 1) ≤ page_size
    slot_fits = omega (arith, slot_inside v index index_fits, v.heap_inside)

    update_same :
        length record_data ≡ record_size b index
        → try_update_record b index record_data
          ≡ done (same_place b v index record_data index_fits, ok index)
    unfolding try_update_record
    update_same e = rw (
      get_item_count_lem b,
      lt→leb index (item_count b) index_fits,
      get_slot_lem b index slot_fits,
      le→leb (length record_data) (record_size b index) (omega arith),
      write_slice_inside b (record_offset b index) (length record_data) record_data
          (omega (arith, v.inside index index_fits)) refl,
      le→ltb (length record_data) (record_size b index) (omega arith),
    )

    update_smaller :
        length record_data < record_size b index
        → try_update_record b index record_data
          ≡ done (smaller b v index record_data index_fits, ok index)
    unfolding try_update_record
    update_smaller h = rw (
      get_item_count_lem b,
      lt→leb index (item_count b) index_fits,
      get_slot_lem b index slot_fits,
      le→leb (length record_data) (record_size b index) (omega arith),
      write_slice_inside b (record_offset b index) (length record_data) record_data
          (omega (arith, v.inside index index_fits)) refl,
      lt→ltb (length record_data) (record_size b index) h,
      mod-eq_of_lt {n = record_offset b index} {m = 65536}
          (omega (arith, v.inside index index_fits)),
      mod-eq_of_lt {n = length record_data} {m = 65536} (omega (arith, v.inside index index_fits)),
      set_slot_lem (overlay b (record_offset b index) record_data) index (record_offset b index)
          (length record_data) slot_fits,
    )

    -- A record that has grown goes the other way.
    update_larger :
        record_size b index < length record_data
        → try_update_record b index record_data ≡ move_record b index record_data
    unfolding try_update_record
    update_larger h = rw (
      get_item_count_lem b,
      lt→leb index (item_count b) index_fits,
      get_slot_lem b index slot_fits,
      lt→leb (record_size b index) (length record_data) h,
    )

    move_full :
        heap_end b < page_header_size + item_count b * slot_size + length record_data
        → move_record b index record_data ≡ done (b, err StorageError.page_full)
    unfolding move_record
    move_full h = rw (
      get_free_space_contiguous_lem b v.heap_inside v.room,
      lt→ltb (heap_end b - (page_header_size + item_count b * slot_size)) (length record_data)
          (omega (arith, v.room)),
    )

    move_moved :
        page_header_size + item_count b * slot_size + length record_data ≤ heap_end b
        → move_record b index record_data ≡ done (moved b v index record_data index_fits, ok index)
    unfolding move_record
    move_moved room =
        let at = heap_end b - length record_data in
        rw (
          get_free_space_contiguous_lem b v.heap_inside v.room,
          le→ltb (heap_end b - (page_header_size + item_count b * slot_size)) (length record_data)
              (omega arith),
          get_page_header_u16_value_lem b data_heap_end_offset (omega arith),
          mod-eq_of_lt {n = length record_data} {m = 65536} (omega (arith, v.heap_inside)),
          checked_sub_le (heap_end b) (length record_data) (omega arith),
          write_slice_inside b at (length record_data) record_data (omega (arith, v.heap_inside))
              refl,
          set_slot_lem (overlay b at record_data) index at (length record_data) slot_fits,
          set_page_header_u16_value_lem
              (reslot (overlay b at record_data) index at (length record_data)) data_heap_end_offset
              at (omega arith),
        )

    replaced :
        (b' : Buffer)
        → try_update_record b index record_data ≡ done (b', ok index)
        → Replaces b b' index record_data
        → Returns (try_update_record b index record_data) (UpdateSpec b index record_data)
    replaced b' e r = ((b', ok index), e, (refl, Replaces-IsSlotted v r, Replaces-Updated v r))

    update_inside : Returns (try_update_record b index record_data) (UpdateSpec b index record_data)
    update_inside = elim (dec_lt (record_size b index) (length record_data)) [
      | yes larger ↦
          elim (dec_le (page_header_size + item_count b * slot_size + length record_data)
            (heap_end b)) [
              | yes room ↦
                  replaced (moved b v index record_data index_fits)
                    (update_larger larger ∙ move_moved room)
                    (moved-Replaces b v index record_data index_fits room)
              | no full ↦ (
                (b, err StorageError.page_full),
                update_larger larger ∙ move_full (omega arith),
                (refl, inr (refl, larger, omega arith)),
              )
            ]
      | no fits ↦ elim (dec_lt (length record_data) (record_size b index)) [
        | yes less ↦
            replaced (smaller b v index record_data index_fits) (update_smaller less)
              (smaller-Replaces b v index record_data index_fits (omega arith))
        | no same ↦
            replaced (same_place b v index record_data index_fits) (update_same (omega arith))
              (same_place-Replaces b v index record_data index_fits (omega arith))
      ]
    ]

-- On a well formed page `try_update_record` never panics. It refuses an index past the slots with
-- `InvalidSlotIndex`, and a record larger than the old one and than the contiguous free space with
-- `PageFull`; then the page is as it was. In all other cases the page is well formed and
-- `get_record` shows the new record in the place of the old one, and every other record unchanged;
-- the links in the header stay.
pub try_update_record-UpdateSpec :
    (b : Buffer) (index : ℕ) (record_data : List ℕ)
    → IsSlotted b
    → Returns (try_update_record b index record_data) (UpdateSpec b index record_data)
try_update_record-UpdateSpec b index record_data v = elim (dec_lt index (item_count b)) [
  | yes h ↦ update_inside b v index record_data h
  | no h ↦ (
    (b, err StorageError.invalid_slot_index),
    update_beyond b v index record_data (omega arith),
    (refl, inl (refl, omega arith)),
  )
]
