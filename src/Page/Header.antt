-- ===== src/Page/Header.antt =====
-- A write to the part of the header that holds links and the parent, before the item count: the
-- slots and the records do not see it.
use rarm_db.Base.{ℕ, ◌+◌, ◌≤◌, ◌≡◌, sym, ap, ◌∙◌, List, some, arith, length, inr, done}
use native.Mathlib.Decide.{dec_lt}
use rarm_db.Page.{item_count_offset}
use rarm_db.Page.Total.{total-cong}
use rarm_db.Page.Buffer.{Buffer, overlay, u16_at}
use rarm_db.Page.Buffer.Laws.{slice-overlay_apart, u16_at-overlay_apart}
use rarm_db.Page.Slotted.{get_record, slot_offset}
use rarm_db.Page.Shape.{
  item_count, heap_end, record_offset, record_size, record_at, IsSlotted, get_record_lem,
  get_record_beyond,
}

module _ (b : Buffer) (v : IsSlotted b) (off : ℕ) (bytes : List ℕ)
    (in_header : off + length bytes ≤ item_count_offset) where
  abbrev b' : Buffer
  b' = overlay b off bytes

  same_word : (p : ℕ) → item_count_offset ≤ p → u16_at b' p ≡ u16_at b p
  same_word p h = u16_at-overlay_apart b off bytes p (inr (omega arith))

  same_offset : (i : ℕ) → record_offset b' i ≡ record_offset b i
  same_offset i = same_word (slot_offset i) (omega arith)

  same_size : (i : ℕ) → record_size b' i ≡ record_size b i
  same_size i = same_word (slot_offset i + 2) (omega arith)

  pub item_count-overlay : item_count b' ≡ item_count b
  item_count-overlay = same_word item_count_offset (omega arith)

  pub heap_end-overlay : heap_end b' ≡ heap_end b
  heap_end-overlay = same_word (item_count_offset + 2) (omega arith)

  pub overlay-IsSlotted : IsSlotted b'
  overlay-IsSlotted = record {
    room = omega (arith, item_count-overlay, heap_end-overlay, v.room);
    heap_inside = omega (arith, heap_end-overlay, v.heap_inside);
    above = λ i h.
        omega
          (arith, heap_end-overlay, same_offset i, v.above i (omega (arith, item_count-overlay)));
    inside = λ i h.
        omega (arith, same_size i, same_offset i, v.inside i (omega (arith, item_count-overlay)));
    used = rw item_count-overlay (
        omega (
          arith,
          heap_end-overlay,
          total-cong (record_size b') (record_size b) (item_count b) (λ k h. same_size k),
          v.used,
        ));
    apart = λ i j h k n.
        rw (same_offset i, same_size i, same_offset j, same_size j)
          (v.apart i j (omega (arith, item_count-overlay)) (omega (arith, item_count-overlay)) n);
  }

  pub get_record-overlay : (i : ℕ) → get_record b' i ≡ get_record b i
  get_record-overlay i = elim (dec_lt i (item_count b)) [
    | yes h ↦
        let same_bytes : record_at b' i ≡ record_at b i =
          rw (same_offset i, same_size i)
            (slice-overlay_apart b off bytes (record_offset b i) (record_size b i)
              (inr (omega (arith, v.above i h, v.room)))) in
        get_record_lem overlay-IsSlotted i (omega (arith, item_count-overlay))
        ∙ ap (λ r. done (some r)) same_bytes
        ∙ sym (get_record_lem v i h)
    | no h ↦
        get_record_beyond b' i (omega (arith, item_count-overlay))
        ∙ sym (get_record_beyond b i (omega arith))
  ]
