-- ===== src/Page/Compact/Rewrite.antt =====
-- The second loop of `compact`: the records are stacked from the end of the page down, in the
-- order of their slots.
use native.Mathlib.Decide.{ℕ_discrete}
use native.Mathlib.Nat.{mod-eq_of_lt}
use rarm_db.Base.{
  ℕ, zero, suc, ◌+◌, ◌-◌, ◌*◌, ◌≤◌, ◌<◌, ◌≡◌, refl, ◌∙◌, arith, length, ◌⊎◌, inl, Returns,
  checked_sub_le, subst,
}
use rarm_db.Page.{page_size, slot_size, page_header_size, item_count_offset}
use rarm_db.Page.Buffer.{Buffer, slice, overlay, u16_at}
use rarm_db.Page.Buffer.Laws.{
  slice-overlay_apart, slice-overlay_self, u16_at-overlay_apart, length-slice,
}
use rarm_db.Page.Total.{total, total_mono}
use rarm_db.Page.Slot.{reslot, reslot_offset, reslot_size, reslot_word, slice-reslot}
use rarm_db.Page.Slotted.{slot_offset, write_records}
use rarm_db.Page.Shape.{
  item_count, record_offset, record_size, record_at, IsSlotted, get_slot_lem, set_slot_lem,
  write_slice_inside,
}
use rarm_db.Page.Compact.{block, sub_vec-block}

-- Where the record at slot `j` of `b` goes.
abbrev pub stacked : Buffer → ℕ → ℕ
stacked b j = page_size - total (record_size b) (suc j)

-- Buffer `c` in the loop on `b`, with the records before slot `i` stacked.
pub record IsStacked (b c : Buffer) (i : ℕ) : Type 0 where
  pub same_count : item_count c ≡ item_count b
  pub new_offset : (j : ℕ) → j < i → record_offset c j ≡ stacked b j
  pub same_size : (j : ℕ) → j < item_count b → record_size c j ≡ record_size b j
  pub new_bytes : (j : ℕ) → j < i → slice c (stacked b j) (record_size b j) ≡ record_at b j
  pub same_header : (p m : ℕ) → p + m ≤ item_count_offset → slice c p m ≡ slice b p m

pub IsStacked-start : (b : Buffer) → IsStacked b b 0
IsStacked-start b = record {
  same_count = refl;
  new_offset = λ j h. absurd (omega arith);
  same_size = λ j h. refl;
  new_bytes = λ j h. absurd (omega arith);
  same_header = λ p m h. refl;
}

module _ (b : Buffer) (v : IsSlotted b) where
  -- All records fit between the slot array and the end of the page.
  pub stack_room :
      page_header_size + item_count b * slot_size + total (record_size b) (item_count b) ≤ page_size
  stack_room = omega (arith, v.room, v.used)

  -- One round: the buffer after record `i` went to its place.
  abbrev stack_one : Buffer → ℕ → Buffer
  stack_one c i = reslot (overlay c (stacked b i) (record_at b i)) i (stacked b i) (record_size b i)

  module _ (c : Buffer) (i : ℕ) (s : IsStacked b c i) (i_fits : i < item_count b) where
    data_size : length (record_at b i) ≡ record_size b i
    data_size = length-slice b (record_offset b i) (record_size b i)

    low : page_header_size + item_count b * slot_size ≤ stacked b i
    low = omega (arith, stack_room, total_mono (record_size b) (suc i) (item_count b) i_fits)

    whole : total (record_size b) (suc i) ≤ page_size
    whole = omega (arith, stack_room, total_mono (record_size b) (suc i) (item_count b) i_fits)

    d : Buffer
    d = overlay c (stacked b i) (record_at b i)

    word :
        (p : ℕ)
        → (p + 2 ≤ slot_offset i) ⊎ (slot_offset i + 4 ≤ p)
        → p + 2 ≤ stacked b i
        → u16_at (stack_one c i) p ≡ u16_at c p
    word p h k =
        reslot_word (overlay c (stacked b i) (record_at b i)) i (stacked b i) (record_size b i) p h
        ∙ u16_at-overlay_apart c (stacked b i) (record_at b i) p (inl k)

    old_slice :
        (p m : ℕ)
        → (p + m ≤ slot_offset i) ⊎ (slot_offset i + 4 ≤ p)
        → (p + m ≤ stacked b i) ⊎ (stacked b i + record_size b i ≤ p)
        → slice (stack_one c i) p m ≡ slice c p m
    old_slice p m h k =
        slice-reslot (overlay c (stacked b i) (record_at b i)) i (stacked b i) (record_size b i) p m
          h
        ∙ slice-overlay_apart c (stacked b i) (record_at b i) p m (omega (arith, data_size))

    this_offset : record_offset (stack_one c i) i ≡ stacked b i
    this_offset =
        reslot_offset (overlay c (stacked b i) (record_at b i)) i (stacked b i) (record_size b i)
          (omega arith)

    this_size : record_size (stack_one c i) i ≡ record_size b i
    this_size =
        reslot_size (overlay c (stacked b i) (record_at b i)) i (stacked b i) (record_size b i)
          (omega (arith, whole))

    this_bytes : slice (stack_one c i) (stacked b i) (record_size b i) ≡ record_at b i
    this_bytes =
        slice-reslot (overlay c (stacked b i) (record_at b i)) i (stacked b i) (record_size b i)
          (stacked b i) (record_size b i) (omega (arith, low))
        ∙ (rw data_size at (slice-overlay_self c (stacked b i) (record_at b i)))

    IsStacked-suc : IsStacked b (stack_one c i) (suc i)
    IsStacked-suc = record {
      same_count = word item_count_offset (omega arith) (omega (arith, low)) ∙ s.same_count;
      new_offset = λ j h. elim (ℕ_discrete j i) [
        | yes e ↦ rw e this_offset
        | no ne ↦
            word (slot_offset j) (omega arith) (omega (arith, low)) ∙ s.new_offset j (omega arith)
      ];
      same_size = λ j h. elim (ℕ_discrete j i) [
        | yes e ↦ rw e this_size
        | no ne ↦ word (slot_offset j + 2) (omega arith) (omega (arith, low)) ∙ s.same_size j h
      ];
      new_bytes = λ j h. elim (ℕ_discrete j i) [
        | yes e ↦ rw e this_bytes
        | no ne ↦
            old_slice (stacked b j) (record_size b j)
              (omega (arith, low, total_mono (record_size b) (suc j) i (omega arith)))
              (omega (arith, whole, total_mono (record_size b) (suc j) i (omega arith)))
            ∙ s.new_bytes j (omega arith)
      ];
      same_header = λ p m h. old_slice p m (omega arith) (omega (arith, low)) ∙ s.same_header p m h;
    }

  -- The loop ends, with every record stacked and the heap at their sum below the page's end.
  pub write_records-IsStacked :
      (rounds : ℕ) (c : Buffer) (i heap : ℕ)
      → i + rounds ≡ item_count b
      → IsStacked b c i
      → heap + total (record_size b) i ≡ page_size
      → Returns
          (write_records rounds c i heap (total (record_size b) i) (block b (item_count b)))
          (λ r.
            IsStacked b r.0 (item_count b)
            × (r.1 + total (record_size b) (item_count b) ≡ page_size))
  unfolding write_records
  write_records-IsStacked zero c i heap e s h =
      let e' : i ≡ item_count b = omega arith in
      ((c, heap), refl, (subst (IsStacked b c) e' s, rw e' at h))
  write_records-IsStacked (suc rounds) c i heap e s h =
      let i_fits : i < item_count b = omega arith in
      let fits = total_mono (record_size b) (suc i) (item_count b) i_fits in
      let lower : heap - record_size b i ≡ stacked b i = omega (arith, stack_room) in
      let next : i + 1 ≡ suc i = omega arith in
      rw
        (
          get_slot_lem c i (omega (arith, stack_room)),
          s.same_size i i_fits,
          sub_vec-block b i (item_count b) i_fits,
          checked_sub_le heap (record_size b i) (omega (arith, stack_room)),
          lower,
          write_slice_inside c (stacked b i) (record_size b i) (record_at b i)
              (omega (arith, stack_room)) (length-slice b (record_offset b i) (record_size b i)),
          mod-eq_of_lt {n = stacked b i} {m = 65536} (omega arith),
          mod-eq_of_lt {n = record_size b i} {m = 65536} (omega (arith, stack_room)),
          set_slot_lem (overlay c (stacked b i) (record_at b i)) i (stacked b i) (record_size b i)
              (omega (arith, stack_room)),
          next,
        )
        (write_records-IsStacked rounds (stack_one c i) (suc i) (stacked b i) (omega arith)
          (IsStacked-suc c i s i_fits) (omega (arith, stack_room)))
