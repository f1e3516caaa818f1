-- ===== src/Page/Compact/Refines.antt =====
-- `compact` keeps the records and leaves no space between them.
use native.Mathlib.Decide.{dec_lt, ℕ_discrete}
use native.Mathlib.Nat.{mod-eq_of_lt}
use rarm_db.Base.{
  ℕ, suc, ◌+◌, ◌-◌, ◌*◌, ◌≤◌, ◌<◌, ◌≡◌, ◌≢◌, refl, ap, sym, ◌∙◌, [], arith, ◌⊎◌, inl, inr, done,
  Returns, checked_sub_le, ne→==, eq→==,
}
use rarm_db.Page.{page_size, slot_size, page_header_size, item_count_offset, data_heap_end_offset}
use rarm_db.Page.Buffer.{Buffer, slice, zeroed, u16_at}
use rarm_db.Page.Buffer.Laws.{
  put_u16, slice-zeroed_apart, u16_at-zeroed_apart, slice-put_u16_apart, u16_at-put_u16_apart,
  u16_at-put_u16_self,
}
use rarm_db.Page.Total.{total, total_mono, total-cong}
use rarm_db.Page.Slotted.{
  slot_offset, compact, collect_records, get_record, get_free_space, get_free_space_contiguous,
  write_records,
}
use rarm_db.Page.Shape.{
  item_count, heap_end, record_offset, record_size, IsSlotted, Apart, get_item_count_lem,
  get_free_space_lem, get_free_space_contiguous_lem, get_record_lem, get_record_beyond,
  set_page_header_u16_value_lem, fill_zero_inside,
}
use rarm_db.Page.Compact.{block, collect_records-block}
use rarm_db.Page.Compact.Rewrite.{
  stacked, IsStacked, IsStacked-start, stack_room, write_records-IsStacked,
}

-- `b'` shows the same records as `b`, under the same links, and all its free space is contiguous:
-- as much as `b` has in all.
abbrev pub Compacted : Buffer → Buffer → Type 0
Compacted b b' =
    (item_count b' ≡ item_count b)
    × ((j : ℕ) → get_record b' j ≡ get_record b j)
    × ((p m : ℕ) → p + m ≤ item_count_offset → slice b' p m ≡ slice b p m)
    × (get_free_space b' ≡ get_free_space b)
    × (get_free_space_contiguous b' ≡ get_free_space b)

module _ (b : Buffer) (v : IsSlotted b) where
  abbrev n : ℕ
  n = item_count b

  abbrev sum : ℕ
  sum = total (record_size b) n

  abbrev free : ℕ
  free = page_size - (page_header_size + n * slot_size + sum)

  -- The last two steps: the free space is cleared, and the heap's end is set.
  abbrev finished : Buffer → Buffer
  finished c =
      put_u16 (zeroed c (page_header_size + n * slot_size) free) data_heap_end_offset
        (page_size - sum)

  module _ (c : Buffer) (s : IsStacked b c n) where
    b' : Buffer
    b' = finished c

    z : Buffer
    z = zeroed c (page_header_size + n * slot_size) free

    room : page_header_size + n * slot_size + sum ≤ page_size
    room = stack_room b v

    new_heap : heap_end (finished c) ≡ page_size - sum
    new_heap =
        u16_at-put_u16_self (zeroed c (page_header_size + n * slot_size) free) data_heap_end_offset
          (page_size - sum) data_heap_end_offset refl (omega arith)

    low_word :
        (p : ℕ)
        → (p + 2 ≤ data_heap_end_offset) ⊎ (data_heap_end_offset + 2 ≤ p)
        → p + 2 ≤ slot_offset n
        → u16_at (finished c) p ≡ u16_at c p
    low_word p h k =
        u16_at-put_u16_apart (zeroed c (page_header_size + n * slot_size) free) data_heap_end_offset
          (page_size - sum) p h
        ∙ u16_at-zeroed_apart c (page_header_size + n * slot_size) free p (inl k)

    kept_slice :
        (p m : ℕ)
        → (p + m ≤ data_heap_end_offset) ⊎ (page_size - sum ≤ p)
        → slice (finished c) p m ≡ slice c p m
    kept_slice p m h =
        slice-put_u16_apart (zeroed c (page_header_size + n * slot_size) free) data_heap_end_offset
          (page_size - sum) p m (omega (arith, stack_room b v))
        ∙ slice-zeroed_apart c (page_header_size + n * slot_size) free p m
            (omega (arith, stack_room b v))

    new_count : item_count (finished c) ≡ n
    new_count = low_word item_count_offset (omega arith) (omega arith) ∙ s.same_count

    new_offset : (j : ℕ) → j < n → record_offset (finished c) j ≡ stacked b j
    new_offset j h = low_word (slot_offset j) (omega arith) (omega arith) ∙ s.new_offset j h

    new_size : (j : ℕ) → j < n → record_size (finished c) j ≡ record_size b j
    new_size j h = low_word (slot_offset j + 2) (omega arith) (omega arith) ∙ s.same_size j h

    -- The place of record `j`, between those of its neighbours.
    place :
        (j : ℕ)
        → j < n
        → (page_size - sum ≤ stacked b j)
          × (stacked b j + record_size b j ≡ page_size - total (record_size b) j)
    place j h = omega (arith, stack_room b v, total_mono (record_size b) (suc j) n h)

    place_below : (i j : ℕ) → i < j → j < n → stacked b j + record_size b j ≤ stacked b i
    place_below i j h k = omega (arith, place j k, total_mono (record_size b) (suc i) j h)

    apart' :
        (i j : ℕ)
        → i < n
        → j < n
        → i ≢ j
        → Apart
            (record_offset (finished c) i)
            (record_size (finished c) i)
            (record_offset (finished c) j)
            (record_size (finished c) j)
    apart' i j h k ne =
        rw (new_offset i h, new_offset j k, new_size i h, new_size j k)
          (elim (dec_lt i j) [
            | yes l ↦ inr (place_below i j l k)
            | no l ↦ inl (place_below j i (omega arith) h)
          ])

    same_total : total (record_size (finished c)) n ≡ sum
    same_total = total-cong (record_size (finished c)) (record_size b) n new_size

    finished-IsSlotted : IsSlotted (finished c)
    finished-IsSlotted = record {
      room = omega (arith, new_count, new_heap, stack_room b v);
      heap_inside = omega (arith, new_heap);
      above = λ j h.
          let h' : j < n = omega (arith, new_count) in
          omega (arith, new_heap, new_offset j h', place j h');
      inside = λ j h.
          let h' : j < n = omega (arith, new_count) in
          omega (arith, new_offset j h', new_size j h', place j h');
      used = rw (new_count, new_heap, same_total) (omega (arith, stack_room b v));
      apart = λ i j h k ne. apart' i j (omega (arith, new_count)) (omega (arith, new_count)) ne;
    }

    read_same : (j : ℕ) → get_record (finished c) j ≡ get_record b j
    read_same j = elim (dec_lt j n) [
      | yes h ↦ rw (
        get_record_lem finished-IsSlotted j (omega (arith, new_count)),
        get_record_lem v j h,
        new_offset j h,
        new_size j h,
        kept_slice (stacked b j) (record_size b j) (inr (place j h).0),
        s.new_bytes j h,
      )
      | no h ↦ rw (
        get_record_beyond b j (omega arith),
        get_record_beyond (finished c) j (omega (arith, new_count)),
      )
    ]

    finished-Compacted : Compacted b (finished c)
    finished-Compacted = (
      new_count,
      read_same,
      λ p m h. kept_slice p m (omega arith) ∙ s.same_header p m h,
      rw (get_free_space_lem finished-IsSlotted, get_free_space_lem v, new_count, same_total),
      rw
          (
            get_free_space_contiguous_lem (finished c) finished-IsSlotted.heap_inside
                finished-IsSlotted.room,
            get_free_space_lem v,
            new_count,
            new_heap,
          )
          (ap done (omega (arith, stack_room b v))),
    )

  collected : collect_records n b 0 [] ≡ done (block b n)
  unfolding block
  collected = collect_records-block b v n 0 (omega arith)

  compact_fragmented :
      (c : Buffer)
      → heap_end b - (page_header_size + n * slot_size) ≢ free
      → write_records n b 0 page_size 0 (block b n) ≡ done (c, page_size - sum)
      → compact b ≡ done (finished c)
  unfolding compact
  compact_fragmented c ne loop =
      rw
        (
          get_free_space_lem v,
          get_free_space_contiguous_lem b v.heap_inside v.room,
          ne→== free (heap_end b - (page_header_size + n * slot_size)) (λ e. ne (sym e)),
          get_item_count_lem b,
          checked_sub_le (page_size - page_header_size) (n * slot_size)
              (omega (arith, stack_room b v)),
          checked_sub_le (page_size - page_header_size - n * slot_size) free
              (omega (arith, stack_room b v)),
          collected,
          loop,
          fill_zero_inside c (page_header_size + n * slot_size) free
              (omega (arith, stack_room b v)),
          mod-eq_of_lt {n = page_size - sum} {m = 65536} (omega arith),
        )
        (set_page_header_u16_value_lem (zeroed c (page_header_size + n * slot_size) free)
          data_heap_end_offset (page_size - sum) (omega arith))

  fragmented :
      heap_end b - (page_header_size + n * slot_size) ≢ free
      → Returns (compact b) (λ b'. IsSlotted b' × Compacted b b')
  fragmented ne =
      done_with (
        write_records-IsStacked b v n b 0 page_size (omega arith) (IsStacked-start b) (omega arith))
    where
      done_with :
          Returns
            (write_records n b 0 page_size 0 (block b n))
            (λ r. IsStacked b r.0 n × (r.1 + sum ≡ page_size))
          → Returns (compact b) (λ b'. IsSlotted b' × Compacted b b')
      done_with ((c, heap), loop, p) =
          let heap_is : heap ≡ page_size - sum = omega (arith, p.1) in
          (
            finished c,
            compact_fragmented c ne (loop ∙ ap (λ t. done (c, t)) heap_is),
            (finished-IsSlotted c p.0, finished-Compacted c p.0),
          )

  compact_whole : heap_end b - (page_header_size + n * slot_size) ≡ free → compact b ≡ done b
  unfolding compact
  compact_whole e = rw (
    get_free_space_lem v,
    get_free_space_contiguous_lem b v.heap_inside v.room,
    eq→== free (heap_end b - (page_header_size + n * slot_size)) (sym e),
  )

-- On a well formed page `compact` never panics: the page stays well formed and shows the same
-- records in the same slots, the links in the header stay, and all the free space that the page
-- had is one contiguous block.
pub compact-Compacted :
    (b : Buffer) → IsSlotted b → Returns (compact b) (λ b'. IsSlotted b' × Compacted b b')
compact-Compacted b v =
    elim (ℕ_discrete (heap_end b - (page_header_size + item_count b * slot_size)) (free b v)) [
      | yes e ↦ (
        b,
        compact_whole b v e,
        (
          v,
          (
            refl,
            λ j. refl,
            λ p m h. refl,
            refl,
            get_free_space_contiguous_lem b v.heap_inside v.room
                ∙ ap done e
                ∙ sym (get_free_space_lem v),
          ),
        ),
      )
      | no ne ↦ fragmented b v ne
    ]
