-- ===== src/Page/Init.antt =====
-- `initialize`: the page that it leaves is an empty slotted page, and which header words survive.
use rarm_db.Base.{
  ℕ, ◌+◌, ◌*◌, ◌≡◌, refl, ap, ◌%◌, ◌^◌, [], ◌∷◌, Option, some, arith, done, ◌>>=◌, to_le_bytes,
  from_le_bytes,
}
use rarm_db.Page.{
  page_size, item_count_offset, data_heap_end_offset, PageType, page_type_code, page_type_from,
  invalid_page_index, page_type_offset, parent_index_offset, next_sibling_offset,
  prev_sibling_offset,
}
use rarm_db.Page.Buffer.{Buffer, slice, overlay, zeroed, read_slice, write_slice, fill_zero, u16_at}
use rarm_db.Page.Slotted.{
  initialize, parent_or_max, get_page_type, set_page_header_u16_value, set_page_header_u32_value,
  set_page_header_u64_value, get_page_header_u32_value, get_page_header_u64_value,
}
use rarm_db.Page.Shape.{item_count, heap_end, IsSlotted}

unfoldable pub initialized : Buffer → PageType → Option ℕ → Buffer
initialized b page_type parent =
    overlay
      (overlay
        (overlay
          (overlay
            (overlay
              (overlay
                (overlay (zeroed b 0 page_size) page_type_offset (page_type_code page_type ∷ []))
                item_count_offset (to_le_bytes 2 0))
              parent_index_offset (to_le_bytes 8 (parent_or_max parent)))
            prev_sibling_offset (to_le_bytes 4 invalid_page_index))
          next_sibling_offset (to_le_bytes 4 invalid_page_index))
        prev_sibling_offset (to_le_bytes 4 invalid_page_index))
      data_heap_end_offset (to_le_bytes 2 page_size)

pub initialize-initialized :
    (b : Buffer) (t : PageType) (parent : Option ℕ)
    → initialize b t parent ≡ done (initialized b t parent)
unfolding initialize initialized set_page_header_u16_value set_page_header_u32_value
    set_page_header_u64_value write_slice fill_zero to_le_bytes
initialize-initialized b t parent = refl

pub initialized_words :
    (b : Buffer) (t : PageType) (parent : Option ℕ)
    → (item_count (initialized b t parent) ≡ 0) × (heap_end (initialized b t parent) ≡ page_size)
unfolding initialized u16_at slice overlay zeroed to_le_bytes from_le_bytes
initialized_words b t parent = (refl, refl)

page_type_round_trip : (t : PageType) → page_type_from (page_type_code t + 256 * 0) ≡ t
page_type_round_trip PageType.invalid = refl
page_type_round_trip PageType.leaf_node = refl
page_type_round_trip PageType.internal_node = refl
page_type_round_trip PageType.table_header = refl

initialized_type :
    (b : Buffer) (t : PageType) (parent : Option ℕ)
    → get_page_type (initialized b t parent) ≡ done t
unfolding get_page_type read_slice initialized slice overlay zeroed to_le_bytes from_le_bytes
initialized_type b t parent = ap done (page_type_round_trip t)

initialized_next :
    (b : Buffer) (t : PageType) (parent : Option ℕ)
    → get_page_header_u32_value (initialized b t parent) next_sibling_offset
      ≡ done invalid_page_index
unfolding get_page_header_u32_value read_slice initialized slice overlay zeroed to_le_bytes
    from_le_bytes
initialized_next b t parent = refl

initialized_prev :
    (b : Buffer) (t : PageType) (parent : Option ℕ)
    → get_page_header_u32_value (initialized b t parent) prev_sibling_offset
      ≡ done invalid_page_index
unfolding get_page_header_u32_value read_slice initialized slice overlay zeroed to_le_bytes
    from_le_bytes
initialized_prev b t parent = refl

pub initialized-IsSlotted :
    (b : Buffer) (t : PageType) (parent : Option ℕ) → IsSlotted (initialized b t parent)
initialized-IsSlotted b t parent =
    let (no_items, whole) = initialized_words b t parent in
    record {
      room = omega arith;
      heap_inside = omega arith;
      above = λ i h. absurd (omega arith);
      inside = λ i h. absurd (omega arith);
      used = rw (no_items, whole) (omega arith);
      apart = λ i j h. absurd (omega arith);
    }

-- The state after `initialize`: a slotted page with no record, whose contiguous free space is all
-- but the header, with the page type that was given and no sibling on either side.
pub initialize-IsSlotted :
    (b : Buffer) (t : PageType) (parent : Option ℕ)
    → (b' : Buffer) × (initialize b t parent ≡ done b')
      × IsSlotted b'
      × (item_count b' ≡ 0)
      × (heap_end b' ≡ page_size)
      × (get_page_type b' ≡ done t)
      × (get_page_header_u32_value b' next_sibling_offset ≡ done invalid_page_index)
      × (get_page_header_u32_value b' prev_sibling_offset ≡ done invalid_page_index)
initialize-IsSlotted b t parent =
    let (no_items, whole) = initialized_words b t parent in
    (
      initialized b t parent,
      initialize-initialized b t parent,
      initialized-IsSlotted b t parent,
      no_items,
      whole,
      initialized_type b t parent,
      initialized_next b t parent,
      initialized_prev b t parent,
    )

-- The parent of a page is a word of eight bytes at offset 8, and the link at offset 12 is written
-- after it: only the lower half of the parent's index is read back, under an upper half of ones.
pub get_parent-initialize :
    (b : Buffer) (t : PageType) (parent : ℕ)
    → (initialize b t (some parent) >>= λ b'. get_page_header_u64_value b' parent_index_offset)
      ≡ done (parent % 2 ^ 32 + 2 ^ 32 * invalid_page_index)
unfolding get_page_header_u64_value read_slice initialized slice overlay zeroed to_le_bytes
    from_le_bytes
get_parent-initialize b t parent =
    rw (initialize-initialized b t (some parent)) (ap done (omega arith))
