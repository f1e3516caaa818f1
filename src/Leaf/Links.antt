-- ===== src/Leaf/Links.antt =====
-- crates/storage/src/btree/leaf_node_view.rs: what a change of a link does to the leaf.
use rarm_db.Base.{
  ℕ, ◌+◌, ◌^◌, ◌<◌, ◌≤◌, ◌≡◌, refl, sym, ap, eq→==, ne→==, ◌∙◌, Option, arith, ◌⊎◌, length, done,
  from_le_bytes, to_le_bytes, length-to_le_bytes, from_le_bytes-to_le_bytes_4,
}
use native.Mathlib.Decide.{ℕ_discrete}
use rarm_db.Page.{invalid_page_index, next_sibling_offset, prev_sibling_offset}
use rarm_db.Page.Buffer.{overlay, u32_at}
use rarm_db.Page.Buffer.Laws.{slice-overlay_apart, slice-overlay_self}
use rarm_db.Page.Slotted.{get_record, get_page_header_u32_value, set_page_header_u32_value}
use rarm_db.Page.Shape.{IsSlotted, item_count, write_slice_inside, read_slice_inside}
use rarm_db.Page.Header.{item_count-overlay, overlay-IsSlotted, get_record-overlay}
use rarm_db.Leaf.{
  LeafNodeView, link_of, word_of, get_next_leaf_index, get_prev_leaf_index, set_next_leaf_index,
  set_prev_leaf_index,
}

-- The leaf with the word `v` at `off`.
abbrev pub linked : LeafNodeView → ℕ → ℕ → LeafNodeView
linked l off v = record l { page_view = overlay l.page_view off (to_le_bytes 4 v) }

pub set_next_leaf_index_lem :
    (l : LeafNodeView) (link : Option ℕ)
    → set_next_leaf_index l link ≡ done (linked l next_sibling_offset (word_of link))
unfolding set_next_leaf_index set_page_header_u32_value
set_next_leaf_index_lem l link = rw (
    write_slice_inside l.page_view next_sibling_offset 4 (to_le_bytes 4 (word_of link))
      (omega arith) (length-to_le_bytes 4 (word_of link)))

pub set_prev_leaf_index_lem :
    (l : LeafNodeView) (link : Option ℕ)
    → set_prev_leaf_index l link ≡ done (linked l prev_sibling_offset (word_of link))
unfolding set_prev_leaf_index set_page_header_u32_value
set_prev_leaf_index_lem l link = rw (
    write_slice_inside l.page_view prev_sibling_offset 4 (to_le_bytes 4 (word_of link))
      (omega arith) (length-to_le_bytes 4 (word_of link)))

pub get_next_leaf_index_lem :
    (l : LeafNodeView)
    → get_next_leaf_index l ≡ done (link_of (u32_at l.page_view next_sibling_offset))
unfolding get_next_leaf_index get_page_header_u32_value u32_at
get_next_leaf_index_lem l = rw (read_slice_inside l.page_view next_sibling_offset 4 (omega arith))

pub get_prev_leaf_index_lem :
    (l : LeafNodeView)
    → get_prev_leaf_index l ≡ done (link_of (u32_at l.page_view prev_sibling_offset))
unfolding get_prev_leaf_index get_page_header_u32_value u32_at
get_prev_leaf_index_lem l = rw (read_slice_inside l.page_view prev_sibling_offset 4 (omega arith))

-- A word that was written is read back, and a word apart from it stays.
pub u32_at-linked_self :
    (l : LeafNodeView) (off v : ℕ) → v < 2 ^ 32 → u32_at (linked l off v).page_view off ≡ v
unfolding u32_at
u32_at-linked_self l off v h =
    ap from_le_bytes
      (rw (length-to_le_bytes 4 v) at (slice-overlay_self l.page_view off (to_le_bytes 4 v)))
    ∙ from_le_bytes-to_le_bytes_4 v h

pub u32_at-linked_apart :
    (l : LeafNodeView) (off v p : ℕ)
    → (p + 4 ≤ off) ⊎ (off + 4 ≤ p)
    → u32_at (linked l off v).page_view p ≡ u32_at l.page_view p
unfolding u32_at
u32_at-linked_apart l off v p h = ap from_le_bytes (
    slice-overlay_apart l.page_view off (to_le_bytes 4 v) p 4
      (omega (arith, length-to_le_bytes 4 v)))

-- A link that was read is written as the word it was read from.
pub word_of-link_of : (v : ℕ) → word_of (link_of v) ≡ v
word_of-link_of v = elim (ℕ_discrete v invalid_page_index) [
  | yes e ↦ rw (eq→== v invalid_page_index e) (sym e)
  | no n ↦ rw (ne→== v invalid_page_index n)
]

-- What a change of a link leaves: the place, the records and the shape of the page.
pub record Relinks (l l' : LeafNodeView) : Type 0 where
  pub same_page : l'.page_id ≡ l.page_id
  pub well_formed : IsSlotted l'.page_view
  pub same_count : item_count l'.page_view ≡ item_count l.page_view
  pub same_records : (i : ℕ) → get_record l'.page_view i ≡ get_record l.page_view i

pub linked-Relinks :
    (l : LeafNodeView) (off v : ℕ)
    → IsSlotted l.page_view
    → off + 4 ≤ 20
    → Relinks l (linked l off v)
linked-Relinks l off v w h =
    let fits : off + length (to_le_bytes 4 v) ≤ 20 = omega (arith, length-to_le_bytes 4 v) in
    record {
      same_page = refl;
      well_formed = overlay-IsSlotted l.page_view w off (to_le_bytes 4 v) fits;
      same_count = item_count-overlay l.page_view w off (to_le_bytes 4 v) fits;
      same_records = get_record-overlay l.page_view w off (to_le_bytes 4 v) fits;
    }
