-- ===== src/Leaf/Ops/Merging/Relinks.antt =====
-- The whole of `merge`: the copied records, then the links, then the right leaf emptied.
use rarm_db.Base.{
  ℕ, ◌+◌, ◌-◌, ◌*◌, ◌^◌, ◌<◌, ◌≡◌, refl, ap, sym, ◌∙◌, Option, some, none, arith, inl, inr,
  from_le_bytes, done, Returns, checked_sub_le, lt→ltb, le→ltb,
}
use native.Mathlib.Decide.{dec_lt}
use rarm_db.Page.{
  page_size, page_header_size, slot_size, item_count_offset, next_sibling_offset,
  prev_sibling_offset, PageType, StorageError, Result, ok, err,
}
use rarm_db.Page.Buffer.{Buffer, u32_at}
use rarm_db.Page.Total.{total}
use rarm_db.Page.Slotted.{get_record, get_page_type}
use rarm_db.Page.Shape.{
  IsSlotted, item_count, heap_end, record_size, get_free_space_lem, get_page_header_u16_value_lem,
  get_free_space_contiguous_lem,
}
use rarm_db.Page.Init.{initialize-IsSlotted}
use rarm_db.Leaf.{
  LeafNodeView, link_of, word_of, get_item_count, get_next_leaf_index, get_prev_leaf_index,
}
use rarm_db.Leaf.Links.{
  Relinks, linked, linked-Relinks, set_next_leaf_index_lem, set_prev_leaf_index_lem,
  get_next_leaf_index_lem, get_prev_leaf_index_lem, u32_at-linked_self, u32_at-linked_apart,
  word_of-link_of,
}
use rarm_db.Leaf.Ops.{Merge, merge, relink, set_prev_of}
use rarm_db.Leaf.Ops.Merging.{Joins, append_records-Joins}

-- The bytes that the slots and the records of a page take.
abbrev pub taken : Buffer → ℕ
taken b = item_count b * slot_size + total (record_size b) (item_count b)

-- The leaf after the right sibling, if there is one, names `page_index` as the leaf before it.
abbrev pub Follows : ℕ → Option LeafNodeView → Option LeafNodeView → Type 0
Follows page_index none none = Unit
Follows page_index (some l) (some l') =
    (get_prev_leaf_index l' ≡ done (link_of page_index))
    × (get_next_leaf_index l' ≡ get_next_leaf_index l)
    × Relinks l l'
Follows page_index none (some l') = ⊥
Follows page_index (some l) none = ⊥

pub record Merged (m m' : Merge) : Type 0 where
  pub same_page : m'.left.page_id ≡ m.left.page_id
  pub well_formed : IsSlotted m'.left.page_view
  pub count :
      item_count m'.left.page_view ≡ item_count m.left.page_view + item_count m.right.page_view
  pub own :
      (j : ℕ)
      → j < item_count m.left.page_view
      → get_record m'.left.page_view j ≡ get_record m.left.page_view j
  pub joined :
      (i j : ℕ)
      → j < item_count m.right.page_view
      → i ≡ item_count m.left.page_view + j
      → get_record m'.left.page_view i ≡ get_record m.right.page_view j
  pub next : get_next_leaf_index m'.left ≡ get_next_leaf_index m.right
  pub prev : get_prev_leaf_index m'.left ≡ get_prev_leaf_index m.left
  pub follows : Follows m.left.page_id.page_index m.right_next m'.right_next
  pub right_page : m'.right.page_id ≡ m.right.page_id
  pub right_well_formed : IsSlotted m'.right.page_view
  pub right_empty : item_count m'.right.page_view ≡ 0
  pub right_type : get_page_type m'.right.page_view ≡ done PageType.invalid

abbrev pub MergeSpec : Merge → Merge × Result (Unit {0}) → Type 0
MergeSpec m (m', ok u) = Merged m m'
MergeSpec m (m', err e) =
    (m' ≡ m)
    × (e ≡ StorageError.insufficient_space_for_merge)
    × (heap_end m.left.page_view
        < page_header_size + item_count m.left.page_view * slot_size + taken m.right.page_view)

-- What `merge` needs of its leaves: pages in good order and links of 32 bits.
pub record Ready (m : Merge) : Type 0 where
  pub left_well_formed : IsSlotted m.left.page_view
  pub right_well_formed : IsSlotted m.right.page_view
  pub next_well_formed : (l : LeafNodeView) → m.right_next ≡ some l → IsSlotted l.page_view
  pub next_word : u32_at m.right.page_view next_sibling_offset < 2 ^ 32
  pub page_word : m.left.page_id.page_index < 2 ^ 32

pub set_prev_of-Follows :
    (o : Option LeafNodeView) (page_index : ℕ)
    → ((l : LeafNodeView) → o ≡ some l → IsSlotted l.page_view)
    → page_index < 2 ^ 32
    → Returns (set_prev_of o page_index) (Follows page_index o)
set_prev_of-Follows none page_index w h = (none, refl, tt)
set_prev_of-Follows (some l) page_index w h =
    let l' = linked l prev_sibling_offset page_index in
    (
      some l',
      rw (set_prev_leaf_index_lem l (some page_index)),
      (
        get_prev_leaf_index_lem l'
            ∙ ap (λ v. done (link_of v)) (u32_at-linked_self l prev_sibling_offset page_index h),
        get_next_leaf_index_lem l'
            ∙ ap (λ v. done (link_of v))
                (u32_at-linked_apart l prev_sibling_offset page_index next_sibling_offset
                  (inr (omega arith)))
            ∙ sym (get_next_leaf_index_lem l),
        linked-Relinks l prev_sibling_offset page_index (w l refl) (omega arith),
      ),
    )

module _ (m : Merge) (r : Ready m) where
  abbrev left : Buffer
  left = m.left.page_view

  abbrev right : Buffer
  right = m.right.page_view

  relink-Merged :
      (l : LeafNodeView)
      → Joins m.left l right 0 (item_count right)
      → Returns (relink (record m { left = l })) (Merged m)
  unfolding relink
  relink-Merged l j =
      let val = u32_at right next_sibling_offset in
      let word = word_of (link_of val) in
      let fits : word < 2 ^ 32 = rw (word_of-link_of val) r.next_word in
      let l1 = linked l next_sibling_offset word in
      let kept = linked-Relinks l next_sibling_offset word j.well_formed (omega arith) in
      let (o, e, f) =
        set_prev_of-Follows m.right_next m.left.page_id.page_index r.next_well_formed r.page_word in
      let same_index = ap (λ i. i.page_index) j.same_page in
      let (p, e', w, z, whole, t, next_link, prev_link) =
        initialize-IsSlotted right PageType.invalid none in
      (
        record {
          left = l1;
          right = record { page_id = m.right.page_id; page_view = p };
          right_next = o;
        },
        rw
            (
              get_next_leaf_index_lem m.right,
              set_next_leaf_index_lem l (link_of val),
              same_index,
              e,
              e',
            )
            refl,
        record {
          same_page = j.same_page;
          well_formed = kept.well_formed;
          count = kept.same_count ∙ j.count;
          own = λ i h. kept.same_records i ∙ j.own i h;
          joined = λ i k h q.
              let at : 0 + k ≡ k = omega arith in
              kept.same_records i ∙ j.joined i k h q ∙ ap (get_record right) at;
          next =
              get_next_leaf_index_lem l1
              ∙ ap (λ v. done (link_of v))
                  (u32_at-linked_self l next_sibling_offset word fits ∙ word_of-link_of val)
              ∙ sym (get_next_leaf_index_lem m.right);
          prev =
              get_prev_leaf_index_lem l1
              ∙ ap (λ v. done (link_of v))
                  (u32_at-linked_apart l next_sibling_offset word prev_sibling_offset
                      (inl (omega arith))
                    ∙ same_prev)
              ∙ sym (get_prev_leaf_index_lem m.left);
          follows = f;
          right_page = refl;
          right_well_formed = w;
          right_empty = z;
          right_type = t;
        },
      )
    where
      same_prev : u32_at l.page_view prev_sibling_offset ≡ u32_at left prev_sibling_offset
      same_prev = unfold u32_at in ap from_le_bytes (j.header prev_sibling_offset 4 (omega arith))

-- For two well formed leaves `merge` never panics and never stops half way: an append that would
-- fail is ruled out by the check of the space. Without contiguous space in the left leaf for the
-- slots and records of the right one it gives `InsufficientSpaceForMerge` and changes nothing.
-- Otherwise the left leaf holds its own records and then those of the right one, its next link is
-- that of the right leaf and its previous link stays; the leaf after the right one, if there is
-- one, has the left leaf as its previous and keeps its records; and the right leaf is an empty page
-- of type `Invalid`.
pub merge-MergeSpec : (m : Merge) → Ready m → Returns (merge m) (MergeSpec m)
unfolding merge get_item_count
merge-MergeSpec m r =
    let left = m.left.page_view in
    let right = m.right.page_view in
    let v = r.left_well_formed in
    let w = r.right_well_formed in
    let free =
      page_size
      - (page_header_size
          + item_count right * slot_size
          + total (record_size right) (item_count right)) in
    let used = page_size - free - page_header_size in
    let contiguous = heap_end left - (page_header_size + item_count left * slot_size) in
    let is_taken : used ≡ taken right = omega (arith, w.used, w.room) in
    elim (dec_lt contiguous used) [
      | yes h ↦ (
        (m, err StorageError.insufficient_space_for_merge),
        rw
            (
              get_free_space_lem w,
              checked_sub_le page_size free (omega arith),
              checked_sub_le (page_size - free) page_header_size (omega (arith, w.used, w.room)),
              get_free_space_contiguous_lem left v.heap_inside v.room,
              lt→ltb contiguous used h,
            )
            refl,
        (refl, refl, omega (arith, is_taken, v.room)),
      )
      | no h ↦
          let (l, e, j) =
            append_records-Joins right w (item_count right) 0 m.left (omega arith) v
              (omega (arith, is_taken, v.room)) in
          let (m', e', p) = relink-Merged m r l j in
          (
            (m', ok tt),
            rw
                (
                  get_free_space_lem w,
                  checked_sub_le page_size free (omega arith),
                  checked_sub_le (page_size - free) page_header_size
                      (omega (arith, w.used, w.room)),
                  get_free_space_contiguous_lem left v.heap_inside v.room,
                  le→ltb contiguous used (omega arith),
                  get_page_header_u16_value_lem right item_count_offset (omega arith),
                  e,
                  e',
                )
                refl,
            p,
          )
    ]
