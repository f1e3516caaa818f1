-- ===== src/Leaf/Split/Distribution.antt =====
-- What `distribute` leaves: the sorted records cut in two, one part on each leaf.
use rarm_db.Base.{
  length-drop, length-take, take_all, ℕ, ◌+◌, ◌-◌, ◌*◌, ◌^◌, ◌≤◌, ◌<◌, ◌≡◌, refl, ap, subst, sym,
  ◌∙◌, List, some, none, length, take, drop, get_elem?, arith, done, le→ltb, from_le_bytes,
}
use rarm_db.Page.{
  page_size, page_header_size, slot_size, next_sibling_offset, prev_sibling_offset,
  parent_index_offset, invalid_page_index, PageType, ok,
}
use rarm_db.Page.Buffer.{Buffer, slice, u32_at}
use rarm_db.Page.Slotted.{
  get_record, initialize, get_page_header_u32_value, get_page_header_u64_value,
}
use rarm_db.Page.Shape.{IsSlotted, item_count, heap_end, read_slice_inside}
use rarm_db.Page.Init.{initialize-IsSlotted}
use rarm_db.Leaf.{LeafNodeView, link_of, get_next_leaf_index, get_prev_leaf_index}
use rarm_db.Leaf.Codec.{Codec}
use rarm_db.Leaf.Links.{Relinks, get_next_leaf_index_lem, get_prev_leaf_index_lem}
use rarm_db.Leaf.Ops.Merging.Relinks.{Follows}
use rarm_db.Leaf.Split.{
  Split, Sorting, find_split_index_by_size, records_between, append_all, link_siblings, parent_of,
  distribute,
}
use rarm_db.Leaf.Split.Index.{sizes, find_split_index_by_size-IsCut}
use rarm_db.Leaf.Split.Appending.{Appends, append_all-Appends}
use rarm_db.Leaf.Split.Siblings.{link_siblings-Linked}

-- The vector's tail, as the source slices it.
records_between-drop :
    (v : List (List ℕ)) (from to : ℕ)
    → from ≤ to
    → length v ≡ to
    → records_between v from to ≡ done (drop from v)
unfolding records_between
records_between-drop v from to h e = rw (
  le→ltb to from h,
  le→ltb (length v) to (omega arith),
  take_all (to - from) (drop from v) (omega (arith, length-drop from v)),
)

-- The leaf holds the records `records` and no others.
abbrev pub Holds : LeafNodeView → List (List ℕ) → Type 0
Holds l records =
    IsSlotted l.page_view
    × (item_count l.page_view ≡ length records)
    × ((j : ℕ) → j < length records → get_record l.page_view j ≡ done (get_elem? records j))

-- `s'` is `s` with the records before `i` on the left leaf, the others on the right leaf, and the
-- right leaf linked in between the left leaf and the one that followed it. The previous link of the
-- left leaf is lost.
pub record Distributed (s s' : Split) (records : List (List ℕ)) (i : ℕ) : Type 0 where
  pub left_page : s'.left.page_id ≡ s.left.page_id
  pub right_page : s'.right.page_id ≡ s.right.page_id
  pub left_records : Holds s'.left (take i records)
  pub right_records : Holds s'.right (drop i records)
  pub left_next : get_next_leaf_index s'.left ≡ done (link_of s.right.page_id.page_index)
  pub left_prev : get_prev_leaf_index s'.left ≡ done none
  pub right_next : get_next_leaf_index s'.right ≡ get_next_leaf_index s.left
  pub right_prev : get_prev_leaf_index s'.right ≡ done (link_of s.left.page_id.page_index)
  pub follows : Follows s.right.page_id.page_index s.orig_right s'.orig_right

-- What a split into the records before `i` and the others needs of its leaves: an empty right leaf,
-- space for both parts, pages in good order and links of 32 bits.
pub record Fits (s : Split) (records : List (List ℕ)) (i : ℕ) : Type 0 where
  pub right_well_formed : IsSlotted s.right.page_view
  pub right_empty : item_count s.right.page_view ≡ 0
  pub orig_well_formed : (l : LeafNodeView) → s.orig_right ≡ some l → IsSlotted l.page_view
  pub left_room : page_header_size + i * slot_size + sizes (take i records) ≤ page_size
  pub right_room :
      page_header_size + (length records - i) * slot_size + sizes (drop i records)
      ≤ heap_end s.right.page_view
  pub left_word : s.left.page_id.page_index < 2 ^ 32
  pub right_word : s.right.page_id.page_index < 2 ^ 32
  pub next_word : u32_at s.left.page_view next_sibling_offset < 2 ^ 32

-- A leaf that was empty before its records were appended, and then relinked.
holds :
    (l l1 l2 : LeafNodeView) (records : List (List ℕ))
    → item_count l.page_view ≡ 0
    → Appends l l1 records
    → Relinks l1 l2
    → Holds l2 records
holds l l1 l2 records e a k = (
  k.well_formed,
  omega (arith, k.same_count, a.count),
  λ j h. k.same_records j ∙ a.appended j j h (omega arith),
)

fresh_prev :
    (l : LeafNodeView)
    → get_page_header_u32_value l.page_view prev_sibling_offset ≡ done invalid_page_index
    → get_prev_leaf_index l ≡ done none
unfolding get_prev_leaf_index
fresh_prev l e = rw e

same_prev :
    (l l1 : LeafNodeView) (records : List (List ℕ))
    → Appends l l1 records
    → get_prev_leaf_index l1 ≡ get_prev_leaf_index l
unfolding u32_at
same_prev l l1 records a =
    get_prev_leaf_index_lem l1
    ∙ ap (λ bytes. done (link_of (from_le_bytes bytes)))
        (a.header prev_sibling_offset 4 (omega arith))
    ∙ sym (get_prev_leaf_index_lem l)

raw_parent : Split → ℕ
raw_parent s = from_le_bytes (slice s.left.page_view parent_index_offset 8)

raw_parent_lem :
    (s : Split)
    → get_page_header_u64_value s.left.page_view parent_index_offset ≡ done (raw_parent s)
unfolding get_page_header_u64_value raw_parent
raw_parent_lem s = rw (read_slice_inside s.left.page_view parent_index_offset 8 (omega arith))

module _ (c : Codec) where
  abbrev pub split_index : Sorting c → ℕ
  split_index sorted = find_split_index_by_size sorted.sorted_records sorted.total_size

  -- The calls that `distribute` makes, one after the other.
  distribute_lem :
      (s s' : Split) (n : ℕ) (sorted : Sorting c) (key : c.Key) (p : Buffer) (l1 r1 : LeafNodeView)
      → get_elem? sorted.sorted_keys (split_index sorted) ≡ some key
      → initialize s.left.page_view PageType.leaf_node (parent_of (raw_parent s)) ≡ done p
      → append_all
          (record { page_id = s.left.page_id; page_view = p })
          (take (split_index sorted) sorted.sorted_records)
        ≡ done (l1, ok tt)
      → records_between sorted.sorted_records (split_index sorted) (n + 1)
        ≡ done (drop (split_index sorted) sorted.sorted_records)
      → append_all s.right (drop (split_index sorted) sorted.sorted_records) ≡ done (r1, ok tt)
      → link_siblings
          (record { left = l1; right = r1; orig_right = s.orig_right })
          (link_of (u32_at s.left.page_view next_sibling_offset))
        ≡ done s'
      → distribute c s n sorted ≡ done (s', ok key)
  unfolding distribute
  distribute_lem s s' n sorted key p l1 r1 e0 e1 e2 e3 e4 e5 =
      rw (e0, raw_parent_lem s, get_next_leaf_index_lem s.left, e1, e2, e3, e4, e5) refl

  pub distribute-Distributed :
      (s : Split) (n : ℕ) (sorted : Sorting c) (key : c.Key)
      → length sorted.sorted_records ≡ n + 1
      → get_elem? sorted.sorted_keys (split_index sorted) ≡ some key
      → Fits s sorted.sorted_records (split_index sorted)
      → (s' : Split) × (distribute c s n sorted ≡ done (s', ok key))
        × Distributed s s' sorted.sorted_records (split_index sorted)
  distribute-Distributed s n sorted key len has_key f =
      let i = split_index sorted in
      let recs = sorted.sorted_records in
      let inside : i ≤ length recs = (find_split_index_by_size-IsCut recs sorted.total_size).0 in
      let next = u32_at s.left.page_view next_sibling_offset in
      let (p, e1, w, z, whole, t, next_link, prev_link) =
        initialize-IsSlotted s.left.page_view PageType.leaf_node (parent_of (raw_parent s)) in
      let l0 : LeafNodeView = record { page_id = s.left.page_id; page_view = p } in
      let (l1, e2, a1) =
        append_all-Appends (take i recs) l0 w
          (omega (arith, z, whole, length-take i recs inside, f.left_room)) in
      let (r1, e3, a2) =
        append_all-Appends (drop i recs) s.right f.right_well_formed
          (omega (arith, f.right_empty, length-drop i recs, f.right_room)) in
      let m : Split = record { left = l1; right = r1; orig_right = s.orig_right } in
      let left_index : l1.page_id.page_index ≡ s.left.page_id.page_index =
        ap (λ k. k.page_index) a1.same_page in
      let right_index : r1.page_id.page_index ≡ s.right.page_id.page_index =
        ap (λ k. k.page_index) a2.same_page in
      let (s', e4, k) =
        link_siblings-Linked m next a1.well_formed a2.well_formed f.orig_well_formed
          (rw left_index f.left_word) (rw right_index f.right_word) f.next_word in
      (
        s',
        distribute_lem s s' n sorted key p l1 r1 has_key e1 e2
            (records_between-drop recs i (n + 1) (omega arith) len) e3 e4,
        record {
          left_page = k.left_same.same_page ∙ a1.same_page;
          right_page = k.right_same.same_page ∙ a2.same_page;
          left_records = holds l0 l1 s'.left (take i recs) z a1 k.left_same;
          right_records = holds s.right r1 s'.right (drop i recs) f.right_empty a2 k.right_same;
          left_next = k.left_next ∙ ap (λ v. done (link_of v)) right_index;
          left_prev = k.left_prev ∙ same_prev l0 l1 (take i recs) a1 ∙ fresh_prev l0 prev_link;
          right_next = k.right_next ∙ sym (get_next_leaf_index_lem s.left);
          right_prev = k.right_prev ∙ ap (λ v. done (link_of v)) left_index;
          follows = subst (λ v. Follows v s.orig_right s'.orig_right) right_index k.follows;
        },
      )
