-- ===== src/Leaf/Split/Refines.antt =====
-- The whole of `split_and_insert`.
use Prim.Native.Nat.{Ordering}
use rarm_db.Base.{
  take_all, ℕ, zero, suc, ◌+◌, ◌/◌, lt→ltb, le→ltb, ◌≤◌, ◌<◌, ◌≡◌, refl, ap, subst, ◌∙◌, List, [],
  ◌∷◌, ◌++◌, length, arith, inl, inr, done,
}
use native.Mathlib.Decide.{dec_lt}
use rarm_db.Page.{item_count_offset, ok}
use rarm_db.Page.Buffer.{Buffer}
use rarm_db.Page.Total.{total, total_insert}
use rarm_db.Page.Shape.{IsSlotted, item_count, record_at, get_page_header_u16_value_lem}
use rarm_db.Leaf.{LeafNodeView, get_item_count}
use rarm_db.Leaf.Codec.{Codec}
use rarm_db.Leaf.Search.{IsSorted}
use rarm_db.Leaf.Ops.Insertion.{
  inserted_at, inserted_at-before, inserted_at-here, inserted_at-after,
}
use rarm_db.Leaf.Split.{Split, Sorting, split_and_insert}
use rarm_db.Leaf.Split.Index.{sizes, find_split_index_by_size-IsCut}
use rarm_db.Leaf.Split.Order.{
  tabulate, length-tabulate, get_elem?-tabulate, keys', records', sorted, sort_records-sorted,
}
use rarm_db.Leaf.Split.Distribution.{Distributed, Fits, split_index, distribute-Distributed}

sizes-push : (xs : List (List ℕ)) (y : List ℕ) → sizes (xs ++ (y ∷ [])) ≡ sizes xs + length y
sizes-push [] y = omega arith
sizes-push (x ∷ xs) y = omega (arith, sizes-push xs y)

sizes-tabulate : (f : ℕ → List ℕ) (n : ℕ) → sizes (tabulate f n) ≡ total (λ i. length (f i)) n
sizes-tabulate f zero = refl
sizes-tabulate f (suc n) = omega (arith, sizes-push (tabulate f n) (f n), sizes-tabulate f n)

get_item_count_lem : (l : LeafNodeView) → get_item_count l ≡ done (item_count l.page_view)
unfolding get_item_count
get_item_count_lem l = get_page_header_u16_value_lem l.page_view item_count_offset (omega arith)

module _ (c : Codec) (s : Split) (keys : ℕ → c.Key) (p : ℕ) (key : c.Key) (bytes : List ℕ)
    (v : IsSlotted s.left.page_view) (o : IsSorted c s.left.page_view keys)
    (in_place : p ≤ item_count s.left.page_view)
    (lo : (j : ℕ) → j < p → c.key_cmp key (keys j) ≡ Ordering.gt)
    (hi : (j : ℕ)
      → p ≤ j
      → j < item_count s.left.page_view
      → c.key_cmp key (keys j) ≡ Ordering.lt) where
  abbrev b : Buffer
  b = s.left.page_view

  abbrev n : ℕ
  n = item_count b

  abbrev lists : Sorting c
  lists = sorted c b keys p key bytes v o in_place lo hi

  abbrev all_records : List (List ℕ)
  all_records = lists.sorted_records

  all_sizes : sizes all_records ≡ total (λ i. length (record_at b i)) n + length bytes
  all_sizes =
      sizes-tabulate (records' c b keys p key bytes) (suc n)
      ∙ total_insert (λ i. length (record_at b i)) (λ i. length (records' c b keys p key bytes i)) n
          p (length bytes)
          (record {
            within = in_place;
            before = λ k h. ap length (inserted_at-before (record_at b) p bytes k h);
            here = ap length (inserted_at-here (record_at b) p bytes);
            after = λ k h q. ap length (inserted_at-after (record_at b) p bytes k h);
          })

  -- The size that is counted is at most that of all the records.
  counted : lists.total_size ≤ sizes all_records
  counted = elim (dec_lt p n) [
    | yes h ↦ rw (lt→ltb p n h) (omega (arith, all_sizes))
    | no h ↦ rw (le→ltb p n (omega arith)) (omega (arith, all_sizes))
  ]

  -- The cut leaves a record for the right leaf.
  cut_inside : 0 < length bytes → split_index c lists < suc n
  cut_inside h =
      let i = split_index c lists in
      let (fits, low, next) = find_split_index_by_size-IsCut all_records lists.total_size in
      let len = length-tabulate (records' c b keys p key bytes) (suc n) in
      elim next [
        | inr q ↦ omega (arith, len, q.0)
        | inl e ↦
            let whole = take_all i all_records (omega (arith, e)) in
            let low' : sizes all_records ≤ lists.total_size / 2 =
              subst (λ ys. sizes ys ≤ lists.total_size / 2) whole low in
            absurd (omega (arith, low', counted, all_sizes, h))
      ]

  -- For a leaf whose keys ascend, with a right sibling that is empty, and with space for both parts,
  -- `split_and_insert` of a record with a new key never panics and succeeds. The records of the
  -- leaf, with the new one at its place in the order, are cut at the index that
  -- `find_split_index_by_size` gives: those before it are on the left leaf, and the others, at least
  -- one, on the right leaf. The result is the key of the first record on the right. The right leaf
  -- is linked in between the left leaf and the leaf that followed it, and the left leaf's previous
  -- link is lost.
  pub split_and_insert-Distributed :
      (r : c.Record)
      → c.get_primary_key r ≡ done key
      → c.serialize r ≡ done bytes
      → 0 < length bytes
      → Fits s all_records (split_index c lists)
      → (s' : Split) × (split_and_insert c s r
          ≡ done (s', ok (inserted_at keys p key (split_index c lists))))
        × Distributed s s' all_records (split_index c lists)
        × (split_index c lists < suc n)
  unfolding split_and_insert
  split_and_insert-Distributed r has_key serialized some_byte f =
      let inside = cut_inside some_byte in
      let (t, e, last) = sort_records-sorted c b keys p key bytes v o in_place lo hi in
      let (s', e', d) =
        distribute-Distributed c s n lists (inserted_at keys p key (split_index c lists))
          (omega (arith, length-tabulate (records' c b keys p key bytes) (suc n)))
          (get_elem?-tabulate (keys' c b keys p key bytes) (suc n) (split_index c lists) inside)
          f in
      (
        s',
        rw
            (
              get_item_count_lem s.right,
              f.right_empty,
              get_item_count_lem s.left,
              serialized,
              has_key,
              e,
              last,
              e',
            )
            refl,
        d,
        inside,
      )
