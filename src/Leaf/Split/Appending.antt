-- ===== src/Leaf/Split/Appending.antt =====
-- What `append_all` leaves: the records in their order behind those of the leaf.
use rarm_db.Base.{
  ℕ, zero, suc, ◌+◌, ◌*◌, ◌≤◌, ◌<◌, ◌≡◌, refl, ◌∙◌, List, [], ◌∷◌, length, get_elem?, arith, done,
}
use rarm_db.Page.{page_header_size, slot_size, item_count_offset, ok}
use rarm_db.Page.Buffer.{Buffer, slice}
use rarm_db.Page.Slotted.{get_record}
use rarm_db.Page.Shape.{IsSlotted, item_count, heap_end}
use rarm_db.Page.Insert.Refines.{Inserted}
use rarm_db.Leaf.{LeafNodeView}
use rarm_db.Leaf.Ops.Merging.{append_lem}
use rarm_db.Leaf.Split.{append_all}
use rarm_db.Leaf.Split.Index.{sizes}

pub record Appends (l l' : LeafNodeView) (records : List (List ℕ)) : Type 0 where
  pub same_page : l'.page_id ≡ l.page_id
  pub well_formed : IsSlotted l'.page_view
  pub count : item_count l'.page_view ≡ item_count l.page_view + length records
  pub own :
      (j : ℕ) → j < item_count l.page_view → get_record l'.page_view j ≡ get_record l.page_view j
  pub appended :
      (i j : ℕ)
      → j < length records
      → i ≡ item_count l.page_view + j
      → get_record l'.page_view i ≡ done (get_elem? records j)
  pub header :
      (p m : ℕ) → p + m ≤ item_count_offset → slice l'.page_view p m ≡ slice l.page_view p m

-- One record inserted at the end of a leaf, and the others appended to that.
one_more-Appends :
    (l l' : LeafNodeView) (b' : Buffer) (r : List ℕ) (records : List (List ℕ))
    → Inserted l.page_view b' (item_count l.page_view) r
    → Appends (record l { page_view = b' }) l' records
    → Appends l l' (r ∷ records)
one_more-Appends l l' b' r records (count, before, here, after, header) a = record {
  same_page = a.same_page;
  well_formed = a.well_formed;
  count = omega (arith, a.count, count);
  own = λ k h. a.own k (omega (arith, count)) ∙ before k h;
  appended = appended;
  header = λ p m h. a.header p m h ∙ header p m h;
}
  where
    appended :
        (i k : ℕ)
        → k < length (r ∷ records)
        → i ≡ item_count l.page_view + k
        → get_record l'.page_view i ≡ done (get_elem? (r ∷ records) k)
    appended i zero h q =
        let at : i ≡ item_count l.page_view = omega arith in
        rw at (a.own (item_count l.page_view) (omega (arith, count)) ∙ here)
    appended i (suc k) h q = a.appended i k (omega arith) (omega (arith, count))

pub append_all-Appends :
    (records : List (List ℕ)) (l : LeafNodeView)
    → IsSlotted l.page_view
    → page_header_size + (item_count l.page_view + length records) * slot_size + sizes records
      ≤ heap_end l.page_view
    → (l' : LeafNodeView) × (append_all l records ≡ done (l', ok tt)) × Appends l l' records
unfolding append_all
append_all-Appends [] l v room = (
  l,
  refl,
  record {
    same_page = refl;
    well_formed = v;
    count = omega arith;
    own = λ j h. refl;
    appended = λ i j h e. ground arith;
    header = λ p m h. refl;
  },
)
append_all-Appends (r ∷ records) l v room =
    let (b', e, v', i, heap) = append_lem l r v (omega arith) in
    let (l', e', a) =
      append_all-Appends records (record l { page_view = b' }) v' (omega (arith, i.0, heap)) in
    (l', rw e e', one_more-Appends l l' b' r records i a)
