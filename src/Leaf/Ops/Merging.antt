-- ===== src/Leaf/Ops/Merging.antt =====
-- What `merge` does to the two leaves and to the one after them.
pub mod Relinks
use rarm_db.Base.{
  ℕ, zero, suc, ◌+◌, ◌-◌, ◌*◌, ◌≤◌, ◌<◌, ◌≡◌, refl, ap, sym, ◌∙◌, List, Option, some, none, arith,
  length, Outcome, done, ◌>>=◌, Returns,
}
use native.Mathlib.Decide.{ℕ_discrete}
use rarm_db.Page.{page_header_size, slot_size, item_count_offset, Result, ok, err}
use rarm_db.Page.Buffer.{Buffer, slice}
use rarm_db.Page.Buffer.Laws.{length-slice}
use rarm_db.Page.Total.{total, total_mono}
use rarm_db.Page.Slotted.{get_record, try_insert_record, get_page_header_u16_value}
use rarm_db.Page.Shape.{
  IsSlotted, item_count, heap_end, record_size, record_offset, record_at, get_record_lem,
  get_page_header_u16_value_lem,
}
use rarm_db.Page.Insert.Refines.{Inserted, try_insert_record-Inserted}
use rarm_db.Leaf.{LeafNodeView, append}
use rarm_db.Leaf.Ops.{append_records}

-- The leaf `l'` has the records of `l`, then `n` records of `right` from `index` on; its links and
-- its place are those of `l`.
pub record Joins (l l' : LeafNodeView) (right : Buffer) (index n : ℕ) : Type 0 where
  pub same_page : l'.page_id ≡ l.page_id
  pub well_formed : IsSlotted l'.page_view
  pub count : item_count l'.page_view ≡ item_count l.page_view + n
  pub own :
      (j : ℕ) → j < item_count l.page_view → get_record l'.page_view j ≡ get_record l.page_view j
  pub joined :
      (i j : ℕ)
      → j < n
      → i ≡ item_count l.page_view + j
      → get_record l'.page_view i ≡ get_record right (index + j)
  pub header :
      (p m : ℕ) → p + m ≤ item_count_offset → slice l'.page_view p m ≡ slice l.page_view p m

pub append_lem :
    (l : LeafNodeView) (record_data : List ℕ)
    → IsSlotted l.page_view
    → page_header_size + (item_count l.page_view + 1) * slot_size + length record_data
      ≤ heap_end l.page_view
    → (b' : Buffer) × (append l record_data
        ≡ done (record l { page_view = b' }, ok (item_count l.page_view)))
      × IsSlotted b'
      × Inserted l.page_view b' (item_count l.page_view) record_data
      × (heap_end b' + length record_data ≡ heap_end l.page_view)
unfolding append
append_lem l record_data v room =
    let n = item_count l.page_view in
    let (b', e, v', i, h) =
      try_insert_record-Inserted l.page_view v n record_data room (omega arith) in
    (
      b',
      rw (get_page_header_u16_value_lem l.page_view item_count_offset (omega arith), e) refl,
      v',
      i,
      h,
    )

module _ (right : Buffer) (w : IsSlotted right) where
  pub append_records-Joins :
      (n index : ℕ) (l : LeafNodeView)
      → index + n ≡ item_count right
      → IsSlotted l.page_view
      → page_header_size
          + (item_count l.page_view + n) * slot_size
          + total (record_size right) (item_count right)
        ≤ heap_end l.page_view + total (record_size right) index
      → (l' : LeafNodeView) × (append_records n l right index ≡ done (l', ok tt))
        × Joins l l' right index n
  unfolding append_records
  append_records-Joins zero index l e v room = (
    l,
    refl,
    record {
      same_page = refl;
      well_formed = v;
      count = omega arith;
      own = λ j h. refl;
      joined = λ i j h p. ground arith;
      header = λ p m h. refl;
    },
  )
  append_records-Joins (suc n) index l e v room =
      let record_data = record_at right index in
      let size : length record_data ≡ record_size right index =
        length-slice right (record_offset right index) (record_size right index) in
      let (b', appended, v', (count, before, here, after, header), heap) =
        append_lem l record_data v (
          omega (
            arith,
            size,
            total_mono (record_size right) (suc index) (item_count right) (omega arith),
          )) in
      let next : index + 1 ≡ suc index = omega arith in
      let l1 : LeafNodeView = record l { page_view = b' } in
      let (l', e', j) =
        append_records-Joins n (index + 1) l1 (omega arith) v'
          (rw next (omega (arith, size, heap, count))) in
      (
        l',
        rw (get_record_lem w index (omega arith), appended) e',
        record {
          same_page = j.same_page;
          well_formed = j.well_formed;
          count = omega (arith, j.count, count);
          own = λ k h. j.own k (omega (arith, count)) ∙ before k h;
          joined = λ i k h q. elim (ℕ_discrete k 0) [
            | yes z ↦
                let at : i ≡ item_count l.page_view = omega arith in
                let at' : index + k ≡ index = omega arith in
                rw (at, at')
                  (j.own (item_count l.page_view) (omega (arith, count))
                    ∙ here
                    ∙ sym (get_record_lem w index (omega arith)))
            | no z ↦
                let at : index + k ≡ index + 1 + (k - 1) = omega arith in
                rw at (j.joined i (k - 1) (omega arith) (omega (arith, count)))
          ];
          header = λ p m h. j.header p m h ∙ header p m h;
        },
      )
