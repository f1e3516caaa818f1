-- ===== src/Page/Update.antt =====
-- `try_update_record`: what a page must show for one record to have been replaced, and that such a
-- page is well formed.
pub mod Places
pub mod Refines
use rarm_db.Base.{
  ℕ, suc, ◌+◌, ◌-◌, ◌*◌, ◌≤◌, ◌<◌, ◌≡◌, ◌≢◌, refl, ap, sym, ◌∙◌, List, Option, some, none, arith,
  length, ◌⊎◌, inl, inr, Outcome, done,
}
use native.Mathlib.Decide.{ℕ_discrete, dec_lt}
use rarm_db.Page.{page_size, slot_size, page_header_size, item_count_offset}
use rarm_db.Page.Buffer.{Buffer, slice}
use rarm_db.Page.Total.{total, total_replace}
use rarm_db.Page.Slotted.{get_record}
use rarm_db.Page.Shape.{
  item_count, heap_end, record_offset, record_size, record_at, IsSlotted, Apart, get_record_lem,
  get_record_beyond,
}

-- The records of `b'` are those of `b` with `record_data` in the place of the one at `index`, as
-- `get_record` shows them; the header before the item count is the same.
abbrev pub Updated : Buffer → Buffer → ℕ → List ℕ → Type 0
Updated b b' index record_data =
    (item_count b' ≡ item_count b)
    × (get_record b' index ≡ done (some record_data))
    × ((j : ℕ) → j ≢ index → get_record b' j ≡ get_record b j)
    × ((p m : ℕ) → p + m ≤ item_count_offset → slice b' p m ≡ slice b p m)

-- The words and bytes of `b'` beside those of `b`.
pub record Replaces (b b' : Buffer) (index : ℕ) (record_data : List ℕ) : Type 0 where
  pub index_fits : index < item_count b
  pub same_count : item_count b' ≡ item_count b
  pub room : page_header_size + item_count b * slot_size ≤ heap_end b'
  pub heap_le : heap_end b' ≤ heap_end b
  pub grows : heap_end b' + length record_data ≤ heap_end b + record_size b index
  pub same_offset : (j : ℕ) → j < item_count b → j ≢ index → record_offset b' j ≡ record_offset b j
  pub same_size : (j : ℕ) → j < item_count b → j ≢ index → record_size b' j ≡ record_size b j
  pub new_size : record_size b' index ≡ length record_data
  pub new_above : heap_end b' ≤ record_offset b' index
  pub new_inside : record_offset b' index + length record_data ≤ page_size
  pub new_apart :
      (j : ℕ)
      → j < item_count b
      → j ≢ index
      → Apart (record_offset b' index) (length record_data) (record_offset b j) (record_size b j)
  pub same_bytes :
      (j : ℕ)
      → j < item_count b
      → j ≢ index
      → slice b' (record_offset b j) (record_size b j) ≡ record_at b j
  pub new_bytes : slice b' (record_offset b' index) (length record_data) ≡ record_data
  pub same_header : (p m : ℕ) → p + m ≤ item_count_offset → slice b' p m ≡ slice b p m

module _ {b b' : Buffer} {index : ℕ} {record_data : List ℕ} (v : IsSlotted b)
    (r : Replaces b b' index record_data) where
  inside' : (j : ℕ) → j < item_count b → record_offset b' j + record_size b' j ≤ page_size
  inside' j h = elim (ℕ_discrete j index) [
    | yes e ↦ rw e (omega (arith, r.new_size, r.new_inside))
    | no ne ↦ omega (arith, r.same_offset j h ne, r.same_size j h ne, v.inside j h)
  ]

  above' : (j : ℕ) → j < item_count b → heap_end b' ≤ record_offset b' j
  above' j h = elim (ℕ_discrete j index) [
    | yes e ↦ rw e r.new_above
    | no ne ↦ omega (arith, r.same_offset j h ne, v.above j h, r.heap_le)
  ]

  apart' :
      (i j : ℕ)
      → i < item_count b
      → j < item_count b
      → i ≢ j
      → Apart (record_offset b' i) (record_size b' i) (record_offset b' j) (record_size b' j)
  apart' i j h k ne = elim (ℕ_discrete i index) [
    | yes e ↦
        let ne' : j ≢ index = omega arith in
        rw (e, r.new_size, r.same_offset j k ne', r.same_size j k ne') (r.new_apart j k ne')
    | no ni ↦ elim (ℕ_discrete j index) [
      | yes e ↦
          rw (e, r.new_size, r.same_offset i h ni, r.same_size i h ni)
            (omega (arith, r.new_apart i h ni))
      | no nj ↦
          rw (r.same_offset i h ni, r.same_size i h ni, r.same_offset j k nj, r.same_size j k nj)
            (v.apart i j h k ne)
    ]
  ]

  pub Replaces-IsSlotted : IsSlotted b'
  Replaces-IsSlotted = record {
    room = omega (arith, r.same_count, r.room);
    heap_inside = omega (arith, r.heap_le, v.heap_inside);
    above = λ j h. above' j (omega (arith, r.same_count));
    inside = λ j h. inside' j (omega (arith, r.same_count));
    used = rw r.same_count (
        omega (
          arith,
          total_replace (record_size b) (record_size b') (item_count b) index (length record_data)
              r.index_fits r.new_size r.same_size,
          r.grows,
          v.used,
        ));
    apart = λ i j h k ne. apart' i j (omega (arith, r.same_count)) (omega (arith, r.same_count)) ne;
  }

  read_new : get_record b' index ≡ done (some record_data)
  read_new = rw (
    get_record_lem Replaces-IsSlotted index (omega (arith, r.same_count, r.index_fits)),
    r.new_size,
    r.new_bytes,
  )

  read_other : (j : ℕ) → j ≢ index → get_record b' j ≡ get_record b j
  read_other j ne = elim (dec_lt j (item_count b)) [
    | yes h ↦ rw (
      get_record_lem Replaces-IsSlotted j (omega (arith, r.same_count)),
      get_record_lem v j h,
      r.same_offset j h ne,
      r.same_size j h ne,
      r.same_bytes j h ne,
    )
    | no h ↦
        rw (
          get_record_beyond b j (omega arith),
          get_record_beyond b' j (omega (arith, r.same_count)),
        )
  ]

  pub Replaces-Updated : Updated b b' index record_data
  Replaces-Updated = (r.same_count, read_new, read_other, r.same_header)
