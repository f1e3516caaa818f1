-- ===== src/Tests/Leaves.antt =====
-- Leaves of the b-tree at concrete inputs.
use Prim.Native.Nat.{compare}
use rarm_db.Base.{
  ℕ, ◌<◌, ◌≡◌, refl, ap, subst, ◌^◌, List, [], ◌∷◌, none, some, arith, Outcome, done, panic,
  Returns, to_le_bytes, from_le_bytes,
}
use rarm_db.Page.{ok, PageType, next_sibling_offset}
use rarm_db.Page.Buffer.{Buffer, read_slice, u32_at, u16_at, slice, overlay, zeroed}
use rarm_db.Page.Slotted.{get_record, get_item_count, get_slot}
use rarm_db.Page.Shape.{IsSlotted, item_count, heap_end, record_offset, record_size}
use rarm_db.Page.Init.{initialized, initialized-IsSlotted, initialized_words}
use rarm_db.Page.Insert.Refines.{try_insert_record-Inserted}
use rarm_db.Leaf.{LeafNodeView}
use rarm_db.Leaf.Split.{Split, split_and_insert, split_from, find_split_index_by_size}
use rarm_db.Leaf.Split.Index.{IsCut, find_split_index_by_size-IsCut}
use rarm_db.Leaf.Split.Distribution.{Distributed, Fits}
use rarm_db.Leaf.Split.Refines.{split_and_insert-Distributed}
use rarm_db.Leaf.Codec.{Codec}
use rarm_db.Leaf.Search.{key_at, IsSorted}
use rarm_db.Leaf.Ops.{merge, Merge}
use rarm_db.Leaf.Ops.Merging.Relinks.{MergeSpec, Ready, merge-MergeSpec}

-- Records of a key of one byte and a payload.
abbrev first_byte : List ℕ → Outcome ℕ
first_byte [] = panic
first_byte (k ∷ bytes) = done k

abbrev byte_records : Codec
byte_records = record {
  Key = ℕ;
  Record = ℕ × List ℕ;
  key_cmp = compare;
  get_primary_key = λ r. done r.0;
  serialize = λ r. done (r.0 ∷ r.1);
  deserialize_primary_key = first_byte;
}

abbrev pub empty : Buffer
empty = initialized (λ i. 0) PageType.leaf_node none

pub empty-IsSlotted : IsSlotted empty
empty-IsSlotted = initialized-IsSlotted (λ i. 0) PageType.leaf_node none

-- A leaf with the record of key 7 and payload 9.
seven_stored :
    (b : Buffer) × IsSlotted b
    × (item_count b ≡ 1)
    × (get_record b 0 ≡ done (some (7 ∷ 9 ∷ [])))
    × (u32_at b next_sibling_offset ≡ u32_at empty next_sibling_offset)
unfolding u32_at
seven_stored =
    let (no_items, whole) = initialized_words (λ i. 0) PageType.leaf_node none in
    let (b, e, v, (count, before, here, after, header), heap) =
      try_insert_record-Inserted empty empty-IsSlotted 0 (7 ∷ 9 ∷ [])
        (omega (arith, no_items, whole)) (omega (arith, no_items)) in
    (
      b,
      v,
      omega (arith, count, no_items),
      here,
      ap from_le_bytes (header next_sibling_offset 4 (omega arith)),
    )

abbrev one_record : LeafNodeView
one_record = record {
  page_id = record { table_id = 1; page_index = 3 };
  page_view = seven_stored.0;
}

abbrev sevens : ℕ → ℕ
sevens i = 7

abbrev empty_leaf : ℕ → LeafNodeView
empty_leaf i = record { page_id = record { table_id = 1; page_index = i }; page_view = empty }

-- An empty leaf, its right sibling with a record, and the empty leaf after that.
abbrev three_leaves : Merge
three_leaves = record { left = empty_leaf 2; right = one_record; right_next = some (empty_leaf 5) }

empty_link : u32_at empty next_sibling_offset < 2 ^ 32
unfolding u32_at slice initialized overlay zeroed to_le_bytes from_le_bytes
empty_link = omega arith

three_leaves-Ready : Ready three_leaves
three_leaves-Ready = record {
  left_well_formed = empty-IsSlotted;
  right_well_formed = seven_stored.1;
  next_well_formed = λ l e.
      let same : empty_leaf 5 ≡ l = cc in subst (λ k. IsSlotted k.page_view) same empty-IsSlotted;
  next_word = omega (arith, empty_link, seven_stored.4);
  page_word = omega arith;
}

merge-MergeSpec_example : Returns (merge three_leaves) (MergeSpec three_leaves)
merge-MergeSpec_example = merge-MergeSpec three_leaves three_leaves-Ready

-- A page with the record of key 7 and payload 9 at its end, byte by byte.
abbrev page_of_seven : Buffer
page_of_seven =
    overlay (overlay (overlay empty 20 (1 ∷ 0 ∷ 254 ∷ 31 ∷ [])) 32 (254 ∷ 31 ∷ 2 ∷ 0 ∷ [])) 8190
      (7 ∷ 9 ∷ [])

page_words :
    (item_count page_of_seven ≡ 1)
    × (heap_end page_of_seven ≡ 8190)
    × (record_offset page_of_seven 0 ≡ 8190)
    × (record_size page_of_seven 0 ≡ 2)
unfolding u16_at slice overlay initialized zeroed to_le_bytes from_le_bytes
page_words = (refl, refl, refl, refl)

page_of_seven-IsSlotted : IsSlotted page_of_seven
page_of_seven-IsSlotted =
    let (count, heap, offset, size) = page_words in
    record {
      room = omega (arith, count, heap);
      heap_inside = omega (arith, heap);
      above = λ i h. let at : i ≡ 0 = omega (arith, count) in rw at (omega (arith, heap, offset));
      inside = λ i h. let at : i ≡ 0 = omega (arith, count) in rw at (omega (arith, size, offset));
      used = rw (count, heap) (omega (arith, size));
      apart = λ i j h k n. absurd (n (omega (arith, count)));
    }

abbrev split_leaves : Split
split_leaves = record {
  left = record { page_id = record { table_id = 1; page_index = 3 }; page_view = page_of_seven };
  right = empty_leaf 4;
  orig_right = some (empty_leaf 5);
}

seven_key : key_at byte_records page_of_seven 0 ≡ done 7
unfolding key_at get_record get_item_count get_slot read_slice slice overlay initialized zeroed
    to_le_bytes from_le_bytes
seven_key = refl

page_of_seven-IsSorted : IsSorted byte_records page_of_seven sevens
page_of_seven-IsSorted = record {
  held = λ i h. let at : i ≡ 0 = omega (arith, page_words.0) in rw at seven_key;
  ascending = λ i j h k. let never : ⊥ = omega (arith, page_words.0) in elim never [ ];
}

-- The keys 5 and 7, and their records.
abbrev two_records : List (List ℕ)
two_records = (5 ∷ 1 ∷ []) ∷ (7 ∷ 9 ∷ []) ∷ []

split_leaves-Fits : Fits split_leaves two_records 1
unfolding u32_at slice overlay initialized zeroed to_le_bytes from_le_bytes
split_leaves-Fits =
    let (no_items, whole) = initialized_words (λ i. 0) PageType.leaf_node none in
    record {
      right_well_formed = empty-IsSlotted;
      right_empty = no_items;
      orig_well_formed = λ l e.
          let same : empty_leaf 5 ≡ l = cc in
          subst (λ k. IsSlotted k.page_view) same empty-IsSlotted;
      left_room = omega arith;
      right_room = omega (arith, whole);
      left_word = omega arith;
      right_word = omega arith;
      next_word = omega arith;
    }

split_and_insert-Distributed_example :
    (s' : Split) × (split_and_insert byte_records split_leaves (5, 1 ∷ []) ≡ done (s', ok 7))
    × Distributed split_leaves s' two_records 1
    × (1 < 2)
unfolding u16_at slice overlay initialized zeroed to_le_bytes from_le_bytes find_split_index_by_size
    split_from
split_and_insert-Distributed_example =
    split_and_insert-Distributed byte_records split_leaves sevens 0 5 (5 ∷ 1 ∷ [])
      page_of_seven-IsSlotted page_of_seven-IsSorted (omega arith) (λ j h. ground arith)
      (λ j h k. refl) (5, 1 ∷ []) refl refl (omega arith) split_leaves-Fits

find_split_index_by_size-IsCut_example : IsCut two_records 2 1
unfolding find_split_index_by_size split_from
find_split_index_by_size-IsCut_example = find_split_index_by_size-IsCut two_records 4
