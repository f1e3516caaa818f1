-- ===== src/Tests.antt =====
-- Runs at concrete inputs, and each theorem at an input that meets its hypotheses.
mod Leaves
mod Serials
mod Pools
mod Fetches
mod Files
mod Rows
mod Races
use rarm_db.Base.{
  ℕ, ◌+◌, ◌*◌, ◌%◌, ◌^◌, ◌≤◌, ◌<◌, ◌≡◌, ◌≢◌, refl, true, false, [], ◌∷◌, none, some, arith,
  get_elem?, done, panic, ◌>>=◌, Returns, from_le_bytes, to_le_bytes, ◌⊎◌,
}
use rarm_db.Evictor
use rarm_db.Evictor.{ClockEvictorState, add, remove, evict_at, sweep, victim}
use rarm_db.Evictor.Invariant.{IsValid, Holds, SameFrame, add-IsValid, remove-IsValid}
use rarm_db.Evictor.Sweep.{Evicts, victim-Evicts}
use rarm_db.Evictor.Victim.{victim-GivesFrame}
use rarm_db.Evictor.SecondChance.{IsUsed, victim-IsUsed}
use rarm_db.Frame.{Frame, Pinned, new_frame, pin_frame, unpin_frame}
use rarm_db.Frame.Pinning.{InStep, OthersSame, pin_frame-InStep, unpin_frame-InStep}
use rarm_db.Page.{
  page_size, PageType, invalid_page_index, next_sibling_offset, prev_sibling_offset,
  parent_index_offset,
}
use rarm_db.Page.Buffer.{
  Buffer, slice, overlay, move, zeroed, read_slice, write_slice, copy_within, fill_zero,
}
use rarm_db.Page.Slotted.{
  initialize, get_page_type, get_page_header_u16_value, get_page_header_u32_value,
  get_page_header_u64_value, set_page_header_u16_value, set_page_header_u32_value,
  set_page_header_u64_value, get_item_count, get_slot, set_slot, get_free_space_contiguous,
  get_record, insert_record_at, try_insert_record, delete_record, try_update_record, compact,
}
use rarm_db.Page.Shape.{IsSlotted, item_count, heap_end}
use rarm_db.Page.Init.{
  initialized, initialized-IsSlotted, initialize-IsSlotted, get_parent-initialize,
}
use rarm_db.Page.Insert.Refines.{InsertSpec, try_insert_record-InsertSpec}
use rarm_db.Page.Update.Refines.{UpdateSpec, try_update_record-UpdateSpec}
use rarm_db.Page.Compact.Refines.{Compacted, compact-Compacted}
use rarm_db.Page.Delete.{Deleted, delete_record-Deleted_or_same}

-- The clock evictor.
-- Frames 0 and 2 of three may be evicted, and only frame 2 has used up its second chance.
abbrev pool : ClockEvictorState
pool = record {
  clock_hand_pos = 0;
  second_chances = true ∷ true ∷ false ∷ [];
  is_in_evictor = true ∷ false ∷ true ∷ [];
  size = 2;
}

pool-IsValid : IsValid pool
pool-IsValid = record { same_length = refl; hand_inside = omega arith; size_counts = refl }

-- The test `test_clock_evictor_unpin_and_sweep`.
unpin_and_sweep :
    (add (Evictor.new 3) 0 >>= λ s. add s 0 >>= λ s. victim s >>= λ r. done r.1) ≡ done (some 0)
unfolding Evictor.new add victim sweep evict_at
unpin_and_sweep = refl

out_of_bounds : add pool 3 ≡ panic
unfolding add
out_of_bounds = refl

add-IsValid_example : Returns (add pool 1) (λ s'.
    IsValid s'
    × Holds s' 1
    × (get_elem? s'.second_chances 1 ≡ some true)
    × ((g : ℕ) → 1 ≢ g → SameFrame pool s' g))
add-IsValid_example = add-IsValid pool 1 pool-IsValid (omega arith)

remove-IsValid_example : Returns (remove pool 2) (λ s'.
    IsValid s'
    × (get_elem? s'.is_in_evictor 2 ≡ some false)
    × (s'.second_chances ≡ pool.second_chances)
    × ((g : ℕ) → 2 ≢ g → SameFrame pool s' g))
remove-IsValid_example = remove-IsValid pool 2 pool-IsValid (omega arith)

victim-Evicts_example : Returns (victim pool) (Evicts pool)
victim-Evicts_example = victim-Evicts pool pool-IsValid

victim-GivesFrame_example : (s' : ClockEvictorState) × (f : ℕ) × (victim pool ≡ done (s', some f))
victim-GivesFrame_example = victim-GivesFrame pool pool-IsValid (omega arith)

victim-IsUsed_example :
    (s' : ClockEvictorState) × (f : ℕ) × (victim pool ≡ done (s', some f)) × IsUsed pool f
victim-IsUsed_example = victim-IsUsed pool 2 pool-IsValid refl refl

-- Pinning.
abbrev frame_with : ℕ → ℕ → Frame
frame_with id pins = record (new_frame id) { pin_count = pins }

abbrev unpinned : Pinned
unpinned = record { frame = frame_with 0 0; evictor = pool }

abbrev pinned_once : Pinned
pinned_once = record { frame = frame_with 1 1; evictor = pool }

unpinned-InStep : InStep unpinned
unfolding new_frame
unpinned-InStep = record { valid = pool-IsValid; held = refl }

pinned_once-InStep : InStep pinned_once
unfolding new_frame
pinned_once-InStep = record { valid = pool-IsValid; held = refl }

pin_frame-InStep_example :
    Returns
      (pin_frame unpinned)
      (λ s'. InStep s' × (s'.frame.pin_count ≡ 1) × OthersSame unpinned s')
pin_frame-InStep_example = pin_frame-InStep unpinned unpinned-InStep (omega arith)

unpin_frame-InStep_example :
    Returns
      (unpin_frame pinned_once)
      (λ s'. InStep s' × (s'.frame.pin_count + 1 ≡ 1) × OthersSame pinned_once s')
unpin_frame-InStep_example = unpin_frame-InStep pinned_once pinned_once-InStep (omega arith)

-- The slotted page.
abbrev blank : Buffer
blank i = 0

abbrev leaf : Buffer
leaf = initialized blank PageType.leaf_node none

leaf-IsSlotted : IsSlotted leaf
leaf-IsSlotted = initialized-IsSlotted blank PageType.leaf_node none

page_functions : Unit {0}
unfolding initialize get_page_type get_page_header_u16_value get_page_header_u32_value
    get_page_header_u64_value set_page_header_u16_value set_page_header_u32_value
    set_page_header_u64_value get_item_count get_slot set_slot get_free_space_contiguous get_record
    insert_record_at try_insert_record delete_record slice overlay move zeroed read_slice
    write_slice copy_within fill_zero from_le_bytes to_le_bytes
page_functions = tt

-- Two insertions at the front and a deletion, read back.
insert_insert_delete :
    (initialize blank PageType.leaf_node none >>= λ b. try_insert_record b 0 (7 ∷ 8 ∷ []) >>= λ r.
    try_insert_record r.0 0 (9 ∷ []) >>= λ r. delete_record r.0 0 >>= λ b. get_record b 0)
    ≡ done (some (7 ∷ 8 ∷ []))
unfolding page_functions
insert_insert_delete = refl

initialize-IsSlotted_example :
    (b' : Buffer) × (initialize blank PageType.leaf_node none ≡ done b')
    × IsSlotted b'
    × (item_count b' ≡ 0)
    × (heap_end b' ≡ page_size)
    × (get_page_type b' ≡ done PageType.leaf_node)
    × (get_page_header_u32_value b' next_sibling_offset ≡ done invalid_page_index)
    × (get_page_header_u32_value b' prev_sibling_offset ≡ done invalid_page_index)
initialize-IsSlotted_example = initialize-IsSlotted blank PageType.leaf_node none

get_parent-initialize_example :
    (initialize blank PageType.leaf_node (some 5) >>= λ b'.
    get_page_header_u64_value b' parent_index_offset)
    ≡ done (5 % 2 ^ 32 + 2 ^ 32 * invalid_page_index)
get_parent-initialize_example = get_parent-initialize blank PageType.leaf_node 5

try_insert_record-InsertSpec_example :
    Returns (try_insert_record leaf 0 (7 ∷ [])) (InsertSpec leaf 0 (7 ∷ []))
try_insert_record-InsertSpec_example = try_insert_record-InsertSpec leaf 0 (7 ∷ []) leaf-IsSlotted

delete_record-Deleted_or_same_example : Returns (delete_record leaf 0) (λ b'.
    IsSlotted b'
    × ((0 < item_count leaf) × Deleted leaf b' 0 ⊎ (item_count leaf ≤ 0) × (b' ≡ leaf)))
delete_record-Deleted_or_same_example = delete_record-Deleted_or_same leaf 0 leaf-IsSlotted

try_update_record-UpdateSpec_example :
    Returns (try_update_record leaf 0 (7 ∷ [])) (UpdateSpec leaf 0 (7 ∷ []))
try_update_record-UpdateSpec_example = try_update_record-UpdateSpec leaf 0 (7 ∷ []) leaf-IsSlotted

compact-Compacted_example : Returns (compact leaf) (λ b'. IsSlotted b' × Compacted leaf b')
compact-Compacted_example = compact-Compacted leaf leaf-IsSlotted
