-- ===== src/Tests/Pools.antt =====
-- A pool of two frames at work.
use rarm_db.Base.{
  ℕ, ◌≡◌, ◌⊎◌, refl, ap, [], ◌∷◌, none, some, true, false, get_elem?, Returns, done, panic,
  if◌then◌else◌, arith,
}
use rarm_db.Page.{PageId}
use rarm_db.Evictor.{new, remove}
use rarm_db.Frame.{new_frame, pin_frame, increment_pin_count, set_page_id}
use rarm_db.Pool.{
  BufferPoolManager, page_id_eq, reserved, new_pool, pop, pin, unpin, claim, place, reserve, create,
  available_frame,
}
use rarm_db.Pool.Consistent.{IsConsistent}
use rarm_db.Pool.Available.{IsFull}
use rarm_db.Pool.Reserve.{Reserves, OthersKept, pinned_once_more, taken, reserve-Reserves}
use rarm_db.Pool.Create.{Creates, create-Creates}
use rarm_db.Pool.Steps.{pinned_once_less, unpin-IsConsistent}
use rarm_db.Pool.Start.{new_frame_at, new_pool-IsConsistent}
use rarm_db.Pool.Reachable.{HasRoom, fetches, creates, stay, step, reachable-IsConsistent}
use rarm_db.Pool.Keeping.{HasPage, whole, AtomicStep-HasPage}

abbrev pub seventh : PageId
seventh = record { table_id = 1; page_index = 7 }

abbrev eighth : PageId
eighth = record { table_id = 1; page_index = 8 }

pub new_pool-HasRoom : (n : ℕ) → HasRoom (new_pool n)
unfolding new_pool new_frame
new_pool-HasRoom n i f e =
    let unpinned : f.pin_count ≡ 0 = ap (λ x. x.pin_count) (new_frame_at n 0 i f e) in omega arith

reserve-Reserves_example : Returns (reserve seventh (new_pool 2)) (Reserves seventh (new_pool 2))
reserve-Reserves_example =
    reserve-Reserves (new_pool 2) seventh (new_pool-IsConsistent 2 (omega arith))
      (new_pool-HasRoom 2)

create-Creates_example :
    Returns (create seventh (new_pool 2)) (Creates seventh (new_pool 2))
    ⊎ ((create seventh (new_pool 2) ≡ panic)
        × ((new_pool 2).free_frames ≡ [])
        × IsFull (new_pool 2))
unfolding new_pool
create-Creates_example =
    create-Creates (new_pool 2) seventh (new_pool-IsConsistent 2 (omega arith)) refl

-- The pool when page 7 is on its way to frame 1.
abbrev pub fetching : BufferPoolManager
fetching = record (new_pool 2) {
  frames = new_frame 0 ∷ taken (new_frame 1) seventh ∷ [];
  free_frames = 0 ∷ [];
  fetches = λ q. if page_id_eq seventh q then true else false;
  page_table = λ q. if page_id_eq seventh q then some 1 else none;
}

pub reserve_example : reserve seventh (new_pool 2) ≡ done (fetching, reserved 1 none)
unfolding reserve available_frame pop claim pin pin_frame increment_pin_count new_pool new_frame new
    remove
reserve_example = refl

reachable-IsConsistent_example : IsConsistent fetching
reachable-IsConsistent_example =
    reachable-IsConsistent 2 fetching (omega arith)
      (step stay (fetches seventh (new_pool-HasRoom 2) reserve_example))

unpin-IsConsistent_example : Returns (unpin fetching 1) (λ s'.
    IsConsistent s'
    × (get_elem? s'.frames 1 ≡ some (pinned_once_less (taken (new_frame 1) seventh)))
    × OthersKept fetching 1 s')
unfolding new_frame
unpin-IsConsistent_example =
    unpin-IsConsistent fetching 1 (taken (new_frame 1) seventh) seventh
      (reachable-IsConsistent 2 fetching (omega arith)
        (step stay (fetches seventh (new_pool-HasRoom 2) reserve_example)))
      refl refl (omega arith)

-- The pool when page 8 has been created in frame 0.
abbrev creating : BufferPoolManager
creating = record fetching {
  frames =
      set_page_id (pinned_once_more (new_frame 0)) (some eighth) ∷ taken (new_frame 1) seventh ∷ [];
  free_frames = [];
  page_table =
      λ q. if page_id_eq eighth q then some 0 else if page_id_eq seventh q then some 1 else none;
}

create_example : create eighth fetching ≡ done (creating, 0, none)
unfolding create available_frame pop place pin pin_frame increment_pin_count new_pool new_frame new
    remove
create_example = refl

AtomicStep-HasPage_example : HasPage creating 1 seventh
unfolding new_frame
AtomicStep-HasPage_example =
    AtomicStep-HasPage fetching creating 1 (taken (new_frame 1) seventh) seventh
      (reachable-IsConsistent 2 fetching (omega arith)
        (step stay (fetches seventh (new_pool-HasRoom 2) reserve_example)))
      (whole (creates eighth refl create_example)) refl refl (omega arith)
