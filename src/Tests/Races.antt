-- ===== src/Tests/Races.antt =====
-- A pin between the two halves of the drop of a guard: the frame is pinned and in the evictor.
use rarm_db.Base.{zero, suc, ◌≡◌, refl, ap, sym, [], ◌∷◌, some, none, true, false, arith, done}
use rarm_db.Evictor.{new, add, remove}
use rarm_db.Frame.{new_frame, pin_frame, increment_pin_count, decrement_pin_count}
use rarm_db.Pool.{BufferPoolManager, cached, new_pool, pin, reserve, decrement, add_evictable}
use rarm_db.Pool.Reserve.{taken}
use rarm_db.Pool.Steps.{pinned_once_less}
use rarm_db.Pool.Reachable.{HasRoom}
use rarm_db.Pool.Linked.{IsLinked}
use rarm_db.Pool.Interleaved.{IsPaged, stay, step, fetches, decrements, adds, reachable-IsLinked}
use rarm_db.Tests.Pools.{seventh, fetching, new_pool-HasRoom, reserve_example}

-- The last guard on frame 1 has decremented the count.
abbrev decremented : BufferPoolManager
decremented = record fetching {
  frames = new_frame 0 ∷ pinned_once_less (taken (new_frame 1) seventh) ∷ [];
}

decrement_example : decrement 1 fetching ≡ done (decremented, 1)
unfolding decrement decrement_pin_count new_frame
decrement_example = refl

-- Another task fetches the page again.
fetch_between : reserve seventh decremented ≡ done (fetching, cached 1)
unfolding reserve pin pin_frame increment_pin_count new_frame new_pool new remove
fetch_between = refl

-- Then the frame goes to the evictor, although it is pinned.
abbrev raced : BufferPoolManager
raced = record fetching {
  evictor = record {
    clock_hand_pos = 0;
    second_chances = false ∷ true ∷ [];
    is_in_evictor = false ∷ true ∷ [];
    size = 1;
  };
}

add_example : add_evictable 1 fetching ≡ done raced
unfolding add_evictable add new_pool new
add_example = refl

decremented-HasRoom : HasRoom decremented
unfolding new_frame
decremented-HasRoom zero f e =
    let same : new_frame 0 ≡ f = cc in
    let none_yet : f.pin_count ≡ 0 = ap (λ x. x.pin_count) (sym same) in omega arith
decremented-HasRoom (suc zero) f e =
    let same : pinned_once_less (taken (new_frame 1) seventh) ≡ f = cc in
    let none_left : f.pin_count ≡ 0 = ap (λ x. x.pin_count) (sym same) in omega arith
decremented-HasRoom (suc (suc i)) f e = let no : none ≡ some f = e in absurd (cc)

abbrev fetching-IsPaged : IsPaged fetching 1
fetching-IsPaged = record {
  frame = taken (new_frame 1) seventh;
  page = seventh;
  is_there = refl;
  has_page = refl;
}

reachable-IsLinked_example : IsLinked raced
unfolding new_frame
reachable-IsLinked_example = reachable-IsLinked 2 raced (omega arith) (
    step
      (step
        (step (step stay (fetches seventh (new_pool-HasRoom 2) reserve_example))
          (decrements 1 fetching-IsPaged (omega arith) decrement_example))
        (fetches seventh decremented-HasRoom fetch_between))
      (adds 1 fetching-IsPaged add_example))
