-- ===== src/Evictor/Invariant.antt =====
-- The evictor's invariant, and that each method keeps it.
use rarm_db.Base.{
  ℕ, ◌+◌, ◌-◌, ◌<◌, ◌≡◌, ◌≢◌, refl, sym, ◌∙◌, Bool, true, false, some, arith, length, get_elem?,
  set, done, Returns, length-set, length-replicate, get_elem?-set_self, get_elem?-set_ne,
  get_elem?_lt,
}
use rarm_db.Evictor.{ClockEvictorState, new, add, remove}
use rarm_db.Evictor.Count.{
  count_set, count_set-replicate, count_set-set-true, count_set-set-false, count_set_pos,
}

-- Both tables cover the same frames, the hand stands on a frame, and `size` counts the frames in
-- the evictor.
pub record IsValid (s : ClockEvictorState) : Type 0 where
  pub same_length : length s.second_chances ≡ length s.is_in_evictor
  pub hand_inside : s.clock_hand_pos < length s.is_in_evictor
  pub size_counts : s.size ≡ count_set s.is_in_evictor

-- Frame `f` may be evicted.
abbrev pub Holds : ClockEvictorState → ℕ → Type 0
Holds s f = get_elem? s.is_in_evictor f ≡ some true

-- Frame `g` is in the evictor, and has its second chance, as before.
abbrev pub SameFrame : ClockEvictorState → ClockEvictorState → ℕ → Type 0
SameFrame s s' g =
    (get_elem? s'.is_in_evictor g ≡ get_elem? s.is_in_evictor g)
    × (get_elem? s'.second_chances g ≡ get_elem? s.second_chances g)

pub new-IsValid : (n : ℕ) → 0 < n → IsValid (new n)
unfolding new
new-IsValid n h = record {
  same_length = refl;
  hand_inside = omega (arith, length-replicate {0} n false);
  size_counts = omega (arith, count_set-replicate n);
}

-- The state after `add`.
abbrev pub added : ClockEvictorState → ℕ → Bool → ClockEvictorState
added s f true = record s { second_chances = set s.second_chances f true }
added s f false = record s {
  second_chances = set s.second_chances f true;
  is_in_evictor = set s.is_in_evictor f true;
  size = s.size + 1;
}

added-IsValid :
    (s : ClockEvictorState) (f : ℕ) (present : Bool)
    → IsValid s
    → get_elem? s.is_in_evictor f ≡ some present
    → IsValid (added s f present)
added-IsValid s f true v e = record {
  same_length = length-set s.second_chances f true ∙ v.same_length;
  hand_inside = v.hand_inside;
  size_counts = v.size_counts;
}
added-IsValid s f false v e = record {
  same_length =
      omega (arith, length-set s.second_chances f true, length-set s.is_in_evictor f true);
  hand_inside = omega (arith, length-set s.is_in_evictor f true);
  size_counts = omega (arith, count_set-set-true s.is_in_evictor f e);
}

add-added :
    (s : ClockEvictorState) (f : ℕ) {present chance : Bool}
    → get_elem? s.is_in_evictor f ≡ some present
    → get_elem? s.second_chances f ≡ some chance
    → add s f ≡ done (added s f present)
unfolding add
add-added s f {present} e c = ground arith

-- On a valid state, `add` of a frame of the pool returns; then the frame is in the evictor with its
-- second chance, every other frame has both flags as before, and the invariant holds.
pub add-IsValid :
    (s : ClockEvictorState) (f : ℕ)
    → IsValid s
    → f < length s.is_in_evictor
    → Returns (add s f) (λ s'.
      IsValid s'
      × Holds s' f
      × (get_elem? s'.second_chances f ≡ some true)
      × ((g : ℕ) → f ≢ g → SameFrame s s' g))
add-IsValid s f v h =
    let (present, e) = get_elem?_lt s.is_in_evictor f h in
    let (chance, c) = get_elem?_lt s.second_chances f (omega arith) in
    (
      added s f present,
      add-added s f e c,
      (added-IsValid s f present v e, holds present e, chances present, others present),
    )
  where
    holds :
        (present : Bool) → get_elem? s.is_in_evictor f ≡ some present → Holds (added s f present) f
    holds true e = e
    holds false e = get_elem?-set_self s.is_in_evictor f true h

    chances : (present : Bool) → get_elem? (added s f present).second_chances f ≡ some true
    chances true = get_elem?-set_self s.second_chances f true (omega arith)
    chances false = get_elem?-set_self s.second_chances f true (omega arith)

    others : (present : Bool) (g : ℕ) → f ≢ g → SameFrame s (added s f present) g
    others true g n = (refl, get_elem?-set_ne s.second_chances f g true n)
    others false g n =
        (get_elem?-set_ne s.is_in_evictor f g true n, get_elem?-set_ne s.second_chances f g true n)

abbrev pub removed : ClockEvictorState → ℕ → Bool → ClockEvictorState
removed s f false = s
removed s f true = record s { is_in_evictor = set s.is_in_evictor f false; size = s.size - 1 }

pub removed-IsValid :
    (s : ClockEvictorState) (f : ℕ) (present : Bool)
    → IsValid s
    → get_elem? s.is_in_evictor f ≡ some present
    → IsValid (removed s f present)
removed-IsValid s f false v e = v
removed-IsValid s f true v e = record {
  same_length = omega (arith, length-set s.is_in_evictor f false);
  hand_inside = omega (arith, length-set s.is_in_evictor f false);
  size_counts = omega (arith, count_set-set-false s.is_in_evictor f e);
}

remove-removed :
    (s : ClockEvictorState) (f : ℕ) (present : Bool)
    → IsValid s
    → get_elem? s.is_in_evictor f ≡ some present
    → remove s f ≡ done (removed s f present)
unfolding remove
remove-removed s f false v e = ground arith
remove-removed s f true v e = ground (arith, count_set_pos s.is_in_evictor f e)

-- On a valid state, `remove` of a frame of the pool returns; then the frame is not in the evictor,
-- every other frame is in it or not as before, all second chances are as before, and the invariant
-- holds: in particular `size` does not underflow.
pub remove-IsValid :
    (s : ClockEvictorState) (f : ℕ)
    → IsValid s
    → f < length s.is_in_evictor
    → Returns (remove s f) (λ s'.
      IsValid s'
      × (get_elem? s'.is_in_evictor f ≡ some false)
      × (s'.second_chances ≡ s.second_chances)
      × ((g : ℕ) → f ≢ g → SameFrame s s' g))
remove-IsValid s f v h =
    let (present, e) = get_elem?_lt s.is_in_evictor f h in
    (
      removed s f present,
      remove-removed s f present v e,
      (removed-IsValid s f present v e, gone present e, chances present, others present),
    )
  where
    gone :
        (present : Bool)
        → get_elem? s.is_in_evictor f ≡ some present
        → get_elem? (removed s f present).is_in_evictor f ≡ some false
    gone false e = e
    gone true e = get_elem?-set_self s.is_in_evictor f false h

    chances : (present : Bool) → (removed s f present).second_chances ≡ s.second_chances
    chances false = refl
    chances true = refl

    others : (present : Bool) (g : ℕ) → f ≢ g → SameFrame s (removed s f present) g
    others false g n = (refl, refl)
    others true g n = (get_elem?-set_ne s.is_in_evictor f g false n, refl)

pub length-remove :
    (s s' : ClockEvictorState) (f : ℕ)
    → IsValid s
    → f < length s.is_in_evictor
    → remove s f ≡ done s'
    → length s'.is_in_evictor ≡ length s.is_in_evictor
length-remove s s' f v h r =
    let (present, e) = get_elem?_lt s.is_in_evictor f h in
    let same : removed s f present ≡ s' = removed_same present e in
    rw (← same) (length-removed present)
  where
    removed_same :
        (present : Bool) → get_elem? s.is_in_evictor f ≡ some present → removed s f present ≡ s'
    removed_same present e =
        let q : done (removed s f present) ≡ done s' = sym (remove-removed s f present v e) ∙ r in
        cc

    length-removed :
        (present : Bool) → length (removed s f present).is_in_evictor ≡ length s.is_in_evictor
    length-removed false = refl
    length-removed true = length-set s.is_in_evictor f false

pub length-add :
    (s s' : ClockEvictorState) (f : ℕ)
    → IsValid s
    → f < length s.is_in_evictor
    → add s f ≡ done s'
    → length s'.is_in_evictor ≡ length s.is_in_evictor
length-add s s' f v h r =
    let (present, e) = get_elem?_lt s.is_in_evictor f h in
    let (chance, c) = get_elem?_lt s.second_chances f (omega (arith, v.same_length)) in
    let same : added s f present ≡ s' = added_same present chance e c in
    rw (← same) (length-added present)
  where
    added_same :
        (present chance : Bool)
        → get_elem? s.is_in_evictor f ≡ some present
        → get_elem? s.second_chances f ≡ some chance
        → added s f present ≡ s'
    added_same present chance e c =
        let q : done (added s f present) ≡ done s' = sym (add-added s f e c) ∙ r in cc

    length-added :
        (present : Bool) → length (added s f present).is_in_evictor ≡ length s.is_in_evictor
    length-added true = refl
    length-added false = length-set s.is_in_evictor f true
