-- ===== src/Evictor/Victim.antt =====
-- The sweep of `victim` gives a frame when one is eligible.
use native.Mathlib.Decide.{ℕ_discrete}
use rarm_db.Base.{
  ℕ, zero, suc, ◌+◌, ◌*◌, ◌%◌, ◌≤◌, ◌<◌, ◌≡◌, ◌∙◌, Bool, true, false, Option, some, arith, length,
  get_elem?, Outcome, done, get_elem?-set_self, get_elem?-set_ne, get_elem?_lt, get_elem?-some,
}
use rarm_db.Evictor.{ClockEvictorState, evict_at, sweep, victim}
use rarm_db.Evictor.Count.{count_set_pos, find_set}
use rarm_db.Evictor.Invariant.{IsValid, Holds, removed}
use rarm_db.Evictor.Clock.{next_lt, enough, enough-next, enough-next_self, enough_at, enough-le}
use rarm_db.Evictor.Sweep.{
  chance_cleared, chance_cleared-IsValid, sweep_skip, sweep_clear, sweep_evict, ne_of_flags,
}

-- A frame comes out as soon as the rounds are enough for one that may be evicted.
abbrev GivesFrame : Outcome (ClockEvictorState × Option ℕ) → Type 0
GivesFrame m = (s' : ClockEvictorState) × (f : ℕ) × (m ≡ done (s', some f))

evict_at-GivesFrame :
    (s : ClockEvictorState) (i : ℕ) → IsValid s → Holds s i → GivesFrame (evict_at s i)
unfolding evict_at
evict_at-GivesFrame s i v e = (
  record (removed s i true) { clock_hand_pos = (i + 1) % length s.is_in_evictor },
  i,
  ground (arith, count_set_pos s.is_in_evictor i e),
)

-- `rounds` suffice for every eligible frame that the hand can reach within them.
abbrev GivesWithin : ℕ → Type 0
GivesWithin rounds =
    (s : ClockEvictorState) (i j : ℕ) (chance_j : Bool)
    → IsValid s
    → i < length s.is_in_evictor
    → Holds s j
    → get_elem? s.second_chances j ≡ some chance_j
    → enough (length s.is_in_evictor) i j chance_j ≤ rounds
    → GivesFrame (sweep rounds s i)

GivesWithin-suc :
    (rounds : ℕ)
    → GivesWithin rounds
    → (present chance : Bool) (s : ClockEvictorState) (i j : ℕ) (chance_j : Bool) → IsValid s
    → i < length s.is_in_evictor
    → get_elem? s.is_in_evictor i ≡ some present
    → get_elem? s.second_chances i ≡ some chance
    → Holds s j
    → get_elem? s.second_chances j ≡ some chance_j
    → enough (length s.is_in_evictor) i j chance_j ≤ suc rounds
    → GivesFrame (sweep (suc rounds) s i)
GivesWithin-suc rounds rec false chance s i j chance_j v h e c hj cj m =
    let n = length s.is_in_evictor in
    let ne = ne_of_flags s.is_in_evictor e hj in
    let inside = get_elem?-some s.is_in_evictor j hj in
    rw (sweep_skip rounds s i e) (
      rec s ((i + 1) % n) j chance_j v (next_lt i n h) hj cj
        (omega (arith, enough-next n i j chance_j h inside ne)))
GivesWithin-suc rounds rec true false s i j chance_j v h e c hj cj m =
    rw (sweep_evict rounds s i e c) (evict_at-GivesFrame s i v e)
GivesWithin-suc rounds rec true true s i j chance_j v h e c hj cj m =
    let n = length s.is_in_evictor in
    let inside = get_elem?-some s.is_in_evictor j hj in
    let w = chance_cleared-IsValid s i v in
    rw (sweep_clear rounds s i e c) (elim (ℕ_discrete i j) [
      | yes same ↦
          let m' : enough n i i true ≤ suc rounds =
            enough_at n i j (suc rounds) chance_j same (cc) m in
          rec (chance_cleared s i) ((i + 1) % n) i false w (next_lt i n h) e
            (get_elem?-set_self s.second_chances i false (omega arith))
            (omega (arith, enough-next_self n i h))
      | no ne ↦
          rec (chance_cleared s i) ((i + 1) % n) j chance_j w (next_lt i n h) hj
            (get_elem?-set_ne s.second_chances i j false ne ∙ cj)
            (omega (arith, enough-next n i j chance_j h inside ne))
    ])

sweep-GivesFrame : (rounds : ℕ) → GivesWithin rounds
sweep-GivesFrame zero s i j true v h hj cj m = absurd (omega arith)
sweep-GivesFrame zero s i j false v h hj cj m = absurd (omega arith)
sweep-GivesFrame (suc rounds) s i j chance_j v h hj cj m =
    let (present, e) = get_elem?_lt s.is_in_evictor i h in
    let (chance, c) = get_elem?_lt s.second_chances i (omega arith) in
    GivesWithin-suc rounds (sweep-GivesFrame rounds) present chance s i j chance_j v h e c hj cj m

-- When some frame is eligible, two rounds of the clock are enough: `victim` gives a frame.
pub victim-GivesFrame :
    (s : ClockEvictorState)
    → IsValid s
    → 0 < s.size
    → (s' : ClockEvictorState) × (f : ℕ) × (victim s ≡ done (s', some f))
unfolding victim
victim-GivesFrame s v some_left =
    let (j, hj) = find_set s.is_in_evictor (omega arith) in
    let inside = get_elem?-some s.is_in_evictor j hj in
    let (chance_j, cj) = get_elem?_lt s.second_chances j (omega arith) in
    sweep-GivesFrame (length s.is_in_evictor * 2) s s.clock_hand_pos j chance_j v v.hand_inside hj
      cj (enough-le (length s.is_in_evictor) s.clock_hand_pos j chance_j v.hand_inside inside)
