-- ===== src/Evictor/SecondChance.antt =====
-- The clock's policy: a frame whose second chance is used up goes before one that still has it.
use rarm_db.Base.{
  ℕ, zero, suc, ◌+◌, ◌*◌, ◌%◌, ◌≤◌, ◌<◌, ◌≡◌, ◌≢◌, ◌∙◌, sym, Bool, true, false, Option, none, some,
  arith, length, get_elem?, Outcome, done, Returns, get_elem?-set_ne, get_elem?_lt, get_elem?-some,
}
use rarm_db.Evictor.{ClockEvictorState, evict_at, sweep, victim}
use rarm_db.Evictor.Count.{count_set_pos}
use rarm_db.Evictor.Invariant.{IsValid, Holds, removed}
use rarm_db.Evictor.Clock.{
  next_lt, distance, enough, enough-next, distance-next_ne, distance-next_mono, enough-le,
}
use rarm_db.Evictor.Sweep.{
  chance_cleared, chance_cleared-IsValid, sweep_skip, sweep_clear, sweep_evict, ne_of_flags,
}

-- Frame `f` has no second chance left.
abbrev pub IsUsed : ClockEvictorState → ℕ → Type 0
IsUsed s f = get_elem? s.second_chances f ≡ some false

-- The frame that comes out had used up its second chance, and the hand meets it no later than `j`.
abbrev Fair : ClockEvictorState → ℕ → ℕ → ClockEvictorState × Option ℕ → Type 0
Fair s i j (s', none) = ⊥
Fair s i j (s', some f) =
    (f < length s.is_in_evictor)
    × IsUsed s f
    × (distance (length s.is_in_evictor) i f ≤ distance (length s.is_in_evictor) i j)

abbrev FairWithin : ℕ → Type 0
FairWithin rounds =
    (s : ClockEvictorState) (i j : ℕ)
    → IsValid s
    → i < length s.is_in_evictor
    → Holds s j
    → IsUsed s j
    → enough (length s.is_in_evictor) i j false ≤ rounds
    → Returns (sweep rounds s i) (Fair s i j)

evict_at-Fair :
    (s : ClockEvictorState) (i j : ℕ)
    → IsValid s
    → Holds s i
    → IsUsed s i
    → Returns (evict_at s i) (Fair s i j)
unfolding evict_at
evict_at-Fair s i j v e c = (
  (record (removed s i true) { clock_hand_pos = (i + 1) % length s.is_in_evictor }, some i),
  ground (arith, count_set_pos s.is_in_evictor i e),
  (get_elem?-some s.is_in_evictor i e, c, ground arith),
)

skipped-Fair :
    (s : ClockEvictorState) (i j : ℕ)
    → i < length s.is_in_evictor
    → j < length s.is_in_evictor
    → i ≢ j
    → (r : ClockEvictorState × Option ℕ) → Fair s ((i + 1) % length s.is_in_evictor) j r
    → Fair s i j r
skipped-Fair s i j h k ne (s', none) p = p
skipped-Fair s i j h k ne (s', some f) p =
    (p.0, p.1, distance-next_mono (length s.is_in_evictor) i f j h p.0 k ne p.2)

cleared-Fair :
    (s : ClockEvictorState) (i j : ℕ)
    → i < length s.is_in_evictor
    → j < length s.is_in_evictor
    → i ≢ j
    → (r : ClockEvictorState × Option ℕ)
    → Fair (chance_cleared s i) ((i + 1) % length s.is_in_evictor) j r
    → Fair s i j r
cleared-Fair s i j h k ne (s', none) p = p
cleared-Fair s i j h k ne (s', some f) p =
    let n = length s.is_in_evictor in
    let left = distance-next_ne n i f j h k ne p.2 in
    (
      p.0,
      sym (get_elem?-set_ne s.second_chances i f false left) ∙ p.1,
      distance-next_mono n i f j h p.0 k ne p.2,
    )

-- Carrying a fair result over one round.
Returns-map :
    (m : Outcome (ClockEvictorState × Option ℕ)) (P Q : ClockEvictorState × Option ℕ → Type 0)
    → ((r : ClockEvictorState × Option ℕ) → P r → Q r)
    → Returns m P
    → Returns m Q
Returns-map m P Q f (r, e, p) = (r, e, f r p)

FairWithin-suc :
    (rounds : ℕ)
    → FairWithin rounds
    → (present chance : Bool) (s : ClockEvictorState) (i j : ℕ) → IsValid s
    → i < length s.is_in_evictor
    → get_elem? s.is_in_evictor i ≡ some present
    → get_elem? s.second_chances i ≡ some chance
    → Holds s j
    → IsUsed s j
    → enough (length s.is_in_evictor) i j false ≤ suc rounds
    → Returns (sweep (suc rounds) s i) (Fair s i j)
FairWithin-suc rounds rec false chance s i j v h e c hj cj m =
    let n = length s.is_in_evictor in
    let ne = ne_of_flags s.is_in_evictor e hj in
    let inside = get_elem?-some s.is_in_evictor j hj in
    rw (sweep_skip rounds s i e) (
      Returns-map (sweep rounds s ((i + 1) % n)) (Fair s ((i + 1) % n) j) (Fair s i j)
        (skipped-Fair s i j h inside ne)
        (rec s ((i + 1) % n) j v (next_lt i n h) hj cj
          (omega (arith, enough-next n i j false h inside ne))))
FairWithin-suc rounds rec true false s i j v h e c hj cj m =
    rw (sweep_evict rounds s i e c) (evict_at-Fair s i j v e c)
FairWithin-suc rounds rec true true s i j v h e c hj cj m =
    let n = length s.is_in_evictor in
    let inside = get_elem?-some s.is_in_evictor j hj in
    let ne : i ≢ j = (λ same. ne_of_flags s.second_chances cj c (sym same)) in
    rw (sweep_clear rounds s i e c) (
      Returns-map (sweep rounds (chance_cleared s i) ((i + 1) % n))
        (Fair (chance_cleared s i) ((i + 1) % n) j) (Fair s i j) (cleared-Fair s i j h inside ne)
        (rec (chance_cleared s i) ((i + 1) % n) j (chance_cleared-IsValid s i v) (next_lt i n h) hj
          (get_elem?-set_ne s.second_chances i j false ne ∙ cj)
          (omega (arith, enough-next n i j false h inside ne))))

sweep-Fair : (rounds : ℕ) → FairWithin rounds
sweep-Fair zero s i j v h hj cj m = absurd (omega arith)
sweep-Fair (suc rounds) s i j v h hj cj m =
    let (present, e) = get_elem?_lt s.is_in_evictor i h in
    let (chance, c) = get_elem?_lt s.second_chances i (omega arith) in
    FairWithin-suc rounds (sweep-Fair rounds) present chance s i j v h e c hj cj m

-- When some eligible frame has used up its second chance, `victim` gives a frame, and that frame
-- had used up its second chance too: a frame that still has it stays in the pool.
pub victim-IsUsed :
    (s : ClockEvictorState) (j : ℕ)
    → IsValid s
    → Holds s j
    → IsUsed s j
    → (s' : ClockEvictorState) × (f : ℕ) × (victim s ≡ done (s', some f)) × IsUsed s f
unfolding victim
victim-IsUsed s j v hj cj =
    let n = length s.is_in_evictor in
    let inside = get_elem?-some s.is_in_evictor j hj in
    result (
      sweep-Fair (n * 2) s s.clock_hand_pos j v v.hand_inside hj cj
        (enough-le n s.clock_hand_pos j false v.hand_inside inside))
  where
    result :
        Returns (victim s) (Fair s s.clock_hand_pos j)
        → (s' : ClockEvictorState) × (f : ℕ) × (victim s ≡ done (s', some f)) × IsUsed s f
    result ((s', none), e, p) = absurd p
    result ((s', some f), e, p) = (s', f, e, p.1)
