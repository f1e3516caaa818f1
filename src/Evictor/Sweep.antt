-- ===== src/Evictor/Sweep.antt =====
-- One round of the sweep, and what the whole sweep promises of its result.
use rarm_db.Base.{
  ℕ, zero, suc, ◌+◌, ◌*◌, ◌%◌, ◌<◌, ◌≡◌, ◌≢◌, refl, ◌∙◌, Bool, true, false, List, Option, none,
  some, arith, length, get_elem?, set, Returns, length-set, get_elem?_lt,
}
use rarm_db.Evictor.{ClockEvictorState, evict_at, sweep, victim}
use rarm_db.Evictor.Count.{count_set_pos}
use rarm_db.Evictor.Invariant.{IsValid, Holds, removed, removed-IsValid}
use rarm_db.Evictor.Clock.{next_lt}

-- What `victim` promises of its result, from the state before.
abbrev pub Evicts : ClockEvictorState → ClockEvictorState × Option ℕ → Type 0
Evicts s (s', none) = IsValid s' × (s'.is_in_evictor ≡ s.is_in_evictor) × (s'.size ≡ s.size)
Evicts s (s', some f) =
    IsValid s'
    × Holds s f
    × (s'.is_in_evictor ≡ set s.is_in_evictor f false)
    × (s'.size + 1 ≡ s.size)

abbrev pub chance_cleared : ClockEvictorState → ℕ → ClockEvictorState
chance_cleared s i = record s { second_chances = set s.second_chances i false }

pub chance_cleared-IsValid :
    (s : ClockEvictorState) (i : ℕ) → IsValid s → IsValid (chance_cleared s i)
chance_cleared-IsValid s i v = record {
  same_length = length-set s.second_chances i false ∙ v.same_length;
  hand_inside = v.hand_inside;
  size_counts = v.size_counts;
}

pub evict_at-Evicts :
    (s : ClockEvictorState) (i : ℕ)
    → IsValid s
    → Holds s i
    → i < length s.is_in_evictor
    → Returns (evict_at s i) (Evicts s)
unfolding evict_at
evict_at-Evicts s i v e h = (
  (record (removed s i true) { clock_hand_pos = (i + 1) % length s.is_in_evictor }, some i),
  ground (arith, count_set_pos s.is_in_evictor i e),
  (
    record {
      same_length = w.same_length;
      hand_inside = omega (arith, length-set s.is_in_evictor i false);
      size_counts = w.size_counts;
    },
    e,
    refl,
    omega (arith, count_set_pos s.is_in_evictor i e),
  ),
)
  where
    w : IsValid (removed s i true)
    w = removed-IsValid s i true v e

pub cleared-Evicts :
    (s : ClockEvictorState) (i : ℕ) (r : ClockEvictorState × Option ℕ)
    → Evicts (chance_cleared s i) r
    → Evicts s r
cleared-Evicts s i (s', none) p = p
cleared-Evicts s i (s', some f) p = p

-- One round, by what stands under the hand.
module _ (rounds : ℕ) (s : ClockEvictorState) (i : ℕ) where
  pub sweep_skip :
      get_elem? s.is_in_evictor i ≡ some false
      → sweep (suc rounds) s i ≡ sweep rounds s ((i + 1) % length s.is_in_evictor)
  unfolding sweep
  sweep_skip e = rw (e, sweep)

  pub sweep_clear :
      Holds s i
      → get_elem? s.second_chances i ≡ some true
      → sweep (suc rounds) s i
        ≡ sweep rounds (chance_cleared s i) ((i + 1) % length s.is_in_evictor)
  unfolding sweep
  sweep_clear e c = rw (e, sweep) (rw c)

  pub sweep_evict :
      Holds s i → get_elem? s.second_chances i ≡ some false → sweep (suc rounds) s i ≡ evict_at s i
  unfolding sweep
  sweep_evict e c = rw (e, sweep) (rw c)

-- With any number of rounds the sweep returns, and keeps its promise.
pub sweep-Evicts :
    (rounds : ℕ) (s : ClockEvictorState) (i : ℕ)
    → IsValid s
    → i < length s.is_in_evictor
    → Returns (sweep rounds s i) (Evicts s)
unfolding sweep
sweep-Evicts zero s i v h = (
  (record s { clock_hand_pos = i }, none),
  refl,
  (
    record { same_length = v.same_length; hand_inside = h; size_counts = v.size_counts },
    refl,
    refl,
  ),
)
sweep-Evicts (suc rounds) s i v h =
    let (present, e) = get_elem?_lt s.is_in_evictor i h in
    let (chance, c) = get_elem?_lt s.second_chances i (omega arith) in
    step present chance e c (sweep-Evicts rounds s next v next_fits)
      (sweep-Evicts rounds (chance_cleared s i) next (chance_cleared-IsValid s i v) cleared_fits)
  where
    next : ℕ
    next = (i + 1) % length s.is_in_evictor

    next_fits : next < length s.is_in_evictor
    next_fits = next_lt i (length s.is_in_evictor) h

    cleared_fits : next < length (chance_cleared s i).is_in_evictor
    cleared_fits = next_fits

    step :
        (present chance : Bool)
        → get_elem? s.is_in_evictor i ≡ some present
        → get_elem? s.second_chances i ≡ some chance
        → Returns (sweep rounds s next) (Evicts s)
        → Returns (sweep rounds (chance_cleared s i) next) (Evicts (chance_cleared s i))
        → Returns (sweep (suc rounds) s i) (Evicts s)
    step false chance e c skipped cleared = rw (sweep_skip rounds s i e) skipped
    step true true e c skipped cleared =
        let (r, returned, p) = cleared in
        (r, sweep_clear rounds s i e c ∙ returned, cleared-Evicts s i r p)
    step true false e c skipped cleared =
        rw (sweep_evict rounds s i e c) (evict_at-Evicts s i v e h)

-- `victim` never panics on a valid state. It leaves the invariant, and either gives no frame and
-- leaves the tables of eligible frames and the size alone, or takes exactly one eligible frame out.
pub victim-Evicts : (s : ClockEvictorState) → IsValid s → Returns (victim s) (Evicts s)
unfolding victim
victim-Evicts s v = sweep-Evicts (length s.is_in_evictor * 2) s s.clock_hand_pos v v.hand_inside

pub ne_of_flags :
    (l : List Bool) {i j : ℕ} → get_elem? l i ≡ some false → get_elem? l j ≡ some true → i ≢ j
ne_of_flags l e f p = cc
