-- ===== src/Evictor.antt =====
-- crates/storage/src/evictor.rs: the clock evictor. The mutex makes each method one step on the
-- state; an index out of bounds panics.
pub mod Count
pub mod Invariant
pub mod Clock
pub mod Sweep
pub mod Victim
pub mod SecondChance
use rarm_db.Base.{
  ℕ, zero, suc, ◌+◌, ◌*◌, ◌%◌, Bool, true, false, List, Option, none, some, if◌then◌else◌, length,
  get_elem?, set, replicate, Outcome, done, panic, ◌>>=◌, unwrap, checked_sub,
}

pub record ClockEvictorState : Type 0 where
  pub clock_hand_pos : ℕ
  pub second_chances : List Bool
  pub is_in_evictor : List Bool
  pub size : ℕ

unfoldable pub new : ℕ → ClockEvictorState
new pool_size = record {
  clock_hand_pos = 0;
  second_chances = replicate pool_size false;
  is_in_evictor = replicate pool_size false;
  size = 0;
}

-- `v[i]` and `v[i] = b`.
abbrev pub read_flag : List Bool → ℕ → Outcome Bool
read_flag v i = unwrap (get_elem? v i)

abbrev pub write_flag : List Bool → ℕ → Bool → Outcome (List Bool)
write_flag v i b = read_flag v i >>= λ _. done (set v i b)

unfoldable pub add : ClockEvictorState → ℕ → Outcome ClockEvictorState
add s frame_id = do
  present ← read_flag s.is_in_evictor frame_id
  let s' =
      if present
      then s
      else record s { is_in_evictor = set s.is_in_evictor frame_id true; size = s.size + 1 }
  chances ← write_flag s'.second_chances frame_id true
  done (record s' { second_chances = chances })

unfoldable pub remove : ClockEvictorState → ℕ → Outcome ClockEvictorState
remove s frame_id = do
  present ← read_flag s.is_in_evictor frame_id
  if present
      then (checked_sub s.size 1 >>= λ size'.
          done (record s { is_in_evictor = set s.is_in_evictor frame_id false; size = size' }))
      else done s

-- What `victim` does to the frame under the hand when its second chance is used up.
unfoldable pub evict_at : ClockEvictorState → ℕ → Outcome (ClockEvictorState × Option ℕ)
evict_at s i = do
  size' ← checked_sub s.size 1
  done (
    record s {
      is_in_evictor = set s.is_in_evictor i false;
      size = size';
      clock_hand_pos = (i + 1) % length s.is_in_evictor;
    },
    some i,
  )

-- The loop of `victim`, on the rounds left; `i` is the hand.
unfoldable pub sweep : ℕ → ClockEvictorState → ℕ → Outcome (ClockEvictorState × Option ℕ)
sweep zero s i = done (record s { clock_hand_pos = i }, none)
sweep (suc rounds) s i = elim (get_elem? s.is_in_evictor i) [
  | none ↦ panic
  | some false ↦ sweep rounds s ((i + 1) % length s.is_in_evictor)
  | some true ↦ elim (get_elem? s.second_chances i) [
    | none ↦ panic
    | some false ↦ evict_at s i
    | some true ↦
        sweep rounds (record s { second_chances = set s.second_chances i false })
          ((i + 1) % length s.is_in_evictor)
  ]
]

unfoldable pub victim : ClockEvictorState → Outcome (ClockEvictorState × Option ℕ)
victim s = sweep (length s.is_in_evictor * 2) s s.clock_hand_pos
