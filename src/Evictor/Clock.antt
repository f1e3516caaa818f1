-- ===== src/Evictor/Clock.antt =====
-- The clock hand: how it steps, and how many rounds bring it to a frame.
use native.Mathlib.Nat.{mod-eq_of_lt, mod_self}
use rarm_db.Base.{
  ℕ, suc, ◌+◌, ◌-◌, ◌*◌, ◌%◌, ◌≤◌, ◌<◌, ◌≡◌, ◌≢◌, Bool, true, false, arith, if◌then◌else◌, leb,
}

-- Stepping the hand cyclically.
pub next_lt : (i n : ℕ) → i < n → (i + 1) % n < n
next_lt i n h = omega arith

pub next_inside : (i n : ℕ) → i + 1 < n → (i + 1) % n ≡ i + 1
next_inside i n h = mod-eq_of_lt h

pub next_wraps : (i n : ℕ) → i + 1 ≡ n → (i + 1) % n ≡ 0
next_wraps i n e = rw e (mod_self n)

-- The rounds from hand `i` until it stands on frame `j`.
abbrev pub distance : ℕ → ℕ → ℕ → ℕ
distance n i j = if leb i j then j - i else j + n - i

pub distance-next :
    (n i j : ℕ) → i < n → j < n → i ≢ j → suc (distance n ((i + 1) % n) j) ≡ distance n i j
distance-next n i j h k ne = ground (arith, next_inside i n, next_wraps i n)

pub distance-next_self : (n i : ℕ) → i < n → suc (distance n ((i + 1) % n) i) ≡ n
distance-next_self n i h = ground (arith, next_inside i n, next_wraps i n)

-- Rounds that are surely enough to evict: until the hand reaches frame `j`, and once more round
-- the clock if `j` still has its second chance.
abbrev pub enough : ℕ → ℕ → ℕ → Bool → ℕ
enough n i j true = suc (distance n i j + n)
enough n i j false = suc (distance n i j)

pub enough-next :
    (n i j : ℕ) (chance : Bool)
    → i < n
    → j < n
    → i ≢ j
    → suc (enough n ((i + 1) % n) j chance) ≡ enough n i j chance
enough-next n i j true h k ne = omega (arith, distance-next n i j h k ne)
enough-next n i j false h k ne = omega (arith, distance-next n i j h k ne)

pub enough-next_self : (n i : ℕ) → i < n → suc (enough n ((i + 1) % n) i false) ≤ enough n i i true
enough-next_self n i h = omega (arith, distance-next_self n i h)

pub enough_at :
    (n i j r : ℕ) (chance : Bool)
    → i ≡ j
    → chance ≡ true
    → enough n i j chance ≤ r
    → enough n i i true ≤ r
enough_at n i j r true e t m = rw (← e) at m
enough_at n i j r false e t m = cc

pub enough-le : (n i j : ℕ) (chance : Bool) → i < n → j < n → enough n i j chance ≤ n * 2
enough-le n i j true h k = ground arith
enough-le n i j false h k = ground arith

pub distance_lt : (n i j : ℕ) → i < n → j < n → distance n i j < n
distance_lt n i j h k = ground arith

-- A frame met no later than `j` from the next position is not the one just left.
pub distance-next_ne :
    (n i f j : ℕ)
    → i < n
    → j < n
    → i ≢ j
    → distance n ((i + 1) % n) f ≤ distance n ((i + 1) % n) j
    → i ≢ f
distance-next_ne n i f j h k ne p same =
    let p' : distance n ((i + 1) % n) i ≤ distance n ((i + 1) % n) j = rw (← same) at p in
    omega (arith, distance-next_self n i h, distance-next n i j h k ne, distance_lt n i j h k)

pub distance-next_mono :
    (n i f j : ℕ)
    → i < n
    → f < n
    → j < n
    → i ≢ j
    → distance n ((i + 1) % n) f ≤ distance n ((i + 1) % n) j
    → distance n i f ≤ distance n i j
distance-next_mono n i f j h hf k ne p = omega (
  arith,
  distance-next n i j h k ne,
  distance-next n i f h hf (distance-next_ne n i f j h k ne p),
)
