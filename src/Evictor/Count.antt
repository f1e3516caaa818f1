-- ===== src/Evictor/Count.antt =====
-- The number of set flags in a list, and what a write does to it.
use rarm_db.Base.{
  ℕ, zero, suc, ◌+◌, ◌<◌, ◌≡◌, refl, Bool, true, false, List, [], ◌∷◌, some, arith, get_elem?, set,
  replicate,
}

abbrev pub count_set : List Bool → ℕ
count_set [] = 0
count_set (true ∷ l) = suc (count_set l)
count_set (false ∷ l) = count_set l

pub count_set-replicate : (n : ℕ) → count_set (replicate n false) ≡ 0
count_set-replicate zero = refl
count_set-replicate (suc n) = count_set-replicate n

pub count_set-set-true :
    (l : List Bool) (i : ℕ)
    → get_elem? l i ≡ some false
    → count_set (set l i true) ≡ count_set l + 1
count_set-set-true [] i h = cc
count_set-set-true (true ∷ l) zero h = cc
count_set-set-true (false ∷ l) zero h = omega arith
count_set-set-true (true ∷ l) (suc i) h = omega (arith, count_set-set-true l i h)
count_set-set-true (false ∷ l) (suc i) h = count_set-set-true l i h

pub count_set-set-false :
    (l : List Bool) (i : ℕ)
    → get_elem? l i ≡ some true
    → count_set (set l i false) + 1 ≡ count_set l
count_set-set-false [] i h = cc
count_set-set-false (true ∷ l) zero h = omega arith
count_set-set-false (false ∷ l) zero h = cc
count_set-set-false (true ∷ l) (suc i) h = omega (arith, count_set-set-false l i h)
count_set-set-false (false ∷ l) (suc i) h = count_set-set-false l i h

pub count_set_pos : (l : List Bool) (i : ℕ) → get_elem? l i ≡ some true → 0 < count_set l
count_set_pos [] i h = cc
count_set_pos (true ∷ l) i h = omega arith
count_set_pos (false ∷ l) zero h = cc
count_set_pos (false ∷ l) (suc i) h = count_set_pos l i h

-- A positive count has a set flag.
pub find_set : (l : List Bool) → 0 < count_set l → (i : ℕ) × (get_elem? l i ≡ some true)
find_set [] h = absurd (omega arith)
find_set (true ∷ l) h = (0, refl)
find_set (false ∷ l) h = let (i, e) = find_set l h in (suc i, e)
