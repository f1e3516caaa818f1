-- ===== src/Leaf/Split/Index.antt =====
-- Where `find_split_index_by_size` cuts the records.
use rarm_db.Base.{
  ℕ, suc, ◌+◌, ◌-◌, ◌/◌, ◌≤◌, ◌<◌, ◌≡◌, refl, subst, List, [], ◌∷◌, length, take, lt→ltb, le→ltb,
  arith, ◌⊎◌, inl, inr,
}
use native.Mathlib.Decide.{dec_lt}
use rarm_db.Leaf.Split.{split_from, find_split_index_by_size}

-- The size of the records in bytes.
abbrev pub sizes : List (List ℕ) → ℕ
sizes [] = 0
sizes (r ∷ records) = length r + sizes records

-- The records before `i` take at most `half` bytes, and with the one at `i` they take more, unless
-- there is none.
abbrev pub IsCut : List (List ℕ) → ℕ → ℕ → Type 0
IsCut records half i =
    (i ≤ length records)
    × (sizes (take i records) ≤ half)
    × ((i ≡ length records) ⊎ ((i < length records) × (half < sizes (take (suc i) records))))

split_from-IsCut :
    (records : List (List ℕ)) (half current index : ℕ)
    → current ≤ half
    → (i : ℕ) × (split_from records half current index ≡ index + i)
      × IsCut records (half - current) i
unfolding split_from
split_from-IsCut [] half current index h = (0, omega arith, (omega arith, omega arith, inl refl))
split_from-IsCut (r ∷ records) half current index h = elim (dec_lt half (current + length r)) [
  | yes p ↦ (
    0,
    rw (lt→ltb half (current + length r) p) (omega arith),
    (omega arith, omega arith, inr (omega arith, omega arith)),
  )
  | no p ↦
      let (i, e, (fits, low, next)) =
        split_from-IsCut records half (current + length r) (index + 1) (omega arith) in
      (
        suc i,
        rw (le→ltb half (current + length r) (omega arith)) (omega (arith, e)),
        (
          omega arith,
          omega arith,
          elim next [ inl q ↦ inl (omega arith) | inr q ↦ inr (omega arith, omega arith) ],
        ),
      )
]

-- The index that `find_split_index_by_size` gives is the largest such that the records before it
-- take at most half of the given total: one more record takes them over the half, unless there is
-- no further record.
pub find_split_index_by_size-IsCut :
    (records : List (List ℕ)) (total_size : ℕ)
    → IsCut records (total_size / 2) (find_split_index_by_size records total_size)
unfolding find_split_index_by_size
find_split_index_by_size-IsCut records total_size =
    let half = total_size / 2 in
    let (i, e, cut) = split_from-IsCut records half 0 0 (omega arith) in
    let at : 0 + i ≡ i = omega arith in
    let whole : half - 0 ≡ half = omega arith in
    rw (e, at) (subst (λ h. IsCut records h i) whole cut)
