-- ===== src/Page/Compact.antt =====
-- `compact`: the block of all records that its first loop collects.
pub mod Rewrite
pub mod Refines
use rarm_db.Base.{
  ℕ, zero, suc, ◌+◌, ◌≤◌, ◌<◌, ◌≡◌, refl, ap, sym, ◌∙◌, List, [], ◌∷◌, ◌++◌, arith, length, take,
  drop, Outcome, done, length-append, le→ltb, if◌then◌else◌, ltb, ◌>>=◌, unwrap,
}
use mathlib.Core.List.{append_assoc, append-nil}
use native.Mathlib.Decide.{ℕ_discrete}
use rarm_db.Page.Buffer.{Buffer}
use rarm_db.Page.Buffer.Laws.{length-slice}
use rarm_db.Page.Total.{total, total_mono}
use rarm_db.Page.Slotted.{collect_records, sub_vec}
use rarm_db.Page.Shape.{
  item_count, record_offset, record_size, record_at, IsSlotted, get_record_lem,
}

-- The first `n` records, one after the other.
pub block : Buffer → ℕ → List ℕ
block b zero = []
block b (suc n) = block b n ++ record_at b n

length-block : (b : Buffer) (n : ℕ) → length (block b n) ≡ total (record_size b) n
unfolding block
length-block b zero = refl
length-block b (suc n) = omega (
  arith,
  length-append (block b n) (record_at b n),
  length-block b n,
  length-slice b (record_offset b n) (record_size b n),
)

drop-append : (xs ys : List ℕ) → drop (length xs) (xs ++ ys) ≡ ys
drop-append [] ys = refl
drop-append (x ∷ xs) ys = drop-append xs ys

take-append : (xs ys : List ℕ) → take (length xs) (xs ++ ys) ≡ xs
take-append [] ys = refl
take-append (x ∷ xs) ys = ap (◌∷◌ x) (take-append xs ys)

-- A block starts with each shorter one, and the next record follows.
block_split :
    (b : Buffer) (j n : ℕ)
    → j < n
    → (rest : List ℕ) × (block b n ≡ block b j ++ (record_at b j ++ rest))
unfolding block
block_split b j zero h = absurd (omega arith)
block_split b j (suc n) h = elim (ℕ_discrete j n) [
  | yes e ↦ ([], rw (e, append-nil))
  | no ne ↦
      let (rest, p) = block_split b j n (omega arith) in
      (rest ++ record_at b n, rw p (simp append_assoc))
]

-- So each record is found in the block, at the sum of the sizes before it.
pub sub_vec-block :
    (b : Buffer) (j n : ℕ)
    → j < n
    → sub_vec (block b n) (total (record_size b) j) (record_size b j) ≡ done (record_at b j)
unfolding sub_vec
sub_vec-block b j n h =
    let (rest, p) = block_split b j n h in
    let fits : total (record_size b) j + record_size b j ≤ length (block b n) =
      omega (arith, length-block b n, total_mono (record_size b) (suc j) n h) in
    rw (le→ltb (length (block b n)) (total (record_size b) j + record_size b j) fits)
      (ap done (found rest p))
  where
    found :
        (rest : List ℕ)
        → block b n ≡ block b j ++ (record_at b j ++ rest)
        → take (record_size b j) (drop (total (record_size b) j) (block b n)) ≡ record_at b j
    found rest p =
        rw (p, ← length-block b j, drop-append (block b j) (record_at b j ++ rest))
          (rw (length-slice b (record_offset b j) (record_size b j)) at
            (take-append (record_at b j) rest))

pub collect_records-block :
    (b : Buffer) (v : IsSlotted b) (rounds i : ℕ)
    → i + rounds ≡ item_count b
    → collect_records rounds b i (block b i) ≡ done (block b (item_count b))
unfolding collect_records block
collect_records-block b v zero i e =
    let e' : i ≡ item_count b = omega arith in ap (λ t. done (block b t)) e'
collect_records-block b v (suc rounds) i e =
    let e' : i + 1 ≡ suc i = omega arith in
    rw (get_record_lem v i (omega arith), e')
      (collect_records-block b v rounds (suc i) (omega arith))
