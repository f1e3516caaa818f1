-- ===== src/Page/Total.antt =====
-- Sums of the first values of a function, and what inserting, removing or replacing one does.
use native.Mathlib.Decide.{ℕ_discrete}
use rarm_db.Base.{ℕ, zero, suc, ◌+◌, ◌≤◌, ◌<◌, ◌≡◌, ◌≢◌, refl, arith, ap}

abbrev pub total : (ℕ → ℕ) → ℕ → ℕ
total f zero = 0
total f (suc n) = total f n + f n

pub total-cong : (f g : ℕ → ℕ) (n : ℕ) → ((k : ℕ) → k < n → f k ≡ g k) → total f n ≡ total g n
total-cong f g zero h = refl
total-cong f g (suc n) h =
    omega (arith, total-cong f g n (λ k hk. h k (omega arith)), h n (omega arith))

-- `g` is `f` with `v` inserted at `i`.
pub record Inserts (f g : ℕ → ℕ) (n i v : ℕ) : Type 0 where
  pub within : i ≤ n
  pub before : (k : ℕ) → k < i → g k ≡ f k
  pub here : g i ≡ v
  pub after : (k : ℕ) → i ≤ k → k < n → g (suc k) ≡ f k

pub total_insert : (f g : ℕ → ℕ) (n i v : ℕ) → Inserts f g n i v → total g (suc n) ≡ total f n + v
total_insert f g zero i v h =
    let e : i ≡ 0 = omega (arith, h.within) in let e' : g 0 ≡ v = rw e at h.here in omega arith
total_insert f g (suc n) i v h = elim (ℕ_discrete i (suc n)) [
  | yes e ↦
      let here : g (suc n) ≡ v = rw e at h.here in
      omega (arith, total-cong g f (suc n) (λ k hk. h.before k (omega arith)))
  | no ne ↦
      let within : i ≤ n = omega (arith, h.within) in
      omega (
        arith,
        total_insert f g n i v (record {
          within = within;
          before = h.before;
          here = h.here;
          after = λ k p q. h.after k p (omega arith);
        }),
        h.after n within (omega arith),
      )
]

pub total_replace :
    (f g : ℕ → ℕ) (n i v : ℕ)
    → i < n
    → g i ≡ v
    → ((k : ℕ) → k < n → k ≢ i → g k ≡ f k)
    → total g n + f i ≡ total f n + v
total_replace f g zero i v h here others = absurd (omega arith)
total_replace f g (suc n) i v h here others = elim (ℕ_discrete i n) [
  | yes e ↦
      let e' : f i ≡ f n = ap f e in
      let e'' : g i ≡ g n = ap g e in
      omega (arith, total-cong g f n (λ k hk. others k (omega arith) (omega arith)))
  | no ne ↦ omega (
    arith,
    total_replace f g n i v (omega arith) here (λ k hk n'. others k (omega arith) n'),
    others n (omega arith) (omega arith),
  )
]

pub total_mono : (f : ℕ → ℕ) (m n : ℕ) → m ≤ n → total f m ≤ total f n
total_mono f m zero h = let e : m ≡ 0 = omega arith in rw e (omega arith)
total_mono f m (suc n) h = elim (ℕ_discrete m (suc n)) [
  | yes e ↦ rw e (omega arith)
  | no ne ↦ omega (arith, total_mono f m n (omega arith))
]

pub le-total : (f : ℕ → ℕ) (i n : ℕ) → i < n → f i ≤ total f n
le-total f i n h = omega (arith, total_mono f (suc i) n h)
