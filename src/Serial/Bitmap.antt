-- ===== src/Serial/Bitmap.antt =====
-- The bits of the null bitmap: what setting one does to the others.
use Prim.Native.Nat.{bit_and, bit_or}
use rarm_db.Base.{
  ℕ, zero, suc, ◌-◌, ◌/◌, ◌%◌, ◌^◌, ◌<◌, ◌≡◌, ◌≢◌, refl, sym, [], ◌∷◌, Bool, true, false, not, ◌&&◌,
  ◌||◌, ltb, ◌==◌, arith, eq→==, ne→==, ltb→lt, Bool-cases, inl, inr, if◌then◌else◌,
}
use native.Mathlib.Decide.{ℕ_discrete}
use rarm_db.Page.Buffer.{Buffer, overlay}
use rarm_db.Page.Buffer.Laws.{overlay_outside, overlay_inside}

abbrev pub bit_test : ℕ → ℕ → Bool
bit_test byte k = not (bit_and byte (2 ^ k) == 0)

-- The bit of column `i`.
abbrev pub bit_at : Buffer → ℕ → Bool
bit_at b i = bit_test (b (i / 8)) (i % 8)

abbrev same : Bool → Bool → Bool
same true b = b
same false b = not b

-- A test of bytes or of bits that passes for each number under a limit.
module _ (test : ℕ → Bool) where
  passes : ℕ → Bool
  passes zero = true
  passes (suc limit) = let rest = passes limit in if test limit then rest else false

  passes_lem : (limit : ℕ) → passes limit ≡ true → (i : ℕ) → i < limit → test i ≡ true
  unfolding passes
  passes_lem zero h i k = absurd (omega arith)
  passes_lem (suc limit) h i k = elim (Bool-cases (test limit)) [
    | inl here ↦ elim (ℕ_discrete i limit) [
      | yes e ↦ rw e here
      | no n ↦ passes_lem limit (rw here at h) i (omega arith)
    ]
    | inr fails ↦ let never : false ≡ true = rw fails at h in cc
  ]

-- Setting bit `k` of a byte, seen at bit `j`.
abbrev set_at : ℕ → ℕ → ℕ → Bool
set_at byte k j =
    ltb (bit_or byte (2 ^ k)) 256
    && same (bit_test (bit_or byte (2 ^ k)) j) (bit_test byte j || k == j)

set_table : passes (λ byte. passes (λ k. passes (set_at byte k) 8) 8) 256 ≡ true
unfolding passes
set_table = refl

set_at_lem : (byte k j : ℕ) → byte < 256 → k < 8 → j < 8 → set_at byte k j ≡ true
set_at_lem byte k j hb hk hj =
    let at_byte =
      passes_lem (λ byte. passes (λ k. passes (set_at byte k) 8) 8) 256 set_table byte hb in
    let at_bit = passes_lem (λ k. passes (set_at byte k) 8) 8 at_byte k hk in
    passes_lem (set_at byte k) 8 at_bit j hj

and_true : (a b : Bool) → (a && b) ≡ true → (a ≡ true) × (b ≡ true)
and_true true b h = (refl, h)
and_true false b h = cc

same-true : (a b : Bool) → same a b ≡ true → a ≡ b
same-true true b h = sym h
same-true false true h = cc
same-true false false h = refl

bit_or_lt : (byte k : ℕ) → byte < 256 → k < 8 → bit_or byte (2 ^ k) < 256
bit_or_lt byte k hb hk =
    ltb→lt (bit_or byte (2 ^ k)) 256
      (and_true (ltb (bit_or byte (2 ^ k)) 256)
        (same (bit_test (bit_or byte (2 ^ k)) 0) (bit_test byte 0 || k == 0))
        (set_at_lem byte k 0 hb hk (omega arith))).0

bit_test-bit_or :
    (byte k j : ℕ)
    → byte < 256
    → k < 8
    → j < 8
    → bit_test (bit_or byte (2 ^ k)) j ≡ (bit_test byte j || k == j)
bit_test-bit_or byte k j hb hk hj =
    same-true (bit_test (bit_or byte (2 ^ k)) j) (bit_test byte j || k == j)
      (and_true (ltb (bit_or byte (2 ^ k)) 256)
        (same (bit_test (bit_or byte (2 ^ k)) j) (bit_test byte j || k == j))
        (set_at_lem byte k j hb hk hj)).1

-- The buffer with the bit of column `i` set.
abbrev pub with_null : Buffer → ℕ → Buffer
with_null b i = overlay b (i / 8) (bit_or (b (i / 8)) (2 ^ (i % 8)) ∷ [])

module _ (b : Buffer) (i : ℕ) where
  pub with_null_outside : (q : ℕ) → q ≢ i / 8 → with_null b i q ≡ b q
  with_null_outside q n =
      overlay_outside b (i / 8) (bit_or (b (i / 8)) (2 ^ (i % 8)) ∷ []) q (omega arith)

  with_null_inside : with_null b i (i / 8) ≡ bit_or (b (i / 8)) (2 ^ (i % 8))
  with_null_inside =
      let first : i / 8 - i / 8 ≡ 0 = omega arith in
      rw first at (
        overlay_inside b (i / 8) (bit_or (b (i / 8)) (2 ^ (i % 8)) ∷ []) (i / 8) (omega arith)
          (omega arith))

  pub with_null_lt : (q : ℕ) → b (i / 8) < 256 → b q < 256 → with_null b i q < 256
  with_null_lt q h k = elim (ℕ_discrete q (i / 8)) [
    | yes e ↦ rw (e, with_null_inside) (bit_or_lt (b (i / 8)) (i % 8) h (omega arith))
    | no n ↦ rw (with_null_outside q n) k
  ]

  pub bit_at-with_null_self : b (i / 8) < 256 → bit_at (with_null b i) i ≡ true
  bit_at-with_null_self h =
      rw
        (
          with_null_inside,
          bit_test-bit_or (b (i / 8)) (i % 8) (i % 8) h (omega arith) (omega arith),
          eq→== (i % 8) (i % 8) refl,
        )
        (ground arith)

  pub bit_at-with_null_ne :
      (j : ℕ) → j ≢ i → b (i / 8) < 256 → bit_at (with_null b i) j ≡ bit_at b j
  bit_at-with_null_ne j n h = elim (ℕ_discrete (j / 8) (i / 8)) [
    | yes e ↦
        let apart : i % 8 ≢ j % 8 = omega arith in
        rw
          (
            e,
            with_null_inside,
            bit_test-bit_or (b (i / 8)) (i % 8) (j % 8) h (omega arith) (omega arith),
            ne→== (i % 8) (j % 8) apart,
          )
          (ground arith)
    | no n' ↦ rw (with_null_outside (j / 8) n')
  ]

clear_table : passes (λ k. not (bit_test 0 k)) 8 ≡ true
unfolding passes
clear_table = refl

not-true : (b : Bool) → not b ≡ true → b ≡ false
not-true true h = cc
not-true false h = refl

pub bit_at_zero : (i : ℕ) → bit_at (λ j. 0) i ≡ false
bit_at_zero i =
    not-true (bit_test 0 (i % 8))
      (passes_lem (λ k. not (bit_test 0 k)) 8 clear_table (i % 8) (omega arith))
