-- ===== src/Serial/Slices.antt =====
-- Slices of the vector that `serialize` returns, as `deserialize` takes them.
use rarm_db.Base.{
  ℕ, zero, suc, ◌+◌, ◌-◌, ◌*◌, ◌/◌, ◌≤◌, ◌<◌, ◌≡◌, refl, ap, ◌∙◌, ◌∷◌, take, drop, get_elem?, some,
  done, arith, le→ltb, from_le_bytes,
}
use rarm_db.Page.Buffer.{Buffer, slice}
use rarm_db.Page.Buffer.Laws.{length-slice}
use rarm_db.Page.Slotted.{sub_vec}
use rarm_db.Serial.{value}
use rarm_db.Serial.Read.{is_col_value_null, read_length}
use rarm_db.Serial.Bitmap.{bit_at}

take-slice : (b : Buffer) (off k n : ℕ) → k ≤ n → take k (slice b off n) ≡ slice b off k
unfolding slice
take-slice b off zero n h = refl
take-slice b off (suc k) zero h = absurd (omega arith)
take-slice b off (suc k) (suc n) h =
    ap (λ xs. b off ∷ xs) (take-slice b (off + 1) k n (omega arith))

drop-slice : (b : Buffer) (off k n : ℕ) → drop k (slice b off n) ≡ slice b (off + k) (n - k)
unfolding slice
drop-slice b off zero n =
    let e : off + 0 ≡ off = omega arith in let e' : n - 0 ≡ n = omega arith in rw (e, e')
drop-slice b off (suc k) zero = let e : 0 - suc k ≡ 0 = omega arith in rw e
drop-slice b off (suc k) (suc n) =
    let e : off + 1 + k ≡ off + suc k = omega arith in
    let e' : suc n - suc k ≡ n - k = omega arith in drop-slice b (off + 1) k n ∙ (rw (e, e'))

get_elem?-slice :
    (b : Buffer) (off n i : ℕ) → i < n → get_elem? (slice b off n) i ≡ some (b (off + i))
unfolding slice
get_elem?-slice b off zero i h = absurd (omega arith)
get_elem?-slice b off (suc n) zero h = let e : off + 0 ≡ off = omega arith in rw e
get_elem?-slice b off (suc n) (suc i) h =
    let e : off + 1 + i ≡ off + suc i = omega arith in
    get_elem?-slice b (off + 1) n i (omega arith) ∙ (rw e)

pub sub_vec-slice :
    (b : Buffer) (from total off n : ℕ)
    → off + n ≤ total
    → sub_vec (slice b from total) off n ≡ done (slice b (from + off) n)
unfolding sub_vec
sub_vec-slice b from total off n h = rw (
  length-slice b from total,
  le→ltb total (off + n) h,
  drop-slice b from off total,
  take-slice b (from + off) n (total - off) (omega arith),
)

pub is_col_value_null-slice :
    (b : Buffer) (nb i : ℕ) → i < 8 * nb → is_col_value_null (slice b 0 nb) i ≡ value (bit_at b i)
unfolding is_col_value_null
is_col_value_null-slice b nb i h =
    let e : 0 + i / 8 ≡ i / 8 = omega arith in rw (get_elem?-slice b 0 nb (i / 8) (omega arith), e)

pub read_length-slice :
    (b : Buffer) (total off : ℕ)
    → off + 4 ≤ total
    → read_length (slice b 0 total) off
      ≡ value (from_le_bytes (slice b off 4), slice b (off + 4) (total - off - 4))
unfolding read_length
read_length-slice b total off h =
    let e : 0 + off ≡ off = omega arith in
    rw (
      length-slice b 0 total,
      le→ltb total off (omega arith),
      drop-slice b 0 off total,
      e,
      length-slice b off (total - off),
      le→ltb (total - off) 4 (omega arith),
      take-slice b off 4 (total - off) (omega arith),
      drop-slice b off 4 (total - off),
    )
