-- ===== src/Value/Order.antt =====
-- The order of keys (crates/data_model/src): `Key` and `DataValue` derive it, `OrderedFloat` has its
-- own. The order of decimals is that of the crate rust_decimal: a parameter.
use Prim.Native.Nat.{Ordering, compare}
use rarm_db.Base.{
  ℕ, ◌+◌, ◌-◌, ◌*◌, ◌%◌, ◌^◌, ◌≡◌, refl, ap, sym, ◌∙◌, List, [], ◌∷◌, Bool, true, false, ltb,
  if◌then◌else◌, arith,
}
use rarm_db.Value.{
  Decimals, Value, null_value, int_value, big_int_value, boolean_value, float_value, text_value,
  blob_value, date_time_value, decimal_value,
}

abbrev pub reverse : Ordering → Ordering
reverse Ordering.lt = Ordering.gt
reverse Ordering.eq = Ordering.eq
reverse Ordering.gt = Ordering.lt

-- `Ordering::then`.
abbrev pub then_cmp : Ordering → Ordering → Ordering
then_cmp Ordering.lt y = Ordering.lt
then_cmp Ordering.eq y = y
then_cmp Ordering.gt y = Ordering.gt

-- A total order, up to an equality that it respects.
pub record IsOrder {A : Type 0} (cmp : A → A → Ordering) : Type 0 where
  pub flips : (a b : A) → cmp b a ≡ reverse (cmp a b)
  pub same : (a b d : A) → cmp a b ≡ Ordering.eq → cmp b d ≡ cmp a d
  pub chains : (a b d : A) → cmp a b ≡ Ordering.lt → cmp b d ≡ Ordering.lt → cmp a d ≡ Ordering.lt

compare-IsOrder : IsOrder compare
compare-IsOrder = record {
  flips = λ a b. flips_compare a b;
  same = λ a b d h. ground arith;
  chains = λ a b d h k. ground arith;
}
  where
    flips_compare : (a b : ℕ) → compare b a ≡ reverse (compare a b)
    flips_compare a b = ground arith

flips_then : (x y : Ordering) → reverse (then_cmp x y) ≡ then_cmp (reverse x) (reverse y)
flips_then Ordering.lt y = refl
flips_then Ordering.eq y = refl
flips_then Ordering.gt y = refl

pub eq_right :
    {A : Type 0} {cmp : A → A → Ordering}
    → IsOrder cmp
    → (a b d : A) → cmp b d ≡ Ordering.eq
    → cmp a b ≡ cmp a d
eq_right {cmp = cmp} o a b d e =
    o.flips b a ∙ ap reverse (o.same d b a (o.flips b d ∙ ap reverse e) ∙ refl) ∙ sym (o.flips d a)

-- The three comparisons of a chain, when the first parts are of an order and the second parts are.
chains_then :
    (x y z x' y' z' : Ordering)
    → (x ≡ Ordering.eq → y ≡ z)
    → (y ≡ Ordering.eq → x ≡ z)
    → (x ≡ Ordering.lt → y ≡ Ordering.lt → z ≡ Ordering.lt)
    → (x' ≡ Ordering.lt → y' ≡ Ordering.lt → z' ≡ Ordering.lt)
    → then_cmp x x' ≡ Ordering.lt
    → then_cmp y y' ≡ Ordering.lt
    → then_cmp z z' ≡ Ordering.lt
chains_then Ordering.lt Ordering.lt z x' y' z' l r c c' h k = rw (c refl refl)
chains_then Ordering.lt Ordering.eq z x' y' z' l r c c' h k = rw (← r refl)
chains_then Ordering.lt Ordering.gt z x' y' z' l r c c' h k = cc
chains_then Ordering.eq Ordering.lt z x' y' z' l r c c' h k = rw (← l refl)
chains_then Ordering.eq Ordering.eq z x' y' z' l r c c' h k = rw (← l refl) (c' h k)
chains_then Ordering.eq Ordering.gt z x' y' z' l r c c' h k = cc
chains_then Ordering.gt y z x' y' z' l r c c' h k = cc

same_then :
    (x y z x' y' z' : Ordering)
    → (x ≡ Ordering.eq → y ≡ z)
    → (x' ≡ Ordering.eq → y' ≡ z')
    → then_cmp x x' ≡ Ordering.eq
    → then_cmp y y' ≡ then_cmp z z'
same_then Ordering.lt y z x' y' z' l l' h = cc
same_then Ordering.eq y z x' y' z' l l' h = rw (l refl, l' h)
same_then Ordering.gt y z x' y' z' l l' h = cc

-- Slices: by their first elements that differ, and else the shorter one is less.
unfoldable pub list_cmp : {A : Type 0} → (A → A → Ordering) → List A → List A → Ordering
list_cmp cmp [] [] = Ordering.eq
list_cmp cmp [] (y ∷ ys) = Ordering.lt
list_cmp cmp (x ∷ xs) [] = Ordering.gt
list_cmp cmp (x ∷ xs) (y ∷ ys) = then_cmp (cmp x y) (list_cmp cmp xs ys)

list_cmp-IsOrder : {A : Type 0} (cmp : A → A → Ordering) → IsOrder cmp → IsOrder (list_cmp cmp)
unfolding list_cmp
list_cmp-IsOrder {A} cmp o = record { flips = flips; same = same; chains = chains }
  where
    flips : (a b : List A) → list_cmp cmp b a ≡ reverse (list_cmp cmp a b)
    flips [] [] = refl
    flips [] (y ∷ ys) = refl
    flips (x ∷ xs) [] = refl
    flips (x ∷ xs) (y ∷ ys) =
        rw (o.flips x y, flips xs ys) (sym (flips_then (cmp x y) (list_cmp cmp xs ys)))

    same : (a b d : List A) → list_cmp cmp a b ≡ Ordering.eq → list_cmp cmp b d ≡ list_cmp cmp a d
    same [] [] d h = refl
    same [] (y ∷ ys) d h = cc
    same (x ∷ xs) [] d h = cc
    same (x ∷ xs) (y ∷ ys) [] h = refl
    same (x ∷ xs) (y ∷ ys) (z ∷ zs) h =
        same_then (cmp x y) (cmp y z) (cmp x z) (list_cmp cmp xs ys) (list_cmp cmp ys zs)
          (list_cmp cmp xs zs) (o.same x y z) (same xs ys zs) h

    chains :
        (a b d : List A)
        → list_cmp cmp a b ≡ Ordering.lt
        → list_cmp cmp b d ≡ Ordering.lt
        → list_cmp cmp a d ≡ Ordering.lt
    chains [] [] d h k = cc
    chains [] (y ∷ ys) [] h k = cc
    chains [] (y ∷ ys) (z ∷ zs) h k = refl
    chains (x ∷ xs) [] d h k = cc
    chains (x ∷ xs) (y ∷ ys) [] h k = cc
    chains (x ∷ xs) (y ∷ ys) (z ∷ zs) h k =
        chains_then (cmp x y) (cmp y z) (cmp x z) (list_cmp cmp xs ys) (list_cmp cmp ys zs)
          (list_cmp cmp xs zs) (o.same x y z) (eq_right o x y z) (o.chains x y z) (chains xs ys zs)
          h k

abbrev pub bool_rank : Bool → ℕ
bool_rank false = 0
bool_rank true = 1

-- The place of an `f64` by its bits, as `OrderedFloat` compares: the NaNs are equal and above all
-- others, and the two zeros are equal.
abbrev pub float_rank : ℕ → ℕ
float_rank n =
    let magnitude = n % 2 ^ 63 in
    if ltb (2047 * 2 ^ 52) magnitude
    then 2 ^ 64
    else if ltb n (2 ^ 63)
    then 2 ^ 63 + magnitude
    else 2 ^ 63 - magnitude

module _ (d : Decimals) (decimal_cmp : d.Decimal → d.Decimal → Ordering) where
  -- What the derived order compares first: the place of the constructor, then what it holds; a
  -- signed word by its distance from the least one.
  unfoldable pub value_rank : Value d → List ℕ
  value_rank null_value = 0 ∷ []
  value_rank (int_value n) = 1 ∷ (n + 2 ^ 31) % 2 ^ 32 ∷ []
  value_rank (big_int_value n) = 2 ∷ (n + 2 ^ 63) % 2 ^ 64 ∷ []
  value_rank (boolean_value b) = 3 ∷ bool_rank b ∷ []
  value_rank (float_value n) = 4 ∷ float_rank n ∷ []
  value_rank (text_value bytes) = 5 ∷ bytes
  value_rank (blob_value bytes) = 6 ∷ bytes
  value_rank (date_time_value n) = 7 ∷ (n + 2 ^ 63) % 2 ^ 64 ∷ []
  value_rank (decimal_value v) = 8 ∷ []

  abbrev pub decimals_in : Value d → List d.Decimal
  decimals_in (decimal_value v) = v ∷ []
  decimals_in v = []

  -- `DataValue::cmp` and `Key::cmp`.
  unfoldable pub value_cmp : Value d → Value d → Ordering
  value_cmp v w =
      then_cmp (list_cmp compare (value_rank v) (value_rank w))
        (list_cmp decimal_cmp (decimals_in v) (decimals_in w))

  abbrev pub key_cmp : List (Value d) → List (Value d) → Ordering
  key_cmp = list_cmp value_cmp

  value_cmp-IsOrder : IsOrder decimal_cmp → IsOrder value_cmp
  unfolding value_cmp
  value_cmp-IsOrder o =
      let ranks = list_cmp-IsOrder compare compare-IsOrder in
      let decimals = list_cmp-IsOrder decimal_cmp o in
      record {
        flips = λ v w.
            rw
              (
                ranks.flips (value_rank v) (value_rank w),
                decimals.flips (decimals_in v) (decimals_in w),
              )
              (sym (
                flips_then (list_cmp compare (value_rank v) (value_rank w))
                  (list_cmp decimal_cmp (decimals_in v) (decimals_in w))));
        same = λ v w u h.
            same_then (list_cmp compare (value_rank v) (value_rank w))
              (list_cmp compare (value_rank w) (value_rank u))
              (list_cmp compare (value_rank v) (value_rank u))
              (list_cmp decimal_cmp (decimals_in v) (decimals_in w))
              (list_cmp decimal_cmp (decimals_in w) (decimals_in u))
              (list_cmp decimal_cmp (decimals_in v) (decimals_in u))
              (ranks.same (value_rank v) (value_rank w) (value_rank u))
              (decimals.same (decimals_in v) (decimals_in w) (decimals_in u)) h;
        chains = λ v w u h k.
            chains_then (list_cmp compare (value_rank v) (value_rank w))
              (list_cmp compare (value_rank w) (value_rank u))
              (list_cmp compare (value_rank v) (value_rank u))
              (list_cmp decimal_cmp (decimals_in v) (decimals_in w))
              (list_cmp decimal_cmp (decimals_in w) (decimals_in u))
              (list_cmp decimal_cmp (decimals_in v) (decimals_in u))
              (ranks.same (value_rank v) (value_rank w) (value_rank u))
              (eq_right ranks (value_rank v) (value_rank w) (value_rank u))
              (ranks.chains (value_rank v) (value_rank w) (value_rank u))
              (decimals.chains (decimals_in v) (decimals_in w) (decimals_in u)) h k;
      }

  pub key_cmp-IsOrder : IsOrder decimal_cmp → IsOrder key_cmp
  key_cmp-IsOrder o = list_cmp-IsOrder value_cmp (value_cmp-IsOrder o)
