-- ===== src/Leaf/Search.antt =====
-- crates/storage/src/btree/ops.rs: `find_key`, the binary search of a leaf, and what it finds on a
-- page whose keys ascend.
use Prim.Native.Nat.{Ordering}
use rarm_db.Base.{
  ℕ, zero, suc, ◌+◌, ◌-◌, ◌/◌, ◌≤◌, ◌<◌, ◌≡◌, refl, if◌then◌else◌, ltb, true, false, arith, Outcome,
  done, panic, ◌>>=◌, unwrap, Returns, lt→ltb, le→ltb, ◌⊎◌, inl, inr,
}
use native.Mathlib.Decide.{dec_lt, ℕ_discrete}
use rarm_db.Page.Buffer.{Buffer}
use rarm_db.Page.Slotted.{get_item_count, get_record}
use rarm_db.Page.Shape.{item_count, get_item_count_lem}
use rarm_db.Leaf.Codec.{Codec, IsLawful}

abbrev compared : (o : Ordering) → (o ≡ Ordering.lt) ⊎ ((o ≡ Ordering.eq) ⊎ (o ≡ Ordering.gt))
compared Ordering.lt = inl refl
compared Ordering.eq = inr (inl refl)
compared Ordering.gt = inr (inr refl)

-- `Ok(index)` and `Err(index)` of the source; `out_of_rounds` is never returned.
pub data Found : Type 0 where
  found : ℕ → Found
  insertion : ℕ → Found
  out_of_rounds : Found

module _ (c : Codec) where
  -- The key of the record at a slot.
  unfoldable pub key_at : Buffer → ℕ → Outcome c.Key
  key_at b i = do
    record_data ← get_record b i
    bytes ← unwrap record_data
    c.deserialize_primary_key bytes

  -- The `while` loop, on as many rounds as there are items.
  unfoldable pub search : ℕ → Buffer → c.Key → ℕ → ℕ → Outcome Found
  search zero b key low high = done (if ltb low high then out_of_rounds else insertion low)
  search (suc rounds) b key low high = elim (ltb low high) [
    | false ↦ done (insertion low)
    | true ↦ elim (key_at b (low + (high - low) / 2)) [
      | panic ↦ panic
      | done mid_point_key ↦ elim (c.key_cmp key mid_point_key) [
        | Ordering.eq ↦ done (found (low + (high - low) / 2))
        | Ordering.gt ↦ search rounds b key (low + (high - low) / 2 + 1) high
        | Ordering.lt ↦ search rounds b key low (low + (high - low) / 2)
      ]
    ]
  ]

  unfoldable pub find_key : Buffer → c.Key → Outcome Found
  find_key b key = do item_count ← get_item_count b; search item_count b key 0 item_count

  -- The records of the page hold the keys `keys`, in ascending order.
  pub record IsSorted (b : Buffer) (keys : ℕ → c.Key) : Type 0 where
    pub held : (i : ℕ) → i < item_count b → key_at b i ≡ done (keys i)
    pub ascending : (i j : ℕ) → i < j → j < item_count b → c.key_cmp (keys i) (keys j) ≡ Ordering.lt

  -- The index of the key, or the index that parts the smaller keys from the larger.
  abbrev pub Locates : ℕ → (ℕ → c.Key) → c.Key → Found → Type 0
  Locates n keys key (found i) = (i < n) × (c.key_cmp key (keys i) ≡ Ordering.eq)
  Locates n keys key (insertion i) =
      (i ≤ n)
      × ((j : ℕ) → j < i → c.key_cmp key (keys j) ≡ Ordering.gt)
      × ((j : ℕ) → i ≤ j → j < n → c.key_cmp key (keys j) ≡ Ordering.lt)
  Locates n keys key out_of_rounds = ⊥

  module _ (laws : IsLawful c) (b : Buffer) (keys : ℕ → c.Key) (s : IsSorted b keys)
      (key : c.Key) where
    abbrev n : ℕ
    n = item_count b

    -- Keys below a smaller one are smaller, and keys above a larger one are larger.
    below :
        (m : ℕ)
        → m < n
        → c.key_cmp key (keys m) ≡ Ordering.gt
        → (j : ℕ) → j < suc m
        → c.key_cmp key (keys j) ≡ Ordering.gt
    below m h e j k = elim (ℕ_discrete j m) [
      | yes same ↦ rw same e
      | no ne ↦ laws.cmp_flip_lt (keys j) key (
          laws.cmp_trans (keys j) (keys m) key (s.ascending j m (omega arith) h)
            (laws.cmp_flip key (keys m) e))
    ]

    over :
        (m : ℕ)
        → m < n
        → c.key_cmp key (keys m) ≡ Ordering.lt
        → (j : ℕ) → m ≤ j
        → j < n
        → c.key_cmp key (keys j) ≡ Ordering.lt
    over m h e j k l = elim (ℕ_discrete j m) [
      | yes same ↦ rw same e
      | no ne ↦ laws.cmp_trans key (keys m) (keys j) e (s.ascending m j (omega arith) l)
    ]

    search-Locates :
        (rounds low high : ℕ)
        → high ≤ n
        → low ≤ high
        → high - low ≤ rounds
        → ((j : ℕ) → j < low → c.key_cmp key (keys j) ≡ Ordering.gt)
        → ((j : ℕ) → high ≤ j → j < n → c.key_cmp key (keys j) ≡ Ordering.lt)
        → Returns (search rounds b key low high) (Locates n keys key)
    unfolding search
    search-Locates zero low high h k m lo hi = (
      insertion low,
      rw (search, le→ltb low high (omega arith)),
      (omega arith, lo, λ j p q. hi j (omega arith) q),
    )
    search-Locates (suc rounds) low high h k m lo hi = elim (dec_lt low high) [
      | no q ↦ (
        insertion low,
        rw (search, le→ltb low high (omega arith)),
        (omega arith, lo, λ j p q'. hi j (omega arith) q'),
      )
      | yes p ↦
          let mid = low + (high - low) / 2 in
          let below_high : mid < high = omega arith in
          let inside : mid < n = omega arith in
          elim (compared (c.key_cmp key (keys mid))) [
            | inl e ↦
                rw (search, lt→ltb low high p, s.held mid inside, e)
                  (search-Locates rounds low mid (omega arith) (omega arith) (omega arith) lo
                    (over mid inside e))
            | inr (inl e) ↦
                (found mid, rw (search, lt→ltb low high p, s.held mid inside, e) refl, (inside, e))
            | inr (inr e) ↦
                rw (search, lt→ltb low high p, s.held mid inside, e)
                  (search-Locates rounds (mid + 1) high h (omega arith) (omega arith)
                    (λ j q. below mid inside e j (omega arith)) hi)
          ]
    ]

    -- On a leaf whose keys ascend, in an order of the keys, `find_key` returns: the slot that holds the key, or else the slot
    -- such that all keys before it are smaller than the key and all from it on are larger.
    pub find_key-Locates : Returns (find_key b key) (Locates n keys key)
    unfolding find_key
    find_key-Locates = rw (get_item_count_lem b) (
        search-Locates n 0 n (omega arith) (omega arith) (omega arith) (λ j q. ground arith)
          (λ j p q. ground arith))
