-- ===== src/Leaf/Split/Order.antt =====
-- The sorted lists that `split_and_insert` builds: the leaf's keys and records with the new ones put
-- in at their place.
use Prim.Native.Nat.{Ordering}
use rarm_db.Base.{
  ℕ, zero, suc, ◌+◌, ◌≤◌, ◌<◌, ◌≡◌, refl, subst, ◌∙◌, List, [], ◌∷◌, ◌++◌, length, get_elem?, some,
  true, false, arith, if◌then◌else◌, ltb, lt→ltb, le→ltb, length-append, done,
}
use native.Mathlib.Decide.{dec_lt, ℕ_discrete}
use rarm_db.Page.{ok}
use rarm_db.Page.Buffer.{Buffer}
use rarm_db.Page.Total.{total}
use rarm_db.Page.Shape.{IsSlotted, item_count, record_at, get_record_lem}
use rarm_db.Leaf.Codec.{Codec}
use rarm_db.Leaf.Search.{key_at, IsSorted}
use rarm_db.Leaf.Ops.Insertion.{
  inserted_at, inserted_at-before, inserted_at-here, inserted_at-after,
}
use rarm_db.Leaf.Split.{Sorting, nothing_sorted, add_record, sort_records, push_last}

-- `f 0`, ..., `f (n - 1)`.
abbrev pub tabulate {ℓ} : {A : Type ℓ} → (ℕ → A) → ℕ → List A
tabulate f zero = []
tabulate f (suc n) = tabulate f n ++ (f n ∷ [])

module _ {ℓ} {A : Type ℓ} where
  pub length-tabulate : (f : ℕ → A) (n : ℕ) → length (tabulate f n) ≡ n
  length-tabulate f zero = refl
  length-tabulate f (suc n) =
      omega (arith, length-append (tabulate f n) (f n ∷ []), length-tabulate f n)

  tabulate-cong :
      (f g : ℕ → A) (n : ℕ) → ((k : ℕ) → k < n → f k ≡ g k) → tabulate f n ≡ tabulate g n
  tabulate-cong f g zero h = refl
  tabulate-cong f g (suc n) h =
      rw (tabulate-cong f g n (λ k q. h k (omega arith)), h n (omega arith))

  -- The elements of a list with one more at its end.
  get_elem?-push :
      (xs : List A) (y : A) (i : ℕ) → i < length xs → get_elem? (xs ++ (y ∷ [])) i ≡ get_elem? xs i
  get_elem?-push [] y i h = elim h [ ]
  get_elem?-push (x ∷ xs) y zero h = refl
  get_elem?-push (x ∷ xs) y (suc i) h = get_elem?-push xs y i (omega arith)

  get_elem?-last : (xs : List A) (y : A) → get_elem? (xs ++ (y ∷ [])) (length xs) ≡ some y
  get_elem?-last [] y = refl
  get_elem?-last (x ∷ xs) y = get_elem?-last xs y

  pub get_elem?-tabulate : (f : ℕ → A) (n i : ℕ) → i < n → get_elem? (tabulate f n) i ≡ some (f i)
  get_elem?-tabulate f zero i h = elim h [ ]
  get_elem?-tabulate f (suc n) i h = elim (ℕ_discrete i n) [
    | yes e ↦ rw e (
        subst (λ k. get_elem? (tabulate f n ++ (f n ∷ [])) k ≡ some (f n)) (length-tabulate f n)
          (get_elem?-last (tabulate f n) (f n)))
    | no ne ↦
        get_elem?-push (tabulate f n) (f n) i (omega (arith, length-tabulate f n))
        ∙ get_elem?-tabulate f n i (omega arith)
  ]

module _ (c : Codec) (b : Buffer) (keys : ℕ → c.Key) (p : ℕ) (key : c.Key) (bytes : List ℕ) where
  abbrev n : ℕ
  n = item_count b

  abbrev size : ℕ → ℕ
  size i = length (record_at b i)

  abbrev pub keys' : ℕ → c.Key
  keys' = inserted_at keys p key

  abbrev pub records' : ℕ → List ℕ
  records' = inserted_at (record_at b) p bytes

  -- The lists before and after the new record went in, once `i` stored records were taken.
  abbrev upto : ℕ → Sorting c
  upto i = record {
    sorted_keys = tabulate keys i;
    sorted_records = tabulate (record_at b) i;
    new_record_inserted = false;
    total_size = total size i;
  }

  abbrev past : ℕ → Sorting c
  past i = record {
    sorted_keys = tabulate keys' (suc i);
    sorted_records = tabulate records' (suc i);
    new_record_inserted = true;
    total_size = total size i + length bytes;
  }

  same_before {ℓ} : {A : Type ℓ} (f : ℕ → A) (a : A) → tabulate (inserted_at f p a) p ≡ tabulate f p
  same_before f a = tabulate-cong (inserted_at f p a) f p (λ k h. inserted_at-before f p a k h)

  -- The same when the new record goes last.
  end_before {ℓ} :
      {A : Type ℓ} → n ≡ p → (f : ℕ → A) (a : A) → tabulate (inserted_at f p a) n ≡ tabulate f n
  end_before at f a =
      tabulate-cong (inserted_at f p a) f n (λ k h. inserted_at-before f p a k (omega arith))

  end_here {ℓ} : {A : Type ℓ} → n ≡ p → (f : ℕ → A) (a : A) → inserted_at f p a n ≡ a
  end_here at f a = rw at (inserted_at-here f p a)

  add_upto :
      (i : ℕ)
      → c.key_cmp key (keys i) ≡ Ordering.gt
      → add_record c (upto i) key bytes (keys i) (record_at b i) ≡ upto (suc i)
  add_upto i e = rw e

  add_at :
      c.key_cmp key (keys p) ≡ Ordering.lt
      → add_record c (upto p) key bytes (keys p) (record_at b p) ≡ past (suc p)
  add_at e = rw (
    e,
    same_before keys key,
    same_before (record_at b) bytes,
    inserted_at-here keys p key,
    inserted_at-here (record_at b) p bytes,
    inserted_at-after keys p key p (omega arith),
    inserted_at-after (record_at b) p bytes p (omega arith),
  )

  add_past :
      (i : ℕ) → p ≤ i → add_record c (past i) key bytes (keys i) (record_at b i) ≡ past (suc i)
  add_past i h =
      let moved : total size i + length bytes + size i ≡ total size i + size i + length bytes =
        omega arith in
      rw (inserted_at-after keys p key i h, inserted_at-after (record_at b) p bytes i h, moved)

  module _ (v : IsSlotted b) (s : IsSorted c b keys) (in_place : p ≤ n)
      (lo : (j : ℕ) → j < p → c.key_cmp key (keys j) ≡ Ordering.gt)
      (hi : (j : ℕ) → p ≤ j → j < n → c.key_cmp key (keys j) ≡ Ordering.lt) where
    -- The key in the record at a slot.
    stored_at : (i : ℕ) → i < n → c.deserialize_primary_key (record_at b i) ≡ done (keys i)
    unfolding key_at
    stored_at i h = rw (get_record_lem v i h) at (s.held i h)

    -- One round of the loop.
    round :
        (rounds i : ℕ) (t t' : Sorting c)
        → i < n
        → add_record c t key bytes (keys i) (record_at b i) ≡ t'
        → sort_records c (suc rounds) b i key bytes t ≡ sort_records c rounds b (i + 1) key bytes t'
    unfolding sort_records
    round rounds i t t' h e = rw (get_record_lem v i h, stored_at i h, e) refl

    sort_past :
        (rounds i : ℕ)
        → i + rounds ≡ n
        → p < i
        → sort_records c rounds b i key bytes (past i) ≡ done (ok (past n))
    unfolding sort_records
    sort_past zero i e h = let at : i ≡ n = omega arith in rw at
    sort_past (suc rounds) i e h =
        let next : i + 1 ≡ suc i = omega arith in
        round rounds i (past i) (past (suc i)) (omega arith) (add_past i (omega arith))
        ∙ rw next (sort_past rounds (suc i) (omega arith) (omega arith))

    sort_inside :
        (rounds i : ℕ)
        → i + rounds ≡ n
        → i ≤ p
        → p < n
        → sort_records c rounds b i key bytes (upto i) ≡ done (ok (past n))
    sort_inside zero i e h q = ground arith
    sort_inside (suc rounds) i e h q =
        let next : i + 1 ≡ suc i = omega arith in
        elim (ℕ_discrete i p) [
          | yes at ↦
              let after : i + 1 ≡ suc p = omega arith in
              round rounds i (upto i) (past (suc p)) (omega arith)
                (rw at (add_at (hi p (omega arith) q)))
              ∙ rw after (sort_past rounds (suc p) (omega arith) (omega arith))
          | no ne ↦
              round rounds i (upto i) (upto (suc i)) (omega arith) (add_upto i (lo i (omega arith)))
              ∙ rw next (sort_inside rounds (suc i) (omega arith) (omega arith) q)
        ]

    sort_last :
        (rounds i : ℕ)
        → i + rounds ≡ n
        → p ≡ n
        → sort_records c rounds b i key bytes (upto i) ≡ done (ok (upto n))
    unfolding sort_records
    sort_last zero i e q = let at : i ≡ n = omega arith in rw at
    sort_last (suc rounds) i e q =
        let next : i + 1 ≡ suc i = omega arith in
        round rounds i (upto i) (upto (suc i)) (omega arith) (add_upto i (lo i (omega arith)))
        ∙ rw next (sort_last rounds (suc i) (omega arith) q)

    -- The lists that the loop and the insertion after it leave. The size of the new record is not
    -- counted when it goes last.
    abbrev pub sorted : Sorting c
    sorted = record {
      sorted_keys = tabulate keys' (suc n);
      sorted_records = tabulate records' (suc n);
      new_record_inserted = ltb p n;
      total_size = total size n + (if ltb p n then length bytes else 0);
    }

    pub sort_records-sorted :
        (t : Sorting c) × (sort_records c n b 0 key bytes (nothing_sorted c) ≡ done (ok t))
        × (push_last c t.new_record_inserted t key bytes ≡ sorted)
    sort_records-sorted = elim (dec_lt p n) [
      | yes h ↦ (past n, sort_inside n 0 (omega arith) (omega arith) h, rw (lt→ltb p n h))
      | no h ↦
          let at : n ≡ p = omega arith in
          let none_more : total size n + 0 ≡ total size n = omega arith in
          (
            upto n,
            sort_last n 0 (omega arith) (omega arith),
            rw (
              le→ltb p n (omega arith),
              none_more,
              end_before at keys key,
              end_before at (record_at b) bytes,
              end_here at keys key,
              end_here at (record_at b) bytes,
            ),
          )
    ]
