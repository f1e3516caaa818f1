-- ===== src/Leaf/Ops/Insertion.antt =====
-- What `insert_record` does on a leaf whose keys ascend.
use Prim.Native.Nat.{Ordering}
use rarm_db.Base.{
  ℕ, suc, ◌+◌, ◌-◌, ◌*◌, ◌≤◌, ◌<◌, ◌≡◌, refl, ◌∙◌, List, some, if◌then◌else◌, ltb, ◌==◌, arith,
  length, done, Returns, ◌⊎◌, inl, inr, lt→ltb, le→ltb, eq→==, ne→==,
}
use native.Mathlib.Decide.{dec_lt, ℕ_discrete}
use rarm_db.Page.{page_header_size, slot_size, StorageError, Result, ok, err}
use rarm_db.Page.Buffer.{Buffer}
use rarm_db.Page.Slotted.{get_record}
use rarm_db.Page.Shape.{IsSlotted, item_count, heap_end}
use rarm_db.Page.Insert.Refines.{Inserted, InsertSpec, try_insert_record-InsertSpec}
use rarm_db.Leaf.{LeafNodeView, with_page}
use rarm_db.Leaf.Codec.{Codec, IsLawful}
use rarm_db.Leaf.Search.{
  Found, found, insertion, out_of_rounds, key_at, IsSorted, Locates, find_key-Locates,
}
use rarm_db.Leaf.Ops.{insert_record, insert_found}

-- The sequence with `a` put in at `i`.
abbrev pub inserted_at {ℓ} : {A : Type ℓ} → (ℕ → A) → ℕ → A → ℕ → A
inserted_at f i a j = if ltb j i then f j else (if j == i then a else f (j - 1))

module _ {ℓ} {A : Type ℓ} (f : ℕ → A) (i : ℕ) (a : A) where
  pub inserted_at-before : (j : ℕ) → j < i → inserted_at f i a j ≡ f j
  inserted_at-before j h = rw (lt→ltb j i h)

  pub inserted_at-here : inserted_at f i a i ≡ a
  inserted_at-here = rw (le→ltb i i (omega arith), eq→== i i refl)

  pub inserted_at-after : (j : ℕ) → i ≤ j → inserted_at f i a (suc j) ≡ f j
  inserted_at-after j h =
      let e : suc j - 1 ≡ j = omega arith in
      rw (le→ltb (suc j) i (omega arith), ne→== (suc j) i (omega arith), e)

-- An index of the new sequence: before `i`, at `i`, or the successor of an old one.
place : (i j : ℕ) → (j < i) ⊎ ((j ≡ i) ⊎ ((p : ℕ) × (i ≤ p) × (j ≡ suc p)))
place i j = elim (dec_lt j i) [
  | yes h ↦ inl h
  | no h ↦ elim (ℕ_discrete j i) [
    | yes e ↦ inr (inl e)
    | no n ↦ inr (inr (j - 1, omega arith, omega arith))
  ]
]

module _ (c : Codec) where
  pub key_at-same :
      (b b' : Buffer) (i j : ℕ) → get_record b' j ≡ get_record b i → key_at c b' j ≡ key_at c b i
  unfolding key_at
  key_at-same b b' i j e = rw e

  pub key_at-record :
      (b : Buffer) (i : ℕ) (bytes : List ℕ)
      → get_record b i ≡ done (some bytes)
      → key_at c b i ≡ c.deserialize_primary_key bytes
  unfolding key_at
  key_at-record b i bytes e = rw e

  -- `insert_record` on a leaf with the keys `keys`: the record stands among the others in the order
  -- of the keys, or the leaf is the same and the error has its cause.
  abbrev pub InsertsSorted :
      LeafNodeView → (ℕ → c.Key) → c.Key → List ℕ → LeafNodeView × Result ℕ → Type 0
  InsertsSorted l keys key bytes (l', ok i) =
      (l'.page_id ≡ l.page_id)
      × IsSlotted l'.page_view
      × IsSorted c l'.page_view (inserted_at keys i key)
      × Inserted l.page_view l'.page_view i bytes
  InsertsSorted l keys key bytes (l', err e) =
      (l' ≡ l)
      × ((e ≡ StorageError.duplicate_key)
            × ((i : ℕ) × (i < item_count l.page_view) × (c.key_cmp key (keys i) ≡ Ordering.eq))
          ⊎ (e ≡ StorageError.page_full)
            × (heap_end l.page_view
                < page_header_size + (item_count l.page_view + 1) * slot_size + length bytes))

  module _ (laws : IsLawful c) (b : Buffer) (keys : ℕ → c.Key) (s : IsSorted c b keys) (key : c.Key)
      (bytes : List ℕ) (stored : c.deserialize_primary_key bytes ≡ done key) where
    insert-IsSorted :
        (b' : Buffer) (i : ℕ)
        → i ≤ item_count b
        → ((j : ℕ) → j < i → c.key_cmp key (keys j) ≡ Ordering.gt)
        → ((j : ℕ) → i ≤ j → j < item_count b → c.key_cmp key (keys j) ≡ Ordering.lt)
        → Inserted b b' i bytes
        → IsSorted c b' (inserted_at keys i key)
    insert-IsSorted b' i fits lo hi (count, before, here, after, header) = record {
      held = held;
      ascending = ascending;
    }
      where
        held : (j : ℕ) → j < item_count b' → key_at c b' j ≡ done (inserted_at keys i key j)
        held j h = elim (place i j) [
          | inl q ↦
              rw (inserted_at-before keys i key j q)
                (key_at-same b b' j j (before j q) ∙ s.held j (omega arith))
          | inr (inl e) ↦
              rw (e, inserted_at-here keys i key) (key_at-record b' i bytes here ∙ stored)
          | inr (inr (p, q, e)) ↦
              rw (e, inserted_at-after keys i key p q)
                (key_at-same b b' p (suc p) (after p q) ∙ s.held p (omega (arith, count)))
        ]

        ascending :
            (j k : ℕ)
            → j < k
            → k < item_count b'
            → c.key_cmp (inserted_at keys i key j) (inserted_at keys i key k) ≡ Ordering.lt
        ascending j k h l = elim (place i j) [
          | inl q ↦ elim (place i k) [
            | inl q' ↦
                rw (inserted_at-before keys i key j q, inserted_at-before keys i key k q')
                  (s.ascending j k h (omega arith))
            | inr (inl e) ↦
                rw (inserted_at-before keys i key j q, e, inserted_at-here keys i key)
                  (laws.cmp_flip key (keys j) (lo j q))
            | inr (inr (p, q', e)) ↦
                rw (inserted_at-before keys i key j q, e, inserted_at-after keys i key p q')
                  (s.ascending j p (omega arith) (omega (arith, count)))
          ]
          | inr (inl e) ↦ elim (place i k) [
            | inl q' ↦ ground arith
            | inr (inl e') ↦ ground arith
            | inr (inr (p, q', e')) ↦
                rw (e, inserted_at-here keys i key, e', inserted_at-after keys i key p q')
                  (hi p q' (omega (arith, count)))
          ]
          | inr (inr (m, q, e)) ↦ elim (place i k) [
            | inl q' ↦ ground arith
            | inr (inl e') ↦ ground arith
            | inr (inr (p, q', e')) ↦
                rw (e, inserted_at-after keys i key m q, e', inserted_at-after keys i key p q')
                  (s.ascending m p (omega arith) (omega (arith, count)))
          ]
        ]

  -- On a well formed leaf whose keys ascend, in an order of the keys, `insert_record` of a record
  -- that serializes to bytes from which its own key is read back (not so for a null in a key column)
  -- never panics. If a stored key equals the record's it gives `DuplicateKey`, and if the contiguous
  -- space is too small `PageFull`; then the leaf is as it was. In all other cases the leaf is well
  -- formed, holds the record at the index that it returns and the other records around it, and its
  -- keys ascend.
  pub insert_record-InsertsSorted :
      IsLawful c
      → (l : LeafNodeView) (keys : ℕ → c.Key) (r : c.Record) (key : c.Key) (bytes : List ℕ)
      → IsSlotted l.page_view
      → IsSorted c l.page_view keys
      → c.get_primary_key r ≡ done key
      → c.serialize r ≡ done bytes
      → c.deserialize_primary_key bytes ≡ done key
      → Returns (insert_record c l r) (InsertsSorted l keys key bytes)
  unfolding insert_record
  insert_record-InsertsSorted laws l keys r key bytes v s has_key serialized stored =
      let (where_to, e, located) = find_key-Locates c laws l.page_view keys s key in
      rw (has_key, e) (at_slot where_to located)
    where
      finish :
          (i : ℕ)
          → i ≤ item_count l.page_view
          → ((j : ℕ) → j < i → c.key_cmp key (keys j) ≡ Ordering.gt)
          → ((j : ℕ) → i ≤ j → j < item_count l.page_view → c.key_cmp key (keys j) ≡ Ordering.lt)
          → (out : Buffer × Result ℕ) → InsertSpec l.page_view i bytes out
          → Returns (with_page l (done out)) (InsertsSorted l keys key bytes)
      finish i fits lo hi (b', ok j) (same, w, p) = rw same (
        (record l { page_view = b' }, ok i),
        refl,
        (refl, w, insert-IsSorted laws l.page_view keys s key bytes stored b' i fits lo hi p, p),
      )
      finish i fits lo hi (b', err e) (same, inl (is_full, full)) =
          rw (same, is_full) ((l, err StorageError.page_full), refl, (refl, inr (refl, full)))
      finish i fits lo hi (b', err e) (same, inr (kind, past)) = ground arith

      at_slot :
          (f : Found)
          → Locates c (item_count l.page_view) keys key f
          → Returns (insert_found c l r f) (InsertsSorted l keys key bytes)
      at_slot (found i) (h, e) =
          ((l, err StorageError.duplicate_key), refl, (refl, inl (refl, (i, h, e))))
      at_slot (insertion i) (fits, lo, hi) =
          let (out, e, q) = try_insert_record-InsertSpec l.page_view i bytes v in
          rw (serialized, e) (finish i fits lo hi out q)
      at_slot out_of_rounds p = elim p [ ]
