-- ===== src/Leaf/Ops/Replacing.antt =====
-- What `update_record` does on a leaf whose keys ascend.
use Prim.Native.Nat.{Ordering}
use rarm_db.Base.{
  ℕ, ◌+◌, ◌*◌, ◌≤◌, ◌<◌, ◌≡◌, ◌≢◌, refl, ◌∙◌, List, if◌then◌else◌, ◌==◌, arith, length, done,
  Returns, ◌⊎◌, inl, inr, eq→==, ne→==,
}
use native.Mathlib.Decide.{ℕ_discrete, dec_lt}
use rarm_db.Page.{page_header_size, slot_size, StorageError, Result, ok, err}
use rarm_db.Page.Buffer.{Buffer}
use rarm_db.Page.Shape.{IsSlotted, item_count, heap_end, record_size}
use rarm_db.Page.Update.{Updated}
use rarm_db.Page.Update.Refines.{UpdateSpec, try_update_record-UpdateSpec}
use rarm_db.Leaf.{LeafNodeView, with_page}
use rarm_db.Leaf.Codec.{Codec, IsLawful}
use rarm_db.Leaf.Search.{
  Found, found, insertion, out_of_rounds, key_at, IsSorted, Locates, find_key-Locates,
}
use rarm_db.Leaf.Ops.{update_record, update_found}
use rarm_db.Leaf.Ops.Insertion.{key_at-same, key_at-record}

-- The sequence with `a` in the place of what stands at `i`.
abbrev pub replaced_at {ℓ} : {A : Type ℓ} → (ℕ → A) → ℕ → A → ℕ → A
replaced_at f i a j = if j == i then a else f j

module _ {ℓ} {A : Type ℓ} (f : ℕ → A) (i : ℕ) (a : A) where
  replaced_at-here : replaced_at f i a i ≡ a
  replaced_at-here = rw (eq→== i i refl)

  replaced_at-other : (j : ℕ) → j ≢ i → replaced_at f i a j ≡ f j
  replaced_at-other j n = rw (ne→== j i n)

module _ (c : Codec) where
  -- `update_record` on a leaf with the keys `keys`: the record stands in the place of the one with
  -- its key, or the leaf is the same and the error has its cause.
  abbrev pub UpdatesSorted :
      LeafNodeView → (ℕ → c.Key) → c.Key → List ℕ → LeafNodeView × Result ℕ → Type 0
  UpdatesSorted l keys key bytes (l', ok i) =
      (l'.page_id ≡ l.page_id)
      × IsSlotted l'.page_view
      × (i < item_count l.page_view)
      × (c.key_cmp key (keys i) ≡ Ordering.eq)
      × IsSorted c l'.page_view (replaced_at keys i key)
      × Updated l.page_view l'.page_view i bytes
  UpdatesSorted l keys key bytes (l', err e) =
      (l' ≡ l)
      × ((e ≡ StorageError.key_not_found)
            × ((i : ℕ) → i < item_count l.page_view → c.key_cmp key (keys i) ≢ Ordering.eq)
          ⊎ (e ≡ StorageError.page_full)
            × ((i : ℕ) × (i < item_count l.page_view)
                × (c.key_cmp key (keys i) ≡ Ordering.eq)
                × (record_size l.page_view i < length bytes)
                × (heap_end l.page_view
                    < page_header_size + item_count l.page_view * slot_size + length bytes)))

  module _ (laws : IsLawful c) (b : Buffer) (keys : ℕ → c.Key) (s : IsSorted c b keys) (key : c.Key)
      (bytes : List ℕ) (stored : c.deserialize_primary_key bytes ≡ done key) where
    update-IsSorted :
        (b' : Buffer) (i : ℕ)
        → i < item_count b
        → c.key_cmp key (keys i) ≡ Ordering.eq
        → Updated b b' i bytes
        → IsSorted c b' (replaced_at keys i key)
    update-IsSorted b' i fits same (count, here, other, header) = record {
      held = held;
      ascending = ascending;
    }
      where
        held : (j : ℕ) → j < item_count b' → key_at c b' j ≡ done (replaced_at keys i key j)
        held j h = elim (ℕ_discrete j i) [
          | yes e ↦ rw (e, replaced_at-here keys i key) (key_at-record c b' i bytes here ∙ stored)
          | no n ↦
              rw (replaced_at-other keys i key j n)
                (key_at-same c b b' j j (other j n) ∙ s.held j (omega (arith, count)))
        ]

        ascending :
            (j k : ℕ)
            → j < k
            → k < item_count b'
            → c.key_cmp (replaced_at keys i key j) (replaced_at keys i key k) ≡ Ordering.lt
        ascending j k h m = elim (ℕ_discrete j i) [
          | yes e ↦
              let n : k ≢ i = omega arith in
              rw (e, replaced_at-here keys i key, replaced_at-other keys i key k n)
                (laws.cmp_eq_lt key (keys i) (keys k) same
                  (s.ascending i k (omega arith) (omega (arith, count))))
          | no n ↦ elim (ℕ_discrete k i) [
            | yes e ↦
                rw (e, replaced_at-here keys i key, replaced_at-other keys i key j n)
                  (laws.cmp_lt_eq key (keys i) (keys j) same (s.ascending j i (omega arith) fits))
            | no n' ↦
                rw (replaced_at-other keys i key j n, replaced_at-other keys i key k n')
                  (s.ascending j k h (omega (arith, count)))
          ]
        ]

  -- On a well formed leaf whose keys ascend, in an order of the keys, `update_record` of a record
  -- that serializes to bytes from which its own key is read back (not so for a null in a key column)
  -- never panics. If no stored key equals the record's it gives `KeyNotFound`, and if the record is
  -- larger than the stored one and than the contiguous space `PageFull`; then the leaf is as it was.
  -- In all other cases the leaf is well formed, holds the record in the place of the one with an
  -- equal key and the others unchanged, and its keys ascend.
  pub update_record-UpdatesSorted :
      IsLawful c
      → (l : LeafNodeView) (keys : ℕ → c.Key) (r : c.Record) (key : c.Key) (bytes : List ℕ)
      → IsSlotted l.page_view
      → IsSorted c l.page_view keys
      → c.get_primary_key r ≡ done key
      → c.serialize r ≡ done bytes
      → c.deserialize_primary_key bytes ≡ done key
      → Returns (update_record c l r) (UpdatesSorted l keys key bytes)
  unfolding update_record
  update_record-UpdatesSorted laws l keys r key bytes v s has_key serialized stored =
      let (where_to, e, located) = find_key-Locates c laws l.page_view keys s key in
      rw (has_key, e) (at_slot where_to located)
    where
      finish :
          (i : ℕ)
          → i < item_count l.page_view
          → c.key_cmp key (keys i) ≡ Ordering.eq
          → (out : Buffer × Result ℕ) → UpdateSpec l.page_view i bytes out
          → Returns (with_page l (done out)) (UpdatesSorted l keys key bytes)
      finish i fits same (b', ok j) (at, w, p) = rw at (
        (record l { page_view = b' }, ok i),
        refl,
        (
          refl,
          w,
          fits,
          same,
          update-IsSorted laws l.page_view keys s key bytes stored b' i fits same p,
          p,
        ),
      )
      finish i fits same (b', err e) (unchanged, inl (kind, past)) = ground arith
      finish i fits same (b', err e) (unchanged, inr (kind, larger, full)) =
          rw (unchanged, kind)
            (
              (l, err StorageError.page_full),
              refl,
              (refl, inr (refl, (i, fits, same, larger, full))),
            )

      absent :
          (i : ℕ)
          → ((j : ℕ) → j < i → c.key_cmp key (keys j) ≡ Ordering.gt)
          → ((j : ℕ) → i ≤ j → j < item_count l.page_view → c.key_cmp key (keys j) ≡ Ordering.lt)
          → (j : ℕ) → j < item_count l.page_view
          → c.key_cmp key (keys j) ≢ Ordering.eq
      absent i lo hi j h e = elim (dec_lt j i) [
        | yes q ↦ let g = lo j q in cc
        | no q ↦ let g = hi j (omega arith) h in cc
      ]

      at_slot :
          (f : Found)
          → Locates c (item_count l.page_view) keys key f
          → Returns (update_found c l r f) (UpdatesSorted l keys key bytes)
      at_slot (found i) (h, e) =
          let (out, e', q) = try_update_record-UpdateSpec l.page_view i bytes v in
          rw (serialized, e') (finish i h e out q)
      at_slot (insertion i) (fits, lo, hi) =
          ((l, err StorageError.key_not_found), refl, (refl, inl (refl, absent i lo hi)))
      at_slot out_of_rounds p = elim p [ ]
