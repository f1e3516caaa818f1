-- ===== src/Disk/Next.antt =====
-- The next page indexes (crates/storage/src/disk_manager.rs): the lookup that `allocate_page`
-- unwraps.
use native.Mathlib.Decide.{ℕ_discrete}
use mathlib.Core.Bool.{true≢false}
use rarm_db.Base.{
  ℕ, ◌+◌, ◌/◌, ◌%◌, ◌^◌, ◌≡◌, ◌≢◌, ◌∙◌, refl, sym, ap, Option, none, some, Bool, true, ◌⊎◌, inl,
  inr, Bool-cases, Option-cases, eq→==, ne→==, Returns,
}
use rarm_db.Page.{PageId, page_size}
use rarm_db.Disk.{
  FileSystem, Disks, zero_buffer, offset_of, insert_id, or_insert, with_handle, get_file_handle,
  allocate_at, allocate_next, allocate_page,
}
use rarm_db.Disk.Pages.{is_some}

-- Every open file has a next page index.
abbrev HaveNext : (ℕ → Bool) → (ℕ → Option ℕ) → Type 0
HaveNext handles next = (t : ℕ) → handles t ≡ true → is_some (next t) ≡ true

HaveNext-insert_id :
    (handles handles' : ℕ → Bool) (next : ℕ → Option ℕ) (t : ℕ) (o : Option ℕ)
    → is_some o ≡ true
    → ((t' : ℕ) → t ≢ t' → handles' t' ≡ handles t')
    → HaveNext handles next
    → HaveNext handles' (insert_id next t o)
HaveNext-insert_id handles handles' next t o is same k t' e = elim (ℕ_discrete t t') [
  | yes e' ↦ rw (eq→== t t' e') is
  | no n ↦ rw (ne→== t t' n) (k t' (sym (same t' n) ∙ e))
]

is_some-or_insert : (o : Option ℕ) (n : ℕ) → is_some (or_insert o n) ≡ true
is_some-or_insert none n = refl
is_some-or_insert (some k) n = refl

some_of : (o : Option ℕ) → is_some o ≡ true → (n : ℕ) × (o ≡ some n)
some_of none e = absurd (true≢false (sym e))
some_of (some n) e = (n, refl)

module _ (fs : FileSystem) where
  abbrev pub HasNext : Disks fs → Type 0
  HasNext s = HaveNext s.file_handles s.next_page_ids

  -- The page that was given is of the table, and the next index of the table follows it.
  abbrev pub Allocated : ℕ → Disks fs × Option PageId → Type 0
  Allocated t (s, none) = HasNext s
  Allocated t (s, some p) =
      HasNext s × (p.table_id ≡ t) × (s.next_page_ids t ≡ some ((p.page_index + 1) % 2 ^ 32))

  with_handle-HasNext : (s : Disks fs) (t n : ℕ) → HasNext s → HasNext (with_handle fs t s n)
  with_handle-HasNext s t n k =
      HaveNext-insert_id s.file_handles (insert_id s.file_handles t true) s.next_page_ids t
        (or_insert (s.next_page_ids t) (n / page_size % 2 ^ 32))
        (is_some-or_insert (s.next_page_ids t) (n / page_size % 2 ^ 32)) (λ t' m. rw (ne→== t t' m))
        k

  get_file_handle-HasNext :
      (s : Disks fs) (t : ℕ)
      → HasNext s
      → (get_file_handle fs t s ≡ none)
        ⊎ ((s' : Disks fs) × (n : ℕ) × (get_file_handle fs t s ≡ some s')
            × HasNext s'
            × (s'.next_page_ids t ≡ some n))
  unfolding get_file_handle
  get_file_handle-HasNext s t k = elim (Bool-cases (s.file_handles t)) [
    | inl e ↦
        let n : (n : ℕ) × (s.next_page_ids t ≡ some n) = some_of (s.next_page_ids t) (k t e) in
        inr (s, n.0, rw (get_file_handle, e), k, n.1)
    | inr e ↦ elim (Option-cases (fs.open_file s.world t)) [
      | inl h ↦ inl (rw (get_file_handle, e, h))
      | inr (len, h) ↦
          let k' : HasNext (with_handle fs t s len) = with_handle-HasNext s t len k in
          let n : (n : ℕ) × ((with_handle fs t s len).next_page_ids t ≡ some n) =
            some_of ((with_handle fs t s len).next_page_ids t) (k' t (rw (eq→== t t refl))) in
          inr (with_handle fs t s len, n.0, rw (get_file_handle, e, h), k', n.1)
    ]
  ]

  allocate_at-Allocated :
      (s : Disks fs) (t n : ℕ) (w : Option fs.World)
      → HasNext s
      → s.next_page_ids t ≡ some ((n + 1) % 2 ^ 32)
      → Allocated t (allocate_at fs t n s w)
  allocate_at-Allocated s t n none k e = k
  allocate_at-Allocated s t n (some w) k e = (k, refl, e)

  -- When every open file has a next page index, `allocate_page` returns: the index that it unwraps
  -- is there. Every open file has an index after it, and a page that it gives is one of the table,
  -- which the next index of the table follows on `u32`.
  pub allocate_page-Allocated :
      (s : Disks fs) (t : ℕ) → HasNext s → Returns (allocate_page fs t s) (Allocated t)
  unfolding allocate_page
  allocate_page-Allocated s t k = elim (get_file_handle-HasNext s t k) [
    | inl h ↦ ((s, none), ap (allocate_next fs t s) h, k)
    | inr (s', n, h, k', e) ↦
        let next : Disks fs = record s' {
          next_page_ids = insert_id s'.next_page_ids t (some ((n + 1) % 2 ^ 32));
        } in
        (
          allocate_at fs t n next (fs.write_at s'.world t (offset_of n) zero_buffer),
          ap (allocate_next fs t s) h ∙ (rw e),
          allocate_at-Allocated next t n (fs.write_at s'.world t (offset_of n) zero_buffer)
              (HaveNext-insert_id s'.file_handles s'.file_handles s'.next_page_ids t
                (some ((n + 1) % 2 ^ 32)) refl (λ t' m. refl) k')
              (rw (eq→== t t refl)),
        )
  ]
