-- ===== src/Disk/Pages.antt =====
-- Pages on disk: reads after writes (crates/storage/src/disk_manager.rs).
use native.Mathlib.Decide.{ℕ_discrete}
use native.Mathlib.Nat.{mod-eq_of_lt}
use rarm_db.Base.{
  ℕ, ◌+◌, ◌*◌, ◌^◌, ◌<◌, ◌≤◌, ◌≡◌, ◌≢◌, refl, ap, sym, subst, ◌∙◌, Option, none, some, Bool, true,
  false, ◌&&◌, ◌||◌, ◌==◌, ◌⊎◌, inl, inr, arith, if◌then◌else◌, Bool-cases, Option-cases, eq→==,
  ne→==,
}
use mathlib.Core.Bool.{true≢false}
use rarm_db.Page.{PageId, page_size}
use rarm_db.Page.Buffer.{Buffer}
use rarm_db.Disk.{
  FileSystem, Disks, offset_of, insert_id, read_at_handle, write_at_handle, written, with_handle,
  get_file_handle, read_page, write_page,
}

abbrev pub is_some : {A : Type 0} → Option A → Bool
is_some none = false
is_some (some a) = true

-- A page of bytes at the offset lies inside the file of the table.
abbrev pub Inside : (fs : FileSystem) → fs.World → ℕ → ℕ → Type 0
Inside fs w t off = (n : ℕ) × (fs.open_file w t ≡ some n) × (off + page_size ≤ n)

-- The second page is in another file than the first, or inside its file and a page apart.
abbrev pub Apart : (fs : FileSystem) → fs.World → ℕ → ℕ → ℕ → ℕ → Type 0
Apart fs w t off t' off' =
    (t ≢ t') ⊎ (Inside fs w t' off' × ((off + page_size ≤ off') ⊎ (off' + page_size ≤ off)))

-- A page that was written is read back whatever the buffer was; a page of another file, or inside
-- the file and apart from it, is as before; and a write makes, removes or shortens no file. A read
-- past the end of a file leaves the buffer, and a later write may move the end.
pub record KeepsFiles (fs : FileSystem) : Type 0 where
  pub read-write :
      (w w' : fs.World) (t off : ℕ) (bytes buffer : Buffer)
      → fs.write_at w t off bytes ≡ some w'
      → fs.read_at w' t off buffer ≡ some bytes
  pub read-write_other :
      (w w' : fs.World) (t off t' off' : ℕ) (bytes buffer : Buffer)
      → fs.write_at w t off bytes ≡ some w'
      → Apart fs w t off t' off'
      → fs.read_at w' t' off' buffer ≡ fs.read_at w t' off' buffer
  pub opens-write :
      (w w' : fs.World) (t off t' : ℕ) (bytes : Buffer)
      → fs.write_at w t off bytes ≡ some w'
      → is_some (fs.open_file w' t') ≡ is_some (fs.open_file w t')
  pub inside-write :
      (w w' : fs.World) (t off t' off' : ℕ) (bytes : Buffer)
      → fs.write_at w t off bytes ≡ some w'
      → Inside fs w t' off'
      → Inside fs w' t' off'

-- Whether two page ids are of the same page.
abbrev pub same_page : PageId → PageId → Bool
same_page p q = (p.table_id == q.table_id) && (p.page_index == q.page_index)

offset_of_lem : (i : ℕ) → i < 2 ^ 32 → offset_of i ≡ i * page_size
offset_of_lem i h = mod-eq_of_lt (omega arith)

-- Two pages of a file are a page apart.
apart_offsets :
    (i j : ℕ)
    → i < 2 ^ 32
    → j < 2 ^ 32
    → i ≢ j
    → (offset_of i + page_size ≤ offset_of j) ⊎ (offset_of j + page_size ≤ offset_of i)
apart_offsets i j h h' n = rw (offset_of_lem i h, offset_of_lem j h') (omega arith)

module _ (fs : FileSystem) where
  -- The file of the table is open, or can be opened.
  abbrev pub opens : Disks fs → ℕ → Bool
  opens s t = s.file_handles t || is_some (fs.open_file s.world t)

  -- The bytes that `read_page` puts into the buffer.
  abbrev pub bytes_read : PageId → Buffer → Disks fs → Option Buffer
  bytes_read p buffer s = (read_page fs p buffer s).1

  -- The state after a handle is there.
  pub record Opened (s : Disks fs) (t : ℕ) (s' : Disks fs) : Type 0 where
    pub same_world : s'.world ≡ s.world
    pub is_open : s'.file_handles t ≡ true
    pub others : (t' : ℕ) → t ≢ t' → s'.file_handles t' ≡ s.file_handles t'

  insert_self : {A : Type 0} (m : ℕ → A) (t : ℕ) (a : A) → insert_id m t a t ≡ a
  insert_self m t a = rw (eq→== t t refl)

  insert_ne : {A : Type 0} (m : ℕ → A) (t t' : ℕ) (a : A) → t ≢ t' → insert_id m t a t' ≡ m t'
  insert_ne m t t' a n = rw (ne→== t t' n)

  pub get_file_handle-Opened :
      (s : Disks fs) (t : ℕ)
      → ((opens s t ≡ false) × (get_file_handle fs t s ≡ none))
        ⊎ ((opens s t ≡ true)
            × ((s' : Disks fs) × (get_file_handle fs t s ≡ some s') × Opened s t s'))
  unfolding get_file_handle
  get_file_handle-Opened s t = elim (Bool-cases (s.file_handles t)) [
    | inl e ↦ inr (
      rw e,
      (
        s,
        rw (get_file_handle, e),
        record { same_world = refl; is_open = e; others = λ t' n. refl },
      ),
    )
    | inr e ↦ elim (Option-cases (fs.open_file s.world t)) [
      | inl h ↦ inl (rw (e, h), rw (get_file_handle, e, h))
      | inr (n, h) ↦ inr (
        rw (e, h),
        (
          with_handle fs t s n,
          rw (get_file_handle, e, h),
          record {
            same_world = refl;
            is_open = insert_self s.file_handles t true;
            others = λ t' n. insert_ne s.file_handles t t' true n;
          },
        ),
      )
    ]
  ]

  -- What the file of the page holds, if it can be opened.
  abbrev stored : Disks fs → PageId → Buffer → Option Buffer
  stored s p buffer =
      if opens s p.table_id
      then fs.read_at s.world p.table_id (offset_of p.page_index) buffer
      else none

  bytes_read_lem :
      (s : Disks fs) (p : PageId) (buffer : Buffer) → bytes_read p buffer s ≡ stored s p buffer
  unfolding read_page
  bytes_read_lem s p buffer = elim (get_file_handle-Opened s p.table_id) [
    | inl (e, h) ↦ ap (λ x. (read_at_handle fs p buffer s x).1) h ∙ rw e
    | inr (e, (s', h, o)) ↦ ap (λ x. (read_at_handle fs p buffer s x).1) h ∙ rw (e, o.same_world)
  ]

  -- What a write that does not fail leaves.
  pub record Writes (s : Disks fs) (p : PageId) (bytes : Buffer) (s' : Disks fs) : Type 0 where
    pub writes : fs.write_at s.world p.table_id (offset_of p.page_index) bytes ≡ some s'.world
    pub was_open : opens s p.table_id ≡ true
    pub is_open : s'.file_handles p.table_id ≡ true
    pub others : (t' : ℕ) → p.table_id ≢ t' → s'.file_handles t' ≡ s.file_handles t'

  pub write_page-Writes :
      (s : Disks fs) (p : PageId) (bytes : Buffer)
      → (write_page fs p bytes s).1 ≡ true
      → Writes s p bytes (write_page fs p bytes s).0
  unfolding write_page
  write_page-Writes s p bytes succeeds = elim (get_file_handle-Opened s p.table_id) [
    | inl (e, h) ↦
        absurd (true≢false (sym succeeds ∙ ap (λ x. (write_at_handle fs p bytes s x).1) h))
    | inr (e, (s', h, o)) ↦
        elim (Option-cases (fs.write_at s'.world p.table_id (offset_of p.page_index) bytes)) [
          | inl k ↦ absurd (
              true≢false (
                sym succeeds
                ∙ ap (λ x. (write_at_handle fs p bytes s x).1) h
                ∙ ap (λ x. (written fs s' x).1) k))
          | inr (w, k) ↦
              subst (Writes s p bytes)
                (sym (
                  ap (λ x. (write_at_handle fs p bytes s x).0) h ∙ ap (λ x. (written fs s' x).0) k))
                (record {
                  writes =
                      subst (λ x. fs.write_at x p.table_id (offset_of p.page_index) bytes ≡ some w)
                        o.same_world k;
                  was_open = e;
                  is_open = o.is_open;
                  others = o.others;
                })
        ]
  ]

  opens-Writes :
      KeepsFiles fs
      → {s s' : Disks fs} {p : PageId} {bytes : Buffer} → Writes s p bytes s'
      → (t' : ℕ) → opens s' t' ≡ opens s t'
  opens-Writes k {s} {s'} {p} {bytes} wr t' = elim (ℕ_discrete p.table_id t') [
    | yes e ↦ subst (λ t. opens s' t ≡ opens s t) e (rw (wr.is_open, wr.was_open))
    | no n ↦ rw (
      wr.others t' n,
      k.opens-write s.world s'.world p.table_id (offset_of p.page_index) t' bytes wr.writes,
    )
  ]

  bytes_read-Apart :
      KeepsFiles fs
      → {s s' : Disks fs} {p : PageId} {bytes : Buffer} → Writes s p bytes s'
      → (q : PageId) (buffer : Buffer)
      → Apart fs s.world p.table_id (offset_of p.page_index) q.table_id (offset_of q.page_index)
      → bytes_read q buffer s' ≡ bytes_read q buffer s
  bytes_read-Apart k {s} {s'} {p} {bytes} wr q buffer a =
      let same : stored s' q buffer ≡ stored s q buffer = rw (
        opens-Writes k wr q.table_id,
        k.read-write_other s.world s'.world p.table_id (offset_of p.page_index) q.table_id
            (offset_of q.page_index) bytes buffer wr.writes a,
      ) in
      bytes_read_lem s' q buffer ∙ same ∙ sym (bytes_read_lem s q buffer)

  pub bytes_read-same :
      KeepsFiles fs
      → {s s' : Disks fs} {p : PageId} {bytes : Buffer} → Writes s p bytes s'
      → (buffer : Buffer) → bytes_read p buffer s' ≡ some bytes
  bytes_read-same k {s} {s'} {p} {bytes} wr buffer =
      bytes_read_lem s' p buffer
      ∙ rw (
        wr.is_open,
        k.read-write s.world s'.world p.table_id (offset_of p.page_index) bytes buffer wr.writes,
      )

  -- The page has an index on `u32` and lies inside its file.
  abbrev pub IsStored : Disks fs → PageId → Type 0
  IsStored s p = (p.page_index < 2 ^ 32) × Inside fs s.world p.table_id (offset_of p.page_index)

  pub IsStored-Writes :
      KeepsFiles fs
      → {s s' : Disks fs} {p : PageId} {bytes : Buffer} → Writes s p bytes s'
      → (q : PageId) → IsStored s q
      → IsStored s' q
  IsStored-Writes k {s} {s'} {p} {bytes} wr q (h, inside) = (
    h,
    k.inside-write s.world s'.world p.table_id (offset_of p.page_index) q.table_id
        (offset_of q.page_index) bytes wr.writes inside,
  )

  -- A write to a page leaves a stored page that is not it.
  pub bytes_read-other :
      KeepsFiles fs
      → {s s' : Disks fs} {p : PageId} {bytes : Buffer} → Writes s p bytes s'
      → (q : PageId) (buffer : Buffer) → p.page_index < 2 ^ 32
      → IsStored s q
      → same_page p q ≡ false
      → bytes_read q buffer s' ≡ bytes_read q buffer s
  bytes_read-other k {s} {s'} {p} {bytes} wr q buffer h (h', inside) differ =
      bytes_read-Apart k wr q buffer apart
    where
      apart :
          Apart fs s.world p.table_id (offset_of p.page_index) q.table_id (offset_of q.page_index)
      apart = elim (ℕ_discrete p.table_id q.table_id) [
        | no n ↦ inl n
        | yes e ↦ inr (
          inside,
          apart_offsets p.page_index q.page_index h h' (λ e'. true≢false (
              sym (rw (eq→== p.table_id q.table_id e, eq→== p.page_index q.page_index e'))
              ∙ differ)),
        )
      ]

  same_page-eq : (p q : PageId) → same_page p q ≡ true → p ≡ q
  same_page-eq p q e = elim (ℕ_discrete p.table_id q.table_id) [
    | no n ↦ absurd (true≢false (sym e ∙ (rw (ne→== p.table_id q.table_id n))))
    | yes t ↦ elim (ℕ_discrete p.page_index q.page_index) [
      | no n ↦ absurd (
          true≢false
            (sym e ∙ (rw (eq→== p.table_id q.table_id t, ne→== p.page_index q.page_index n))))
      | yes x ↦ λ i. record { table_id = t i; page_index = x i }
    ]
  ]

  -- When a write of a page of `u32` index does not fail, a read of that page gives the bytes that
  -- were written, and a read of another page, which lies inside its file and has an index on `u32`,
  -- gives what it gave before the write.
  pub read_page-write_page :
      KeepsFiles fs
      → (s : Disks fs) (p q : PageId) (bytes buffer : Buffer) → p.page_index < 2 ^ 32
      → (same_page p q ≡ true) ⊎ IsStored s q
      → (write_page fs p bytes s).1 ≡ true
      → bytes_read q buffer (write_page fs p bytes s).0
        ≡ (if same_page p q then some bytes else bytes_read q buffer s)
  read_page-write_page k s p q bytes buffer h which succeeds =
      let wr : Writes s p bytes (write_page fs p bytes s).0 =
        write_page-Writes s p bytes succeeds in
      elim (Bool-cases (same_page p q)) [
        | inl e ↦ rw e (
            subst (λ r. bytes_read r buffer (write_page fs p bytes s).0 ≡ some bytes)
              (same_page-eq p q e) (bytes_read-same k wr buffer))
        | inr e ↦ rw e (bytes_read-other k wr q buffer h (stored e which) e)
      ]
    where
      stored : same_page p q ≡ false → (same_page p q ≡ true) ⊎ IsStored s q → IsStored s q
      stored e (inl e') = absurd (true≢false (sym e' ∙ e))
      stored e (inr st) = st
