-- ===== src/Disk/Keeping.antt =====
-- The disk manager of crates/storage/src/disk_manager.rs as the one that the buffer pool uses.
use rarm_db.Base.{
  ℕ, ◌≡◌, ap, sym, ◌∙◌, Option, none, some, Bool, true, false, inl, inr, subst, Bool-cases,
}
use mathlib.Core.Bool.{true≢false}
use rarm_db.Page.{PageId}
use rarm_db.Page.Buffer.{Buffer}
use rarm_db.Pool.Fetch.{DiskManager, KeepsPages}
use rarm_db.Disk.{FileSystem, Disks, zero_buffer, offset_of, write_page, written, write_at_handle}
use rarm_db.Disk.Pages.{
  KeepsFiles, Inside, IsStored, opens, bytes_read, get_file_handle-Opened, Writes,
  write_page-Writes, bytes_read-same, bytes_read-other, IsStored-Writes,
}

module _ (fs : FileSystem) where
  abbrev pub accepted : Disks fs × Bool → Option (Disks fs)
  accepted (s, false) = none
  accepted (s, true) = some s

  -- `fetch_and_pin_frame` reads into a buffer of zeros. The handles that a read or a failed write
  -- opens are left out: a later call opens them again.
  abbrev pub disk_manager : DiskManager
  disk_manager = record {
    Disk = Disks fs;
    read_page = λ s p. bytes_read fs p zero_buffer s;
    write_page = λ s p bytes. accepted (write_page fs p bytes s);
  }

  accepted-some : (r : Disks fs × Bool) (s' : Disks fs) → accepted r ≡ some s' → r ≡ (s', true)
  accepted-some (s, false) s' e = let no : none ≡ some s' = e in absurd (cc)
  accepted-some (s, true) s' e = let same : s ≡ s' = cc in ap (λ x. (x, true)) same

  pub accepted-Writes :
      (s s' : Disks fs) (p : PageId) (bytes : Buffer)
      → accepted (write_page fs p bytes s) ≡ some s'
      → Writes fs s p bytes s'
  accepted-Writes s s' p bytes e =
      let r : write_page fs p bytes s ≡ (s', true) = accepted-some (write_page fs p bytes s) s' e in
      subst (Writes fs s p bytes) (ap (λ x. x.0) r)
        (write_page-Writes fs s p bytes (ap (λ x. x.1) r))

  abbrev pub disk_manager-KeepsPages : KeepsFiles fs → KeepsPages disk_manager
  disk_manager-KeepsPages k = record {
    IsStored = IsStored fs;
    read-write =
        λ s s' p bytes e. bytes_read-same fs k (accepted-Writes s s' p bytes e) zero_buffer;
    read-write_other = λ s s' p q bytes e sp sq differ.
        bytes_read-other fs k (accepted-Writes s s' p bytes e) q zero_buffer sp.0 sq differ;
    stays = λ s s' p q bytes e sq. IsStored-Writes fs k (accepted-Writes s s' p bytes e) q sq;
  }

  opens-Inside : (s : Disks fs) (t off : ℕ) → Inside fs s.world t off → opens fs s t ≡ true
  opens-Inside s t off (n, e, h) = elim (Bool-cases (s.file_handles t)) [
    | inl cached ↦ rw cached
    | inr uncached ↦ rw (uncached, e)
  ]

  -- When the file system writes every page that lies inside its file, the disk manager writes every
  -- stored page.
  pub writes-IsStored :
      ((w : fs.World) (t off : ℕ) (bytes : Buffer)
        → Inside fs w t off
        → (w' : fs.World) × (fs.write_at w t off bytes ≡ some w'))
      → (s : Disks fs) (p : PageId) (bytes : Buffer) → IsStored fs s p
      → (s' : Disks fs) × (disk_manager.write_page s p bytes ≡ some s')
  unfolding write_page
  writes-IsStored succeeds s p bytes (small, (n, e, inside)) =
      elim (get_file_handle-Opened fs s p.table_id) [
        | inl (closed, h) ↦ absurd (
            true≢false
              (sym (opens-Inside s p.table_id (offset_of p.page_index) (n, e, inside)) ∙ closed))
        | inr (o, (s', h, opened)) ↦
            let (w, k) =
              succeeds s.world p.table_id (offset_of p.page_index) bytes (n, e, inside) in
            let k' : fs.write_at s'.world p.table_id (offset_of p.page_index) bytes ≡ some w =
              ap (λ x. fs.write_at x p.table_id (offset_of p.page_index) bytes) opened.same_world
              ∙ k in
            (
              record s' { world = w },
              ap (λ x. accepted (write_at_handle fs p bytes s x)) h
                  ∙ ap (λ x. accepted (written fs s' x)) k',
            )
      ]
