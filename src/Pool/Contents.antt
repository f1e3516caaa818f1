-- ===== src/Pool/Contents.antt =====
-- A fetch changes the contents of no stored page: the pool is a cache of the disk.
use native.Mathlib.Decide.{ℕ_discrete}
use rarm_db.Base.{
  ℕ, ◌≡◌, ◌≢◌, ap, sym, ◌∙◌, Option, none, some, false, inl, inr, get_elem?, Option-cases,
}
use rarm_db.Page.{PageId}
use rarm_db.Page.Buffer.{Buffer}
use rarm_db.Frame.{Frame}
use rarm_db.Pool.{BufferPoolManager}
use rarm_db.Pool.Consistent.{IsConsistent}
use rarm_db.Pool.Reserve.{OthersKept}
use rarm_db.Pool.Fetch.{DiskManager}

pub some-injective : {A : Type 0} {a b : A} → some a ≡ some b → a ≡ b
some-injective e = cc

module _ (m : DiskManager) where
  abbrev pub cached_bytes : Option Frame → Option Buffer
  cached_bytes none = none
  cached_bytes (some f) = some f.bytes

  abbrev pub bytes_at : BufferPoolManager → m.Disk → PageId → Option ℕ → Option Buffer
  bytes_at s d q none = m.read_page d q
  bytes_at s d q (some i) = cached_bytes (get_elem? s.frames i)

  -- What a reader of a page gets: the bytes of its frame, or those on the disk.
  abbrev pub content : BufferPoolManager → m.Disk → PageId → Option Buffer
  content s d q = bytes_at s d q (s.page_table q)

  -- The clean frames have the bytes of the disk.
  abbrev pub IsCoherent : BufferPoolManager → m.Disk → Type 0
  IsCoherent s d =
      (i : ℕ) (f : Frame) (q : PageId)
      → get_elem? s.frames i ≡ some f
      → f.page_id ≡ some q
      → f.is_dirty ≡ false
      → m.read_page d q ≡ some f.bytes

  -- A frame got a new page, and its old page is on the disk; `stored` are the pages that are there.
  pub record Replaces (stored : PageId → Type 0) (s s' : BufferPoolManager) (d d' : m.Disk)
      (p : PageId) (i : ℕ) (f g : Frame) : Type 0 where
    pub before : IsConsistent s
    pub after : IsConsistent s'
    pub others : OthersKept s i s'
    pub new_page : s.page_table p ≡ none
    pub is_there : get_elem? s.frames i ≡ some f
    pub is_there' : get_elem? s'.frames i ≡ some g
    pub page : g.page_id ≡ some p
    pub loaded : m.read_page d p ≡ some g.bytes
    pub old_kept : (q : PageId) → f.page_id ≡ some q → m.read_page d' q ≡ some f.bytes
    pub new_stored : stored p
    pub frames_stored :
        (j : ℕ) (h : Frame) (q : PageId)
        → get_elem? s.frames j ≡ some h
        → h.page_id ≡ some q
        → stored q
    pub rest_kept :
        (q : PageId) → stored q → f.page_id ≢ some q → m.read_page d' q ≡ m.read_page d q

  module _ (stored : PageId → Type 0) (s s' : BufferPoolManager) (d d' : m.Disk) (p : PageId)
      (i : ℕ) (f g : Frame) (w : Replaces stored s s' d d' p i f g) where
    -- The page that was evicted is not the one that is loaded.
    not_old : f.page_id ≢ some p
    not_old e =
        let there : s.page_table p ≡ some i = w.before.found i f p (λ x. x) w.is_there e in
        let no : none ≡ some i = sym w.new_page ∙ there in cc

    content_cached :
        (q : PageId) (j : ℕ) → s'.page_table q ≡ some j → content s' d' q ≡ content s d q
    content_cached q j e = elim (ℕ_discrete i j) [
      | yes ij ↦
          let (x, (h, at_j, page_j)) = w.after.mapped q j e in
          let at_i : get_elem? s'.frames i ≡ some h = rw ij at_j in
          let gh : g ≡ h = some-injective (sym w.is_there' ∙ at_i) in
          let pq : p ≡ q = some-injective (sym w.page ∙ ap (λ x. x.page_id) gh ∙ page_j) in
          let was : s.page_table q ≡ none = ap s.page_table (sym pq) ∙ w.new_page in
          let read : m.read_page d q ≡ some g.bytes = ap (m.read_page d) (sym pq) ∙ w.loaded in
          rw (e, ← ij, w.is_there', was) (sym read)
      | no n ↦
          let (x, (h, at_j, page_j)) = w.after.mapped q j e in
          let was_j : get_elem? s.frames j ≡ some h = sym (w.others j n) ∙ at_j in
          let was : s.page_table q ≡ some j = w.before.found j h q (λ x. x) was_j page_j in
          rw (e, was, at_j, was_j)
    ]

    content_evicted :
        (q : PageId) (j : ℕ)
        → s'.page_table q ≡ none
        → s.page_table q ≡ some j
        → content s' d' q ≡ content s d q
    content_evicted q j e was = elim (ℕ_discrete i j) [
      | yes ij ↦
          let (x, (h, at_j, page_j)) = w.before.mapped q j was in
          let at_i : get_elem? s.frames i ≡ some h = rw ij at_j in
          let fh : f ≡ h = some-injective (sym w.is_there ∙ at_i) in
          rw (e, was, at_j)
            (w.old_kept q (ap (λ x. x.page_id) fh ∙ page_j) ∙ ap (λ x. some x.bytes) fh)
      | no n ↦
          let (x, (h, at_j, page_j)) = w.before.mapped q j was in
          let now : s'.page_table q ≡ some j =
            w.after.found j h q (λ x. x) (w.others j n ∙ at_j) page_j in
          let no : none ≡ some j = sym e ∙ now in absurd (cc)
    ]

    content_uncached :
        (q : PageId)
        → stored q
        → s'.page_table q ≡ none
        → s.page_table q ≡ none
        → content s' d' q ≡ content s d q
    content_uncached q st e was =
        rw (e, was)
          (w.rest_kept q st (λ page.
            let there : s.page_table q ≡ some i = w.before.found i f q (λ x. x) w.is_there page in
            let no : none ≡ some i = sym was ∙ there in cc))

    pub content_same : (q : PageId) → stored q → content s' d' q ≡ content s d q
    content_same q st = elim (Option-cases (s'.page_table q)) [
      | inr (j, e) ↦ content_cached q j e
      | inl e ↦ elim (Option-cases (s.page_table q)) [
        | inr (j, was) ↦ content_evicted q j e was
        | inl was ↦ content_uncached q st e was
      ]
    ]

    pub IsCoherent-same : IsCoherent s d → IsCoherent s' d'
    IsCoherent-same c j h q e page clean = elim (ℕ_discrete i j) [
      | yes ij ↦
          let at_i : get_elem? s'.frames i ≡ some h = rw ij e in
          let gh : g ≡ h = some-injective (sym w.is_there' ∙ at_i) in
          let pq : p ≡ q = some-injective (sym w.page ∙ ap (λ x. x.page_id) gh ∙ page) in
          ap (m.read_page d') (sym pq)
          ∙ w.rest_kept p w.new_stored not_old
          ∙ w.loaded
          ∙ ap (λ x. some x.bytes) gh
      | no n ↦
          let was_j : get_elem? s.frames j ≡ some h = sym (w.others j n) ∙ e in
          w.rest_kept q (w.frames_stored j h q was_j page) (λ old.
            let here : s.page_table q ≡ some i = w.before.found i f q (λ x. x) w.is_there old in
            let there : s.page_table q ≡ some j = w.before.found j h q (λ x. x) was_j page in
            n (some-injective (sym here ∙ there)))
          ∙ c j h q was_j page clean
    ]
