-- ===== src/Pool/Failure.antt =====
-- A fetch on a disk that cannot read the page.
use native.Mathlib.Decide.{ℕ_discrete}
use rarm_db.Base.{
  ℕ, ◌≡◌, refl, ap, sym, ◌∙◌, Option, none, some, true, false, inl, inr, get_elem?, Returns,
  Bool-cases, Option-cases,
}
use rarm_db.Page.{PageId}
use rarm_db.Page.Buffer.{Buffer}
use rarm_db.Frame.{Frame}
use rarm_db.Pool.{
  BufferPoolManager, Reservation, cached, reserved, buffer_full, page_id_eq, reserve,
}
use rarm_db.Pool.Consistent.{IsConsistent, page_id_eq→eq, page_id_eq_refl}
use rarm_db.Pool.Available.{IsFlush, IsFull, noted}
use rarm_db.Pool.Reserve.{Reserves, OthersKept, taken, reserve-Reserves}
use rarm_db.Pool.Reachable.{HasRoom}
use rarm_db.Pool.Fetch.{
  DiskManager, BufferPoolError, Fetched, fetched, failed, waits, load, answer, fetch_and_pin_frame,
}
use rarm_db.Pool.Contents.{some-injective}
use rarm_db.Pool.Transparent.{IsQuiet, insert_other}

-- What is left behind: the frame stays pinned and in the page table, the channel stays, and a page
-- that the frame had is gone from the table.
abbrev pub LeavesBehind : PageId → BufferPoolManager → BufferPoolManager → Type 0
LeavesBehind p s s' =
    (i : ℕ) × (f : Frame) × (get_elem? s.frames i ≡ some f)
    × (s'.page_table p ≡ some i)
    × (get_elem? s'.frames i ≡ some (taken f p))
    × (s'.fetches p ≡ true)
    × ((q : PageId) → f.page_id ≡ some q → s'.page_table q ≡ none)

abbrev pub FailsToRead :
    (m : DiskManager)
    → PageId
    → BufferPoolManager
    → m.Disk
    → BufferPoolManager × m.Disk × Fetched
    → Type 0
FailsToRead m p s d (s', d', fetched i) = ⊥
FailsToRead m p s d (s', d', waits) = ⊥
FailsToRead m p s d (s', d', failed BufferPoolError.no_frame) = (d' ≡ d) × IsFull s
FailsToRead m p s d (s', d', failed (BufferPoolError.disk_read q)) =
    (d' ≡ d) × (q ≡ p) × LeavesBehind p s s'
FailsToRead m p s d (s', d', failed (BufferPoolError.disk_write q)) = ⊥

module _ (s s' : BufferPoolManager) (p : PageId) (i : ℕ) (f : Frame) (c : IsConsistent s)
    (c' : IsConsistent s') (there : get_elem? s.frames i ≡ some f)
    (there' : get_elem? s'.frames i ≡ some (taken f p)) (others : OthersKept s i s')
    (new_page : s.page_table p ≡ none) (q : PageId) (page : f.page_id ≡ some q) where
  not_elsewhere : (j : ℕ) → s'.page_table q ≡ some j → ⊥
  not_elsewhere j e =
      let (x, (h, at_j, page_j)) = c'.mapped q j e in
      let here : s.page_table q ≡ some i = c.found i f q (λ x. x) there page in
      elim (ℕ_discrete i j) [
        | yes ij ↦
            let at_i : get_elem? s'.frames i ≡ some h = rw ij at_j in
            let th : taken f p ≡ h = some-injective (sym there' ∙ at_i) in
            let pq : p ≡ q = some-injective (ap (λ x. x.page_id) th ∙ page_j) in
            let no : none ≡ some i = sym new_page ∙ ap s.page_table pq ∙ here in cc
        | no n ↦
            let was : s.page_table q ≡ some j =
              c.found j h q (λ x. x) (sym (others j n) ∙ at_j) page_j in
            n (some-injective (sym here ∙ was))
      ]

  gone : s'.page_table q ≡ none
  gone = elim (Option-cases (s'.page_table q)) [
    | inl e ↦ e
    | inr (j, e) ↦ absurd (not_elsewhere j e)
  ]

noted_other :
    (s : BufferPoolManager) (p : PageId) (i : ℕ) (f : Frame) (to_flush : Option (PageId × Buffer))
    → IsConsistent s
    → get_elem? s.frames i ≡ some f
    → IsFlush f to_flush
    → s.page_table p ≡ none
    → noted s.flushes to_flush p ≡ s.flushes p
noted_other s p i f none c there flush e = refl
noted_other s p i f (some (q, b)) c there flush e = elim (Bool-cases (page_id_eq q p)) [
  | inl h ↦
      let here : s.page_table q ≡ some i = c.found i f q (λ x. x) there flush.0 in
      let no : none ≡ some i = sym e ∙ ap s.page_table (sym (page_id_eq→eq q p h)) ∙ here in
      absurd (cc)
  | inr h ↦ insert_other s.flushes q p true h
]

-- For a consistent pool with no channel and no pin count at its limit that does not have the page,
-- and a disk that cannot read it: `fetch_and_pin_frame` finds no frame, or it fails with the error
-- of the read and an unchanged disk. In that case the frame stays pinned with the page in the page
-- table and the channel open; the page that was evicted from it is not in the table any more, and
-- was not written even if it was dirty.
pub fetch_and_pin_frame-FailsToRead :
    (m : DiskManager) (s : BufferPoolManager) (d : m.Disk) (p : PageId)
    → IsConsistent s
    → HasRoom s
    → IsQuiet s
    → s.page_table p ≡ none
    → m.read_page d p ≡ none
    → Returns (fetch_and_pin_frame m p s d) (FailsToRead m p s d)
unfolding fetch_and_pin_frame answer load
fetch_and_pin_frame-FailsToRead m s d p c room quiet new_page fails =
    after (reserve-Reserves s p c room)
  where
    answered :
        (x : BufferPoolManager × Reservation)
        → Reserves p s x
        → Returns (answer m p x d) (FailsToRead m p s d)
    answered (s', cached i) (c', e, at_i, others, fe, fl, t) =
        let no : none ≡ some i = sym new_page ∙ e in absurd (cc)
    answered (s', reserved i to_flush)
          (c', table, (f, there, z, there', flush), others, fe, fl, e) =
        let calm : s'.flushes p ≡ false =
          ap (λ t. t p) fl ∙ noted_other s p i f to_flush c there flush new_page ∙ (quiet p).1 in
        (
          (s', d, failed (BufferPoolError.disk_read p)),
          rw (answer, load, calm, fails),
          (
            refl,
            refl,
            (
              i,
              f,
              there,
              table,
              there',
              ap (λ t. t p) fe ∙ (rw (page_id_eq_refl p)),
              gone s s' p i f c c' there there' others new_page,
            ),
          ),
        )
    answered (s', buffer_full) (c', same, none_free, full) =
        ((s', d, failed BufferPoolError.no_frame), refl, (refl, full))

    after :
        Returns (reserve p s) (Reserves p s)
        → Returns (fetch_and_pin_frame m p s d) (FailsToRead m p s d)
    after (x, r, h) = let (y, r', k) = answered x h in (y, rw (fetch_and_pin_frame, r) r', k)
