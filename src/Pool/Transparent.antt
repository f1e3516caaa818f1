-- ===== src/Pool/Transparent.antt =====
-- A fetch of a stored page.
use native.Mathlib.Decide.{ℕ_discrete}
use rarm_db.Base.{
  arith, [], ℕ, ◌≡◌, ◌≢◌, refl, ap, sym, ◌∙◌, Option, none, some, Bool, true, false, ◌⊎◌, inl, inr,
  get_elem?, Returns, Bool-cases, get_elem?-set_self, get_elem?-set_ne, get_elem?-some,
}
use rarm_db.Page.{PageId}
use rarm_db.Page.Buffer.{Buffer}
use rarm_db.Frame.{Frame}
use rarm_db.Pool.{
  BufferPoolManager, Reservation, cached, reserved, buffer_full, page_id_eq, insert_key, with_frame,
  reserve,
}
use rarm_db.Pool.Consistent.{IsConsistent, page_id_eq→eq}
use rarm_db.Pool.Available.{IsFlush, IsFull, noted, channels-IsConsistentBut}
use rarm_db.Pool.Reserve.{Reserves, OthersKept, pinned_once_more, taken, reserve-Reserves}
use rarm_db.Pool.Steps.{kept-IsConsistent}
use rarm_db.Pool.Reachable.{HasRoom, install_lem}
use rarm_db.Pool.Fetch.{
  DiskManager, KeepsPages, BufferPoolError, Fetched, fetched, failed, waits, finish, load, answer,
  fetch_and_pin_frame,
}
use rarm_db.Pool.Contents.{
  some-injective, content, cached_bytes, bytes_at, IsCoherent, Replaces, content_same,
  IsCoherent-same,
}

-- No page has a channel.
abbrev pub IsQuiet : BufferPoolManager → Type 0
IsQuiet s = (q : PageId) → (s.fetches q ≡ false) × (s.flushes q ≡ false)

-- A channel that comes and goes.
insert_twice :
    (before now : PageId → Bool) (p q : PageId)
    → now ≡ insert_key before p true
    → before q ≡ false
    → insert_key now p false q ≡ false
insert_twice before now p q e h = elim (Bool-cases (page_id_eq p q)) [
  | inl same ↦ rw same
  | inr other ↦ let was : now q ≡ before q = ap (λ t. t q) e ∙ (rw other) in rw other (was ∙ h)
]

pub insert_other :
    (before : PageId → Bool) (p q : PageId) (b : Bool)
    → page_id_eq p q ≡ false
    → insert_key before p b q ≡ before q
insert_other before p q b other = rw other

-- The pages of the frames are on the disk.
abbrev pub FramesStored : (m : DiskManager) → KeepsPages m → BufferPoolManager → m.Disk → Type 0
FramesStored m laws s d =
    (i : ℕ) (f : Frame) (q : PageId)
    → get_elem? s.frames i ≡ some f
    → f.page_id ≡ some q
    → laws.IsStored d q

-- What a fetch of a stored page promises: the page is in a pinned frame, and every stored page
-- stays so and has the same content; or the buffer was full.
abbrev pub Fetches :
    (m : DiskManager)
    → KeepsPages m
    → PageId
    → BufferPoolManager
    → m.Disk
    → BufferPoolManager × m.Disk × Fetched
    → Type 0
Fetches m laws p s d (s', d', fetched i) =
    IsConsistent s'
    × IsCoherent m s' d'
    × IsQuiet s'
    × (s'.page_table p ≡ some i)
    × ((f : Frame) × (get_elem? s'.frames i ≡ some f) × (f.pin_count ≢ 0))
    × ((q : PageId)
        → laws.IsStored d q
        → laws.IsStored d' q × (content m s' d' q ≡ content m s d q))
Fetches m laws p s d (s', d', failed e) =
    (e ≡ BufferPoolError.no_frame) × (d' ≡ d) × (s.free_frames ≡ []) × IsFull s
Fetches m laws p s d (s', d', waits) = ⊥

module _ (m : DiskManager) (laws : KeepsPages m) (s : BufferPoolManager) (d : m.Disk) (p : PageId)
    (c : IsConsistent s) (quiet : IsQuiet s) (coherent : IsCoherent m s d) where
  -- The page is there: its frame only gets a pin.
  cached_content :
      (s' : BufferPoolManager) (i : ℕ) (f : Frame)
      → get_elem? s.frames i ≡ some f
      → get_elem? s'.frames i ≡ some (pinned_once_more f)
      → OthersKept s i s'
      → (t : Option ℕ) (q : PageId) → bytes_at m s' d q t ≡ bytes_at m s d q t
  cached_content s' i f there there' others none q = refl
  cached_content s' i f there there' others (some j) q = elim (ℕ_discrete i j) [
    | yes e ↦ rw (← e, there, there')
    | no n ↦ ap (cached_bytes m) (others j n)
  ]

  cached-IsCoherent :
      (s' : BufferPoolManager) (i : ℕ) (f : Frame)
      → get_elem? s.frames i ≡ some f
      → get_elem? s'.frames i ≡ some (pinned_once_more f)
      → OthersKept s i s'
      → IsCoherent m s' d
  cached-IsCoherent s' i f there there' others j h q e page clean = elim (ℕ_discrete i j) [
    | yes ij ↦
        let at_i : get_elem? s'.frames i ≡ some h = rw ij e in
        let fh : pinned_once_more f ≡ h = some-injective (sym there' ∙ at_i) in
        coherent i f q there (ap (λ x. x.page_id) fh ∙ page) (ap (λ x. x.is_dirty) fh ∙ clean)
        ∙ ap (λ x. some x.bytes) fh
    | no n ↦ coherent j h q (sym (others j n) ∙ e) page clean
  ]

  cached-Fetches :
      (s' : BufferPoolManager) (i : ℕ)
      → Reserves p s (s', cached i)
      → Returns (answer m p (s', cached i) d) (Fetches m laws p s d)
  unfolding answer
  cached-Fetches s' i (c', e, (f, there, there'), others, fe, fl, t) =
      let calm : s'.fetches p ≡ false = ap (λ x. x p) fe ∙ (quiet p).0 in
      (
        (s', d, fetched i),
        rw (answer, calm),
        (
          c',
          cached-IsCoherent s' i f there there' others,
          λ q. (ap (λ x. x q) fe ∙ (quiet q).0, ap (λ x. x q) fl ∙ (quiet q).1),
          ap (λ x. x p) t ∙ e,
          (pinned_once_more f, there', λ z. omega arith),
          λ q stored. (
            stored,
            ap (bytes_at m s' d q) (ap (λ x. x q) t)
                ∙ cached_content s' i f there there' others (s.page_table q) q,
          ),
        ),
      )

  module _ (frames_stored : FramesStored m laws s d) (stored : laws.IsStored d p)
      (writes : (q : PageId) (b : Buffer)
        → laws.IsStored d q
        → (d' : m.Disk) × (m.write_page d q b ≡ some d'))
      (bytes : Buffer) (reads : m.read_page d p ≡ some bytes) (s1 : BufferPoolManager) (i : ℕ)
      (f : Frame) (c1 : IsConsistent s1) (table : s1.page_table p ≡ some i)
      (there : get_elem? s.frames i ≡ some f) (there1 : get_elem? s1.frames i ≡ some (taken f p))
      (others : OthersKept s i s1) (fe : s1.fetches ≡ insert_key s.fetches p true)
      (new_page : s.page_table p ≡ none) where
    abbrev loaded : Frame
    loaded = record (taken f p) { bytes = bytes }

    abbrev settled : (PageId → Bool) → BufferPoolManager
    settled flushes = record (with_frame s1 i loaded) {
      fetches = insert_key s1.fetches p false;
      flushes = flushes;
    }

    settled-IsConsistent : (flushes : PageId → Bool) → IsConsistent (settled flushes)
    settled-IsConsistent flushes =
        channels-IsConsistentBut (λ j. ⊥) (with_frame s1 i loaded) (insert_key s1.fetches p false)
          flushes (kept-IsConsistent s1 i (taken f p) loaded p c1 there1 refl refl refl refl)

    settled-Replaces :
        (flushes : PageId → Bool) (d' : m.Disk)
        → ((q : PageId) → f.page_id ≡ some q → m.read_page d' q ≡ some f.bytes)
        → ((q : PageId)
            → laws.IsStored d q
            → f.page_id ≢ some q
            → m.read_page d' q ≡ m.read_page d q)
        → Replaces m (laws.IsStored d) s (settled flushes) d d' p i f loaded
    settled-Replaces flushes d' old rest = record {
      before = c;
      after = settled-IsConsistent flushes;
      others = λ j k. get_elem?-set_ne s1.frames i j loaded k ∙ others j k;
      new_page = new_page;
      is_there = there;
      is_there' = get_elem?-set_self s1.frames i loaded (get_elem?-some s1.frames i there1);
      page = refl;
      loaded = reads;
      old_kept = old;
      new_stored = stored;
      frames_stored = frames_stored;
      rest_kept = rest;
    }

    settled-Fetches :
        (flushes : PageId → Bool) (d' : m.Disk)
        → ((q : PageId) → flushes q ≡ false)
        → ((q : PageId) → laws.IsStored d q → laws.IsStored d' q)
        → Replaces m (laws.IsStored d) s (settled flushes) d d' p i f loaded
        → Fetches m laws p s d (settled flushes, d', fetched i)
    settled-Fetches flushes d' calm stay w = (
      w.after,
      IsCoherent-same m (laws.IsStored d) s (settled flushes) d d' p i f loaded w coherent,
      λ q. (insert_twice s.fetches s1.fetches p q fe (quiet q).0, calm q),
      table,
      (loaded, w.is_there', λ z. omega arith),
      λ q st. (
        stay q st,
        content_same m (laws.IsStored d) s (settled flushes) d d' p i f loaded w q st,
      ),
    )

    loaded-Fetches :
        (to_flush : Option (PageId × Buffer))
        → IsFlush f to_flush
        → s1.flushes ≡ noted s.flushes to_flush
        → Returns (load m p i to_flush s1 d) (Fetches m laws p s d)
    unfolding load finish
    loaded-Fetches none flush fl =
        let calm : (q : PageId) → s1.flushes q ≡ false = λ q. ap (λ t. t q) fl ∙ (quiet q).1 in
        (
          (settled s1.flushes, d, fetched i),
          rw (load, calm p, reads, install_lem s1 p i bytes (taken f p) there1),
          settled-Fetches s1.flushes d calm (λ q st. st)
              (settled-Replaces s1.flushes d (clean flush) (λ q st n. refl)),
        )
      where
        clean :
            ((f.page_id ≡ none) ⊎ (f.is_dirty ≡ false))
            → (q : PageId) → f.page_id ≡ some q
            → m.read_page d q ≡ some f.bytes
        clean (inl no_page) q page = let no : none ≡ some q = sym no_page ∙ page in absurd (cc)
        clean (inr h) q page = coherent i f q there page h
    loaded-Fetches (some (q0, b0)) (page, dirty, same) fl =
        let stored0 : laws.IsStored d q0 = frames_stored i f q0 there page in
        let (d', r) = writes q0 b0 stored0 in
        let other : page_id_eq q0 p ≡ false = not_same (Bool-cases (page_id_eq q0 p)) in
        let calm : s1.flushes p ≡ false =
          ap (λ t. t p) fl ∙ insert_other s.flushes q0 p true other ∙ (quiet p).1 in
        let flushes = insert_key s1.flushes q0 false in
        (
          (settled flushes, d', fetched i),
          rw (load, calm, reads, install_lem s1 p i bytes (taken f p) there1, finish, r),
          settled-Fetches flushes d' (λ q. insert_twice s.flushes s1.flushes q0 q fl (quiet q).1)
              (λ q st. laws.stays d d' q0 q b0 r st)
              (settled-Replaces flushes d' (old d' r) (rest d' r)),
        )
      where
        not_same : (page_id_eq q0 p ≡ true) ⊎ (page_id_eq q0 p ≡ false) → page_id_eq q0 p ≡ false
        not_same (inr h) = h
        not_same (inl h) =
            let here : s.page_table q0 ≡ some i = c.found i f q0 (λ x. x) there page in
            let no : none ≡ some i =
              sym new_page ∙ ap s.page_table (sym (page_id_eq→eq q0 p h)) ∙ here in
            absurd (cc)

        old :
            (d' : m.Disk)
            → m.write_page d q0 b0 ≡ some d'
            → (q : PageId) → f.page_id ≡ some q
            → m.read_page d' q ≡ some f.bytes
        old d' r q page' =
            let qq : q0 ≡ q = some-injective (sym page ∙ page') in
            ap (m.read_page d') (sym qq) ∙ laws.read-write d d' q0 b0 r ∙ ap some (sym same)

        rest :
            (d' : m.Disk)
            → m.write_page d q0 b0 ≡ some d'
            → (q : PageId) → laws.IsStored d q
            → f.page_id ≢ some q
            → m.read_page d' q ≡ m.read_page d q
        rest d' r q st n = elim (Bool-cases (page_id_eq q0 q)) [
          | inl h ↦ absurd (n (page ∙ ap some (page_id_eq→eq q0 q h)))
          | inr h ↦ laws.read-write_other d d' q0 q b0 r (frames_stored i f q0 there page) st h
        ]

-- For a disk manager that keeps the pages, on a disk where the page and the pages of the frames are
-- stored, which reads the page and on which writes of stored pages succeed; a consistent pool with
-- no channel and no pin count at its limit, whose clean frames have the bytes of the disk; and no
-- other task: `fetch_and_pin_frame` does not panic or wait. It returns the frame that has the page,
-- pinned, and a pool that is again consistent, without channels and with clean frames as the disk;
-- every stored page stays so, and what readers get of it, from the pool or else from the disk, is
-- as before. Or it finds no frame: none is free, and every frame with a page is pinned.
pub fetch_and_pin_frame-Fetches :
    (m : DiskManager) (s : BufferPoolManager) (d : m.Disk) (p : PageId) (bytes : Buffer)
    → (laws : KeepsPages m)
    → ((q : PageId) (b : Buffer)
        → laws.IsStored d q
        → (d' : m.Disk) × (m.write_page d q b ≡ some d'))
    → FramesStored m laws s d
    → laws.IsStored d p
    → IsConsistent s
    → HasRoom s
    → IsQuiet s
    → IsCoherent m s d
    → m.read_page d p ≡ some bytes
    → Returns (fetch_and_pin_frame m p s d) (Fetches m laws p s d)
unfolding fetch_and_pin_frame answer
fetch_and_pin_frame-Fetches m s d p bytes laws writes frames_stored stored c room quiet coherent
      reads =
    after (reserve-Reserves s p c room)
  where
    answered :
        (x : BufferPoolManager × Reservation)
        → Reserves p s x
        → Returns (answer m p x d) (Fetches m laws p s d)
    answered (s', cached i) h = cached-Fetches m laws s d p c quiet coherent s' i h
    answered (s', reserved i to_flush)
          (c1, table, (f, there, z, there1, flush), others, fe, fl, new_page) =
        loaded-Fetches m laws s d p c quiet coherent frames_stored stored writes bytes reads s' i f
          c1 table there there1 others fe new_page to_flush flush fl
    answered (s', buffer_full) (c', same, none_free, full) =
        ((s', d, failed BufferPoolError.no_frame), refl, (refl, refl, none_free, full))

    after :
        Returns (reserve p s) (Reserves p s)
        → Returns (fetch_and_pin_frame m p s d) (Fetches m laws p s d)
    after (x, r, h) = let (y, r', k) = answered x h in (y, rw (fetch_and_pin_frame, r) r', k)
