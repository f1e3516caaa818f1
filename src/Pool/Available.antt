-- ===== src/Pool/Available.antt =====
-- What `available_frame` finds.
use rarm_db.Base.{
  ℕ, ◌≡◌, ◌≢◌, refl, ap, sym, ◌∙◌, List, [], ◌∷◌, Option, none, some, Bool, true, false, ◌&&◌, ◌==◌,
  ◌⊎◌, inl, inr, arith, get_elem?, length, get_elem?-some, get_elem?_lt, Returns, Outcome, done,
  Bool-cases, eq→==, Option-cases,
}
use native.Mathlib.Decide.{ℕ_discrete}
use rarm_db.Page.{PageId}
use rarm_db.Page.Buffer.{Buffer}
use rarm_db.Evictor.{ClockEvictorState, victim}
use rarm_db.Evictor.Count.{count_set_pos}
use rarm_db.Evictor.Victim.{victim-GivesFrame}
use rarm_db.Evictor.Sweep.{Evicts, victim-Evicts}
use rarm_db.Frame.{Frame}
use rarm_db.Pool.{
  BufferPoolManager, Available, page_id_eq, insert_key, pop, evict_page, available_frame,
}
use rarm_db.Pool.Consistent.{has_page, evictable, IsConsistentBut, IsConsistent, IsVacant}
use rarm_db.Pool.Vacant.{Pops, pop-Pops, free-IsVacant, evictable_lem, without, evicted-IsVacant}

-- The channels are not in the invariant.
pub channels-IsConsistentBut :
    (skip : ℕ → Type 0) (s : BufferPoolManager) (fetches flushes : PageId → Bool)
    → IsConsistentBut skip s
    → IsConsistentBut skip (record s { fetches = fetches; flushes = flushes })
channels-IsConsistentBut skip s fetches flushes c = record {
  valid = c.valid;
  as_many = c.as_many;
  ids = c.ids;
  held = c.held;
  mapped = c.mapped;
  found = c.found;
  idle = c.idle;
  once = c.once;
}

channels-IsVacant :
    (s : BufferPoolManager) (i : ℕ) (f : Frame) (flushes : PageId → Bool)
    → IsVacant s i f
    → IsVacant (record s { flushes = flushes }) i f
channels-IsVacant s i f flushes v = record {
  others = channels-IsConsistentBut (λ j. j ≡ i) s s.fetches flushes v.others;
  is_there = v.is_there;
  unpinned = v.unpinned;
  not_held = v.not_held;
  not_free = v.not_free;
}

-- The page to flush from a frame: its page, if that is dirty.
abbrev pub IsFlush : Frame → Option (PageId × Buffer) → Type 0
IsFlush f none = (f.page_id ≡ none) ⊎ (f.is_dirty ≡ false)
IsFlush f (some (p, bytes)) = (f.page_id ≡ some p) × (f.is_dirty ≡ true) × (f.bytes ≡ bytes)

-- The channels with that of the page to flush.
abbrev pub noted : (PageId → Bool) → Option (PageId × Buffer) → PageId → Bool
noted flushes none = flushes
noted flushes (some (p, bytes)) = insert_key flushes p true

-- Every frame with a page is pinned.
abbrev pub IsFull : BufferPoolManager → Type 0
IsFull s = (i : ℕ) (f : Frame) → get_elem? s.frames i ≡ some f → f.page_id ≢ none → f.pin_count ≢ 0

-- What `available_frame` finds.
abbrev pub Finds : BufferPoolManager → BufferPoolManager × Available → Type 0
Finds s (s', none) =
    IsConsistent s'
    × (s'.frames ≡ s.frames)
    × (s'.page_table ≡ s.page_table)
    × (s.free_frames ≡ [])
    × IsFull s
Finds s (s', some (i, to_flush)) =
    (f : Frame) × IsVacant s' i f
    × (s'.frames ≡ s.frames)
    × ((p : PageId) → s.page_table p ≡ none → s'.page_table p ≡ none)
    × IsFlush f to_flush
    × (s'.fetches ≡ s.fetches)
    × (s'.flushes ≡ noted s.flushes to_flush)

pub without_none :
    (m : PageId → Option ℕ) (p q : PageId) → m q ≡ none → insert_key m p none q ≡ none
without_none m p q e = elim (Bool-cases (page_id_eq p q)) [ inl h ↦ rw h | inr h ↦ rw h e ]

pub pop-none : (l : List ℕ) → pop l ≡ none → l ≡ []
unfolding pop
pop-none [] h = refl
pop-none (x ∷ xs) h = elim (Option-cases (pop xs)) [
  | inl e ↦ let no : Path (Option (ℕ × List ℕ)) (some (x, [])) none = rw e at h in cc
  | inr ((y, ys), e) ↦ let no : Path (Option (ℕ × List ℕ)) (some (y, x ∷ ys)) none = rw e at h in cc
]

module _ (s : BufferPoolManager) (c : IsConsistent s) (no_free : pop s.free_frames ≡ none) where
  -- No frame is in the evictor when `victim` gives none.
  full : (evictor : ClockEvictorState) → victim s.evictor ≡ done (evictor, none) → IsFull s
  full evictor r i f there page unpinned = elim (ℕ_discrete s.evictor.size 0) [
    | yes z ↦
        let flag : get_elem? s.evictor.is_in_evictor i ≡ some true =
          c.held i f (λ x. x) there ∙ (able f.page_id page) in
        let some_held = count_set_pos s.evictor.is_in_evictor i flag in
        omega (arith, c.valid.size_counts)
    | no z ↦
        let (evictor', g, r') = victim-GivesFrame s.evictor c.valid (omega arith) in
        let no : Path (Outcome (ClockEvictorState × Option ℕ)) (done (evictor, none))
            (done (evictor', some g)) =
          sym r ∙ r' in
        cc
  ]
    where
      able : (q : Option PageId) → q ≢ none → some (has_page q && f.pin_count == 0) ≡ some true
      able none n = absurd (n refl)
      able (some q) n = ap some (eq→== f.pin_count 0 unpinned)

  none_evicted :
      (evictor : ClockEvictorState)
      → victim s.evictor ≡ done (evictor, none)
      → Evicts s.evictor (evictor, none)
      → Returns (available_frame s) (Finds s)
  unfolding available_frame evict_page
  none_evicted evictor r h = (
    (record s { evictor = evictor }, none),
    rw (available_frame, no_free, r),
    (
      record {
        valid = h.0;
        as_many = ap length h.1 ∙ c.as_many;
        ids = c.ids;
        held = λ i f n e. rw h.1 (c.held i f n e);
        mapped = c.mapped;
        found = c.found;
        idle = c.idle;
        once = c.once;
      },
      refl,
      refl,
      pop-none s.free_frames no_free,
      full evictor r,
    ),
  )

  module _ (evictor : ClockEvictorState) (i : ℕ) (r : victim s.evictor ≡ done (evictor, some i))
      (f : Frame) (p : PageId) (there : get_elem? s.frames i ≡ some f) (page : f.page_id ≡ some p)
      (v : IsVacant (without s evictor p) i f) where
    dirty_evicted : f.is_dirty ≡ true → Returns (available_frame s) (Finds s)
    unfolding available_frame evict_page
    dirty_evicted h = (
      (
        record (without s evictor p) { flushes = insert_key s.flushes p true },
        some (i, some (p, f.bytes)),
      ),
      rw (available_frame, no_free, r, there, page, h),
      (
        f,
        channels-IsVacant (without s evictor p) i f (insert_key s.flushes p true) v,
        refl,
        without_none s.page_table p,
        (page, h, refl),
        refl,
        refl,
      ),
    )

    clean_evicted : f.is_dirty ≡ false → Returns (available_frame s) (Finds s)
    unfolding available_frame evict_page
    clean_evicted h = (
      (without s evictor p, some (i, none)),
      rw (available_frame, no_free, r, there, page, h),
      (f, v, refl, without_none s.page_table p, inr h, refl, refl),
    )

  some_evicted :
      (evictor : ClockEvictorState) (i : ℕ)
      → victim s.evictor ≡ done (evictor, some i)
      → Evicts s.evictor (evictor, some i)
      → Returns (available_frame s) (Finds s)
  some_evicted evictor i r (w, was_held, flags, n) =
      let (f, there) =
        get_elem?_lt s.frames i
          (omega (arith, get_elem?-some s.evictor.is_in_evictor i was_held, c.as_many)) in
      let able : evictable f ≡ true =
        held_true (evictable f) (sym (c.held i f (λ x. x) there) ∙ was_held) in
      let ((p, page), unpinned) = evictable_lem f able in
      let v = evicted-IsVacant s evictor i f p c w was_held flags there page unpinned in
      elim (Bool-cases f.is_dirty) [
        | inl h ↦ dirty_evicted evictor i r f p there page v h
        | inr h ↦ clean_evicted evictor i r f p there page v h
      ]
    where
      held_true : (b : Bool) → some b ≡ some true → b ≡ true
      held_true b e = cc

pub available_frame-Finds :
    (s : BufferPoolManager) → IsConsistent s → Returns (available_frame s) (Finds s)
unfolding available_frame
available_frame-Finds s c = elim (pop-Pops s.frames s.free_frames c.once c.idle) [
  | inl e ↦ evicting e (victim-Evicts s.evictor c.valid)
  | inr (i, rest, e, p) ↦ popped i rest e p
]
  where
    evicting :
        pop s.free_frames ≡ none
        → Returns (victim s.evictor) (Evicts s.evictor)
        → Returns (available_frame s) (Finds s)
    evicting e ((evictor, none), r, h) = none_evicted s c e evictor r h
    evicting e ((evictor, some i), r, h) = some_evicted s c e evictor i r h

    popped :
        (i : ℕ) (rest : List ℕ)
        → pop s.free_frames ≡ some (i, rest)
        → Pops s.frames s.free_frames i rest
        → Returns (available_frame s) (Finds s)
    popped i rest e p = (
      (record s { free_frames = rest }, some (i, none)),
      rw (available_frame, e),
      (
        p.is_idle.frame,
        free-IsVacant s i rest c p,
        refl,
        λ q h. h,
        inl p.is_idle.no_page,
        refl,
        refl,
      ),
    )
