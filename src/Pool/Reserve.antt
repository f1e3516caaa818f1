-- ===== src/Pool/Reserve.antt =====
-- The first step of `fetch_and_pin_frame`: the frame for a page, pinned.
use rarm_db.Base.{
  ℕ, ◌+◌, ◌^◌, ◌<◌, ◌≡◌, ◌≢◌, refl, ap, sym, ◌∙◌, [], Option, none, some, true, false, ◌&&◌, ◌==◌,
  ◌⊎◌, inl, inr, arith, get_elem?, set, length, length-set, get_elem?-set_self, get_elem?-set_ne,
  get_elem?-some, Returns, Option-cases, ne→==,
}
use native.Mathlib.Decide.{ℕ_discrete}
use rarm_db.Page.{PageId}
use rarm_db.Page.Buffer.{Buffer}
use rarm_db.Evictor.{ClockEvictorState}
use rarm_db.Frame.{Frame, set_dirty, set_page_id}
use rarm_db.Pool.{
  BufferPoolManager, Available, Reservation, cached, reserved, buffer_full, insert_key, with_frame,
  claim, reserve,
}
use rarm_db.Pool.Consistent.{
  has_page, IsConsistent, IsVacant, with_pin, Pins, pin-Pins, page_id_eq_refl,
}
use rarm_db.Pool.Available.{
  IsFlush, IsFull, noted, Finds, available_frame-Finds, channels-IsConsistentBut,
}
use rarm_db.Pool.Update.{Writes, rewritten-IsConsistent, placed-IsConsistent}

-- The frames other than `i` are as before.
abbrev pub OthersKept : BufferPoolManager → ℕ → BufferPoolManager → Type 0
OthersKept s i s' = (j : ℕ) → i ≢ j → get_elem? s'.frames j ≡ get_elem? s.frames j

abbrev pub pinned_once_more : Frame → Frame
pinned_once_more f = record f { pin_count = f.pin_count + 1 }

-- The frame with a new page, pinned once.
abbrev pub taken : Frame → PageId → Frame
taken f p = pinned_once_more (set_dirty (set_page_id f (some p)) false)

-- What `reserve` promises.
abbrev pub Reserves : PageId → BufferPoolManager → BufferPoolManager × Reservation → Type 0
Reserves p s (s', cached i) =
    IsConsistent s'
    × (s.page_table p ≡ some i)
    × ((f : Frame) × (get_elem? s.frames i ≡ some f)
        × (get_elem? s'.frames i ≡ some (pinned_once_more f)))
    × OthersKept s i s'
    × (s'.fetches ≡ s.fetches)
    × (s'.flushes ≡ s.flushes)
    × (s'.page_table ≡ s.page_table)
Reserves p s (s', reserved i to_flush) =
    IsConsistent s'
    × (s'.page_table p ≡ some i)
    × ((f : Frame) × (get_elem? s.frames i ≡ some f)
        × (f.pin_count ≡ 0)
        × (get_elem? s'.frames i ≡ some (taken f p))
        × IsFlush f to_flush)
    × OthersKept s i s'
    × (s'.fetches ≡ insert_key s.fetches p true)
    × (s'.flushes ≡ noted s.flushes to_flush)
    × (s.page_table p ≡ none)
Reserves p s (s', buffer_full) =
    IsConsistent s' × (s'.frames ≡ s.frames) × (s.free_frames ≡ []) × IsFull s

-- A pin is a write of its frame.
pin-Writes :
    (s : BufferPoolManager) (i : ℕ) (f : Frame) (s0 : BufferPoolManager)
    (evictor : ClockEvictorState)
    → Pins s i f evictor
    → i < length s.frames
    → f.id ≡ i
    → ((j : ℕ) → i ≢ j → get_elem? s.frames j ≡ get_elem? s0.frames j)
    → length s.frames ≡ length s0.frames
    → s.evictor ≡ s0.evictor
    → Writes s0 i (pinned_once_more f) (set s.frames i (pinned_once_more f)) evictor
pin-Writes s i f s0 evictor (r, v, gone, flags, n) inside id away len same = record {
  here = get_elem?-set_self s.frames i (pinned_once_more f) inside;
  away = λ j k. get_elem?-set_ne s.frames i j (pinned_once_more f) k ∙ away j k;
  same_length = length-set s.frames i (pinned_once_more f) ∙ len;
  valid = v;
  flag = gone ∙ ap some (sym (not_evictable f.page_id));
  flags = λ j k. flags j k ∙ ap (λ e. get_elem? e.is_in_evictor j) same;
  as_many = n ∙ ap (λ e. length e.is_in_evictor) same;
  has_id = id;
}
  where
    not_evictable : (q : Option PageId) → (has_page q && f.pin_count + 1 == 0) ≡ false
    not_evictable none = refl
    not_evictable (some q) = ne→== (f.pin_count + 1) 0 (omega arith)

module _ (s : BufferPoolManager) (p : PageId) where
  cached-Reserves :
      (i : ℕ) (f : Frame)
      → IsConsistent s
      → s.page_table p ≡ some i
      → get_elem? s.frames i ≡ some f
      → f.page_id ≡ some p
      → f.pin_count + 1 < 2 ^ 64
      → Returns (reserve p s) (Reserves p s)
  unfolding reserve
  cached-Reserves i f c e there page range =
      let id = c.ids i f there in
      let (evictor, pins) =
        pin-Pins s i f c.valid c.as_many there id range (not_held (ℕ_discrete f.pin_count 0)) in
      let w =
        pin-Writes s i f s evictor pins (get_elem?-some s.frames i there) id (λ j k. refl) refl
          refl in
      (
        (with_pin s i f evictor, cached i),
        rw (reserve, e, pins.0),
        (
          rewritten-IsConsistent s i (pinned_once_more f) (set s.frames i (pinned_once_more f))
              evictor w c f p there page page,
          e,
          (f, there, w.here),
          w.away,
          refl,
          refl,
          refl,
        ),
      )
    where
      not_held :
          Dec (f.pin_count ≡ 0)
          → (f.pin_count ≡ 0) ⊎ (get_elem? s.evictor.is_in_evictor i ≡ some false)
      not_held (yes z) = inl z
      not_held (no z) = inr (c.held i f (λ x. x) there ∙ (rw (page, ne→== f.pin_count 0 z)))

  claim-Reserves :
      (s' : BufferPoolManager) (i : ℕ) (f : Frame) (to_flush : Option (PageId × Buffer))
      → IsVacant s' i f
      → s'.frames ≡ s.frames
      → s'.page_table p ≡ none
      → IsFlush f to_flush
      → s'.fetches ≡ s.fetches
      → s'.flushes ≡ noted s.flushes to_flush
      → s.page_table p ≡ none
      → Returns (claim p (s', some (i, to_flush))) (Reserves p s)
  unfolding claim
  claim-Reserves s' i f to_flush v same new_page flush fe fl e =
      let clean = set_dirty (set_page_id f (some p)) false in
      let table = insert_key s'.page_table p (some i) in
      let s1 = with_frame (record s' { page_table = table }) i clean in
      let inside : i < length s'.frames = get_elem?-some s'.frames i v.is_there in
      let id = v.others.ids i f v.is_there in
      let len = length-set s'.frames i clean in
      let (evictor, pins) =
        pin-Pins s1 i clean v.others.valid (v.others.as_many ∙ sym len)
          (get_elem?-set_self s'.frames i clean inside) id (rw v.unpinned (omega arith))
          (inl v.unpinned) in
      let w =
        pin-Writes s1 i clean s' evictor pins (rw len inside) id
          (λ j k. get_elem?-set_ne s'.frames i j clean k) len refl in
      let frames = set (set s'.frames i clean) i (taken f p) in
      (
        (
          record (with_pin s1 i clean evictor) { fetches = insert_key s'.fetches p true },
          reserved i to_flush,
        ),
        rw (claim, v.is_there, pins.0),
        (
          channels-IsConsistentBut (λ j. ⊥)
              (record s' { page_table = table; frames = frames; evictor = evictor })
              (insert_key s'.fetches p true) s'.flushes
              (placed-IsConsistent s' i (taken f p) frames evictor w f v p new_page refl),
          rw (page_id_eq_refl p),
          (f, ap (λ l. get_elem? l i) (sym same) ∙ v.is_there, v.unpinned, w.here, flush),
          λ j k. w.away j k ∙ ap (λ l. get_elem? l j) same,
          ap (λ t. insert_key t p true) fe,
          fl,
          e,
        ),
      )

  found-Reserves :
      (x : BufferPoolManager × Available)
      → s.page_table p ≡ none
      → Finds s x
      → Returns (claim p x) (Reserves p s)
  unfolding claim
  found-Reserves (s', none) e h = ((s', buffer_full), refl, (h.0, h.1, h.3, h.4))
  found-Reserves (s', some (i, to_flush)) e (f, v, same, keeps, flush, fe, fl) =
      claim-Reserves s' i f to_flush v same (keeps p e) flush fe fl e

-- In a consistent pool in which no pin count is at its limit, the first step of
-- `fetch_and_pin_frame` does not panic and leaves the pool consistent. It pins the frame that has
-- the page once more; or it gives the page a frame that nobody had pinned, clean and pinned once,
-- with the dirty page that the frame had as the one to flush; or it finds the buffer full, which
-- happens only when no frame is free and every frame with a page is pinned. All other frames are
-- as before. A page that is new gets a channel for its fetch, and a page to flush one for that.
pub reserve-Reserves :
    (s : BufferPoolManager) (p : PageId)
    → IsConsistent s
    → ((i : ℕ) (f : Frame) → get_elem? s.frames i ≡ some f → f.pin_count + 1 < 2 ^ 64)
    → Returns (reserve p s) (Reserves p s)
unfolding reserve
reserve-Reserves s p c range = elim (Option-cases (s.page_table p)) [
  | inl e ↦
      let (x, r, finds) = available_frame-Finds s c in
      let (y, r', h) = found-Reserves s p x e finds in (y, rw (reserve, e, r) r', h)
  | inr (i, e) ↦
      let (n, (f, there, page)) = c.mapped p i e in
      cached-Reserves s p i f c e there page (range i f there)
]
