-- ===== src/Pool/Reachable.antt =====
-- The interleavings of the steps of the pool in which the drop of a guard is not divided.
use rarm_db.Base.{
  ℕ, ◌+◌, ◌^◌, ◌<◌, ◌≡◌, refl, sym, subst, ◌∙◌, [], Option, none, some, true, false, ◌⊎◌, inl, inr,
  get_elem?, Returns, Outcome, done, panic,
}
use rarm_db.Page.{PageId}
use rarm_db.Page.Buffer.{Buffer}
use rarm_db.Frame.{Frame, set_dirty}
use rarm_db.Pool.{
  BufferPoolManager, Reservation, cached, reserved, buffer_full, new_pool, with_frame, reserve,
  create, unpin, install, write_bytes, mark_dirty_at, end_flush, insert_key, decrement,
}
use rarm_db.Pool.Consistent.{IsConsistent}
use rarm_db.Pool.Available.{IsFull, channels-IsConsistentBut}
use rarm_db.Pool.Reserve.{Reserves, reserve-Reserves}
use rarm_db.Pool.Halves.{second_half, dropped}
use rarm_db.Pool.Steps.{kept-IsConsistent, unpin-IsConsistent}
use rarm_db.Pool.Start.{new_pool-IsConsistent}
use rarm_db.Pool.Create.{Creates, create-Creates}

-- No pin count is at its limit.
abbrev pub HasRoom : BufferPoolManager → Type 0
HasRoom s = (i : ℕ) (f : Frame) → get_elem? s.frames i ≡ some f → f.pin_count + 1 < 2 ^ 64

-- A frame with a page and a pin, as the holder of a guard has it.
pub record IsUsed (s : BufferPoolManager) (i : ℕ) : Type 0 where
  pub frame : Frame
  pub page : PageId
  pub is_there : get_elem? s.frames i ≡ some frame
  pub has_page : frame.page_id ≡ some page
  pub is_pinned : 0 < frame.pin_count

-- The steps that tasks take between two awaits: the first step of a fetch or of the creation of a
-- new page, the arrival of a page or of an evicted page at its place, a write through a guard, and
-- the two halves of the drop of a guard. The code has no lock for those; here no other step comes
-- between them, and Pool.Keeping has each of them as a step.
pub data Step (s s' : BufferPoolManager) : Type 0 where
  fetches : {r : Reservation} (p : PageId) → HasRoom s → reserve p s ≡ done (s', r) → Step s s'
  creates :
      {i : ℕ} {to_flush : Option (PageId × Buffer)} (p : PageId)
      → s.page_table p ≡ none
      → create p s ≡ done (s', i, to_flush)
      → Step s s'
  installs :
      (p : PageId) (i : ℕ) (bytes : Buffer) → IsUsed s i → install p i bytes s ≡ done s' → Step s s'
  flushed : (p : PageId) → s' ≡ end_flush p s → Step s s'
  writes : (i : ℕ) (bytes : Buffer) → IsUsed s i → write_bytes i bytes s ≡ done s' → Step s s'
  marks : (i : ℕ) → IsUsed s i → mark_dirty_at i s ≡ done s' → Step s s'
  drops :
      {t : BufferPoolManager} {n : ℕ} (i : ℕ)
      → IsUsed s i
      → decrement i s ≡ done (t, n)
      → second_half i (t, n) ≡ done s'
      → Step s s'

pub data Steps (s : BufferPoolManager) : BufferPoolManager → Type 0 where
  stay : Steps s s
  step : {t t' : BufferPoolManager} → Steps s t → Step t t' → Steps s t'

-- What a call that returned has returned.
pub same_result : {A : Type 0} (m : Outcome A) (a b : A) → m ≡ done a → m ≡ done b → a ≡ b
same_result m a b r e = let q : done a ≡ done b = sym r ∙ e in cc

Reserves-IsConsistent :
    (p : PageId) (s : BufferPoolManager) (x : BufferPoolManager × Reservation)
    → Reserves p s x
    → IsConsistent x.0
Reserves-IsConsistent p s (s', cached i) h = h.0
Reserves-IsConsistent p s (s', reserved i to_flush) h = h.0
Reserves-IsConsistent p s (s', buffer_full) h = h.0

created-IsConsistent :
    (p : PageId) (s : BufferPoolManager) (y : BufferPoolManager × ℕ × Option (PageId × Buffer))
    → create p s ≡ done y
    → (Returns (create p s) (Creates p s)
        ⊎ ((create p s ≡ panic) × (s.free_frames ≡ []) × IsFull s))
    → IsConsistent y.0
created-IsConsistent p s y e (inl (x, r, h)) =
    subst (λ z. IsConsistent z.0) (same_result (create p s) x y r e) h.0
created-IsConsistent p s y e (inr (r, none_free, full)) =
    let no : panic ≡ done y = sym r ∙ e in absurd (cc)

pub install_lem :
    (s : BufferPoolManager) (p : PageId) (i : ℕ) (bytes : Buffer) (f : Frame)
    → get_elem? s.frames i ≡ some f
    → install p i bytes s
      ≡ done (record (with_frame s i (record f { bytes = bytes })) {
        fetches = insert_key s.fetches p false;
      })
unfolding install
install_lem s p i bytes f e = rw e

pub write_bytes_lem :
    (s : BufferPoolManager) (i : ℕ) (bytes : Buffer) (f : Frame)
    → get_elem? s.frames i ≡ some f
    → write_bytes i bytes s ≡ done (with_frame s i (record f { bytes = bytes }))
unfolding write_bytes
write_bytes_lem s i bytes f e = rw e

pub mark_dirty_at_lem :
    (s : BufferPoolManager) (i : ℕ) (f : Frame)
    → get_elem? s.frames i ≡ some f
    → mark_dirty_at i s ≡ done (with_frame s i (set_dirty f true))
unfolding mark_dirty_at
mark_dirty_at_lem s i f e = rw e

Step-IsConsistent : (s s' : BufferPoolManager) → Step s s' → IsConsistent s → IsConsistent s'
Step-IsConsistent s s' (fetches {r = r} p room e) c =
    let (x, q, h) = reserve-Reserves s p c room in
    subst (λ z. IsConsistent z.0) (same_result (reserve p s) x (s', r) q e)
      (Reserves-IsConsistent p s x h)
Step-IsConsistent s s' (creates {i = i} {to_flush = to_flush} p fresh e) c =
    created-IsConsistent p s (s', i, to_flush) e (create-Creates s p c fresh)
Step-IsConsistent s s' (installs p i bytes u e) c =
    let f = u.frame in
    let g = record f { bytes = bytes } in
    let t = record (with_frame s i g) { fetches = insert_key s.fetches p false } in
    subst IsConsistent
      (same_result (install p i bytes s) t s' (install_lem s p i bytes f u.is_there) e)
      (channels-IsConsistentBut (λ j. ⊥) (with_frame s i g) (insert_key s.fetches p false) s.flushes
        (kept-IsConsistent s i f g u.page c u.is_there u.has_page refl refl refl))
Step-IsConsistent s s' (flushed p e) c =
    subst IsConsistent (sym e)
      (channels-IsConsistentBut (λ j. ⊥) s s.fetches (insert_key s.flushes p false) c)
Step-IsConsistent s s' (writes i bytes u e) c =
    let f = u.frame in
    let g = record f { bytes = bytes } in
    subst IsConsistent
      (same_result (write_bytes i bytes s) (with_frame s i g) s'
        (write_bytes_lem s i bytes f u.is_there) e)
      (kept-IsConsistent s i f g u.page c u.is_there u.has_page refl refl refl)
Step-IsConsistent s s' (marks i u e) c =
    let f = u.frame in
    subst IsConsistent
      (same_result (mark_dirty_at i s) (with_frame s i (set_dirty f true)) s'
        (mark_dirty_at_lem s i f u.is_there) e)
      (kept-IsConsistent s i f (set_dirty f true) u.page c u.is_there u.has_page refl refl refl)
Step-IsConsistent s s' (drops i u first second) c =
    let e = dropped s i u.frame u.is_there (c.ids i u.frame u.is_there) u.is_pinned first second in
    let (x, q, h) = unpin-IsConsistent s i u.frame u.page c u.is_there u.has_page u.is_pinned in
    subst IsConsistent (same_result (unpin s i) x s' q e) h.0

Steps-IsConsistent :
    (s : BufferPoolManager) {s' : BufferPoolManager} → Steps s s' → IsConsistent s → IsConsistent s'
Steps-IsConsistent s stay c = c
Steps-IsConsistent s (step {t = t} {t' = t'} before last) c =
    Step-IsConsistent t t' last (Steps-IsConsistent s before c)

-- Every pool that the steps of tasks, in any order, make of a new pool of at least one frame is
-- consistent, as long as no step comes between the two halves of the drop of a guard (the code does
-- not ensure this), each page that is created is one that the pool does not have yet, and no fetch
-- begins while a pin count is at its limit: the page table and the pages of the frames agree, the
-- evictor has exactly the frames with a page and without a pin, and the free frames have neither.
pub reachable-IsConsistent :
    (n : ℕ) (s : BufferPoolManager) → 0 < n → Steps (new_pool n) s → IsConsistent s
reachable-IsConsistent n s h steps =
    Steps-IsConsistent (new_pool n) steps (new_pool-IsConsistent n h)
