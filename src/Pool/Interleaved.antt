-- ===== src/Pool/Interleaved.antt =====
-- All interleavings of the steps of the pool, with the two halves of the drop of a guard as steps
-- of their own.
use rarm_db.Base.{
  ℕ, ◌<◌, ◌≡◌, refl, sym, subst, ◌∙◌, Option, none, some, true, false, inl, inr, get_elem?, done,
  panic,
}
use rarm_db.Page.{PageId}
use rarm_db.Page.Buffer.{Buffer}
use rarm_db.Evictor.{add}
use rarm_db.Frame.{Frame, set_dirty}
use rarm_db.Pool.{
  BufferPoolManager, Reservation, new_pool, with_frame, insert_key, reserve, create, install,
  write_bytes, mark_dirty_at, end_flush, decrement, add_evictable,
}
use rarm_db.Pool.Consistent.{IsConsistent, evictable}
use rarm_db.Pool.Vacant.{evictable_lem}
use rarm_db.Pool.Steps.{pinned_once_less}
use rarm_db.Pool.Start.{new_pool-IsConsistent}
use rarm_db.Pool.Halves.{decrement_lem}
use rarm_db.Pool.Reachable.{HasRoom, same_result, install_lem, write_bytes_lem, mark_dirty_at_lem}
use rarm_db.Pool.Linked.{IsLinked}
use rarm_db.Pool.Placed.{written-IsLinked, added_back, reserve-IsLinked, create-IsLinked}
use rarm_db.Pool.Opened.{IsLinkedBut-channels}

-- A frame with a page, as the holder of a guard has it.
pub record IsPaged (s : BufferPoolManager) (i : ℕ) : Type 0 where
  pub frame : Frame
  pub page : PageId
  pub is_there : get_elem? s.frames i ≡ some frame
  pub has_page : frame.page_id ≡ some page

-- The steps of the tasks: those of Pool.Reachable, but the drop of a guard is two steps, and any
-- other step may come between them. An addition to the evictor is of a frame with a page.
pub data AnyStep (s s' : BufferPoolManager) : Type 0 where
  fetches : {r : Reservation} (p : PageId) → HasRoom s → reserve p s ≡ done (s', r) → AnyStep s s'
  creates :
      {i : ℕ} {to_flush : Option (PageId × Buffer)} (p : PageId)
      → HasRoom s
      → s.page_table p ≡ none
      → create p s ≡ done (s', i, to_flush)
      → AnyStep s s'
  installs :
      (p : PageId) (i : ℕ) (bytes : Buffer)
      → IsPaged s i
      → install p i bytes s ≡ done s'
      → AnyStep s s'
  flushed : (p : PageId) → s' ≡ end_flush p s → AnyStep s s'
  writes : (i : ℕ) (bytes : Buffer) → IsPaged s i → write_bytes i bytes s ≡ done s' → AnyStep s s'
  marks : (i : ℕ) → IsPaged s i → mark_dirty_at i s ≡ done s' → AnyStep s s'
  decrements :
      {n : ℕ} (i : ℕ)
      → (u : IsPaged s i) → 0 < u.frame.pin_count
      → decrement i s ≡ done (s', n)
      → AnyStep s s'
  adds : (i : ℕ) → IsPaged s i → add_evictable i s ≡ done s' → AnyStep s s'

pub data AnySteps (s : BufferPoolManager) : BufferPoolManager → Type 0 where
  stay : AnySteps s s
  step : {t t' : BufferPoolManager} → AnySteps s t → AnyStep t t' → AnySteps s t'

AnyStep-IsLinked : (s s' : BufferPoolManager) → AnyStep s s' → IsLinked s → IsLinked s'
unfolding add_evictable
AnyStep-IsLinked s s' (fetches {r = r} p room e) c =
    let (x, q, h) = reserve-IsLinked s p c room in
    subst (λ z. IsLinked z.0) (same_result (reserve p s) x (s', r) q e) h
AnyStep-IsLinked s s' (creates {i = i} {to_flush = to_flush} p room fresh e) c =
    elim (create-IsLinked s p c room fresh) [
      | inl (y, q, h) ↦
          subst (λ z. IsLinked z.0) (same_result (create p s) y (s', i, to_flush) q e) h
      | inr q ↦ let no : panic ≡ done (s', i, to_flush) = sym q ∙ e in absurd (cc)
    ]
AnyStep-IsLinked s s' (installs p i bytes u e) c =
    let f = u.frame in
    let g = record f { bytes = bytes } in
    let t = record (with_frame s i g) { fetches = insert_key s.fetches p false } in
    subst IsLinked (same_result (install p i bytes s) t s' (install_lem s p i bytes f u.is_there) e)
      (IsLinkedBut-channels (λ j. ⊥) (with_frame s i g) (insert_key s.fetches p false) s.flushes
        (written-IsLinked s i f u.page c u.is_there u.has_page g refl refl))
AnyStep-IsLinked s s' (flushed p e) c =
    subst IsLinked (sym e)
      (IsLinkedBut-channels (λ j. ⊥) s s.fetches (insert_key s.flushes p false) c)
AnyStep-IsLinked s s' (writes i bytes u e) c =
    let f = u.frame in
    let g = record f { bytes = bytes } in
    subst IsLinked
      (same_result (write_bytes i bytes s) (with_frame s i g) s'
        (write_bytes_lem s i bytes f u.is_there) e)
      (written-IsLinked s i f u.page c u.is_there u.has_page g refl refl)
AnyStep-IsLinked s s' (marks i u e) c =
    let f = u.frame in
    subst IsLinked
      (same_result (mark_dirty_at i s) (with_frame s i (set_dirty f true)) s'
        (mark_dirty_at_lem s i f u.is_there) e)
      (written-IsLinked s i f u.page c u.is_there u.has_page (set_dirty f true) refl refl)
AnyStep-IsLinked s s' (decrements {n = n} i u pinned e) c =
    let f = u.frame in
    let g = pinned_once_less f in
    subst (λ z. IsLinked z.0)
      (same_result (decrement i s) (with_frame s i g, f.pin_count) (s', n)
        (decrement_lem s i f u.is_there pinned) e)
      (written-IsLinked s i f u.page c u.is_there u.has_page g refl refl)
AnyStep-IsLinked s s' (adds i u e) c =
    added_back s i u.frame u.page c u.is_there u.has_page (add s.evictor i) s' refl e

AnySteps-IsLinked :
    (s : BufferPoolManager) {s' : BufferPoolManager} → AnySteps s s' → IsLinked s → IsLinked s'
AnySteps-IsLinked s stay c = c
AnySteps-IsLinked s (step {t = t} {t' = t'} before last) c =
    AnyStep-IsLinked t t' last (AnySteps-IsLinked s before c)

consistent-IsLinked : (s : BufferPoolManager) → IsConsistent s → IsLinked s
consistent-IsLinked s c = record {
  valid = c.valid;
  as_many = c.as_many;
  ids = c.ids;
  has_page = λ i f e flag.
      let able : some (evictable f) ≡ some true = sym (c.held i f (λ x. x) e) ∙ flag in
      let able' : evictable f ≡ true = cc in (evictable_lem f able').0;
  mapped = c.mapped;
  found = c.found;
  idle = c.idle;
  once = c.once;
}

-- Every pool that the steps of tasks make of a new pool of at least one frame, with any steps
-- between the two halves of the drop of a guard, has these properties: each page in the page table
-- is that of the frame it is mapped to, and each frame with a page is the one that its page is
-- mapped to, so no page is in two frames; the frames in the evictor have a page; the free frames
-- have neither a page nor a pin. Each page that is created is one that the pool does not have, and
-- fetches and creations begin when no pin count is at its limit.
pub reachable-IsLinked :
    (n : ℕ) (s : BufferPoolManager) → 0 < n → AnySteps (new_pool n) s → IsLinked s
reachable-IsLinked n s h steps =
    AnySteps-IsLinked (new_pool n) steps
      (consistent-IsLinked (new_pool n) (new_pool-IsConsistent n h))
