-- ===== src/Pool/Keeping.antt =====
-- No step takes the page from a pinned frame.
use native.Mathlib.Decide.{ℕ_discrete}
use rarm_db.Base.{
  Outcome, ◌>>=◌, ℕ, ◌<◌, ◌≡◌, refl, ap, sym, subst, ◌∙◌, [], Option, some, true, false, ◌⊎◌, inl,
  inr, arith, get_elem?, get_elem?-set_self, get_elem?-set_ne, get_elem?-some, Returns, done, panic,
}
use rarm_db.Page.{PageId}
use rarm_db.Page.Buffer.{Buffer}
use rarm_db.Evictor.{ClockEvictorState, add}
use rarm_db.Frame.{Frame, set_dirty}
use rarm_db.Pool.{
  BufferPoolManager, Reservation, cached, reserved, buffer_full, with_frame, reserve, create, unpin,
  install, write_bytes, mark_dirty_at, insert_key, decrement, add_evictable,
}
use rarm_db.Pool.Consistent.{IsConsistent}
use rarm_db.Pool.Available.{IsFull}
use rarm_db.Pool.Reserve.{Reserves, OthersKept, pinned_once_more, reserve-Reserves}
use rarm_db.Pool.Halves.{decrement_lem, dropped}
use rarm_db.Pool.Steps.{pinned_once_less, unpin-IsConsistent}
use rarm_db.Pool.Create.{Creates, create-Creates}
use rarm_db.Pool.Reachable.{
  Step, IsUsed, fetches, creates, installs, flushed, writes, marks, drops, same_result, install_lem,
  write_bytes_lem, mark_dirty_at_lem,
}

-- Frame `j` holds the page.
abbrev pub HasPage : BufferPoolManager → ℕ → PageId → Type 0
HasPage s j p = (f : Frame) × (get_elem? s.frames j ≡ some f) × (f.page_id ≡ some p)

some-injective : {A : Type 0} {a b : A} → some a ≡ some b → a ≡ b
some-injective e = cc

module _ (s : BufferPoolManager) (j : ℕ) (f : Frame) (p : PageId)
    (there : get_elem? s.frames j ≡ some f) (page : f.page_id ≡ some p) where
  -- Frame `i` was written, and if that is `j` then its page is as before.
  other_keeps :
      (s' : BufferPoolManager) (i : ℕ)
      → OthersKept s i s'
      → (i ≡ j → HasPage s' j p)
      → HasPage s' j p
  other_keeps s' i others here = elim (ℕ_discrete i j) [
    | yes e ↦ here e
    | no n ↦ (f, others j n ∙ there, page)
  ]

  same_keeps :
      (s' : BufferPoolManager) (i : ℕ) (g g' : Frame)
      → get_elem? s.frames i ≡ some g
      → get_elem? s'.frames i ≡ some g'
      → g'.page_id ≡ g.page_id
      → i ≡ j
      → HasPage s' j p
  same_keeps s' i g g' e e' same ij =
      let at_j : get_elem? s.frames j ≡ some g = rw (← ij) e in
      let fg : f ≡ g = some-injective (sym there ∙ at_j) in
      (g', rw (← ij) e', same ∙ ap (λ x. x.page_id) (sym fg) ∙ page)

  written_keeps :
      (i : ℕ) (g g' : Frame)
      → get_elem? s.frames i ≡ some g
      → g'.page_id ≡ g.page_id
      → HasPage (with_frame s i g') j p
  written_keeps i g g' e same =
      other_keeps (with_frame s i g') i (λ k n. get_elem?-set_ne s.frames i k g' n)
        (same_keeps (with_frame s i g') i g g' e
          (get_elem?-set_self s.frames i g' (get_elem?-some s.frames i e)) same)

  module _ (is_pinned : 0 < f.pin_count) where
    not_the_victim :
        (s' : BufferPoolManager) (i : ℕ) (g : Frame)
        → get_elem? s.frames i ≡ some g
        → g.pin_count ≡ 0
        → i ≡ j
        → HasPage s' j p
    not_the_victim s' i g e z ij =
        let at_j : get_elem? s.frames j ≡ some g = rw (← ij) e in
        let fg : f ≡ g = some-injective (sym there ∙ at_j) in
        let none_left : f.pin_count ≡ 0 = ap (λ x. x.pin_count) fg ∙ z in absurd (omega arith)

    Reserves-keeps :
        (q : PageId) (x : BufferPoolManager × Reservation) → Reserves q s x → HasPage x.0 j p
    Reserves-keeps q (s', cached i) (c, e, (g, at_i, at_i'), others, fe, fl, t) =
        other_keeps s' i others (same_keeps s' i g (pinned_once_more g) at_i at_i' refl)
    Reserves-keeps q (s', reserved i to_flush)
          (c, e, (g, at_i, z, at_i', flush), others, fe, fl, t) =
        other_keeps s' i others (not_the_victim s' i g at_i z)
    Reserves-keeps q (s', buffer_full) (c, same, none_free, full) =
        (f, ap (λ l. get_elem? l j) same ∙ there, page)

    created_keeps :
        (q : PageId) (y : BufferPoolManager × ℕ × Option (PageId × Buffer))
        → create q s ≡ done y
        → (Returns (create q s) (Creates q s)
            ⊎ ((create q s ≡ panic) × (s.free_frames ≡ []) × IsFull s))
        → HasPage y.0 j p
    created_keeps q y e (inl ((s', i, to_flush), r, (c, t, (g, at_i, z, at_i', flush), others))) =
        subst (λ x. HasPage x.0 j p) (same_result (create q s) (s', i, to_flush) y r e)
          (other_keeps s' i others (not_the_victim s' i g at_i z))
    created_keeps q y e (inr (r, none_free, full)) =
        let no : panic ≡ done y = sym r ∙ e in absurd (cc)

-- The steps of Pool.Reachable.
Step-HasPage :
    (s s' : BufferPoolManager) (j : ℕ) (f : Frame) (p : PageId)
    → IsConsistent s
    → Step s s'
    → get_elem? s.frames j ≡ some f
    → f.page_id ≡ some p
    → 0 < f.pin_count
    → HasPage s' j p
Step-HasPage s s' j f p c (fetches {r = r} q room e) there page h =
    let (x, m, y) = reserve-Reserves s q c room in
    subst (λ z. HasPage z.0 j p) (same_result (reserve q s) x (s', r) m e)
      (Reserves-keeps s j f p there page h q x y)
Step-HasPage s s' j f p c (creates {i = i} {to_flush = to_flush} q fresh e) there page h =
    created_keeps s j f p there page h q (s', i, to_flush) e (create-Creates s q c fresh)
Step-HasPage s s' j f p c (installs q i bytes u e) there page h =
    let g = record u.frame { bytes = bytes } in
    let t = record (with_frame s i g) { fetches = insert_key s.fetches q false } in
    subst (λ z. HasPage z j p)
      (same_result (install q i bytes s) t s' (install_lem s q i bytes u.frame u.is_there) e)
      (written_keeps s j f p there page i u.frame g u.is_there refl)
Step-HasPage s s' j f p c (flushed q e) there page h =
    subst (λ z. HasPage z j p) (sym e) (f, there, page)
Step-HasPage s s' j f p c (writes i bytes u e) there page h =
    let g = record u.frame { bytes = bytes } in
    subst (λ z. HasPage z j p)
      (same_result (write_bytes i bytes s) (with_frame s i g) s'
        (write_bytes_lem s i bytes u.frame u.is_there) e)
      (written_keeps s j f p there page i u.frame g u.is_there refl)
Step-HasPage s s' j f p c (marks i u e) there page h =
    let g = set_dirty u.frame true in
    subst (λ z. HasPage z j p)
      (same_result (mark_dirty_at i s) (with_frame s i g) s'
        (mark_dirty_at_lem s i u.frame u.is_there) e)
      (written_keeps s j f p there page i u.frame g u.is_there refl)
Step-HasPage s s' j f p c (drops i u first second) there page h =
    let e = dropped s i u.frame u.is_there (c.ids i u.frame u.is_there) u.is_pinned first second in
    let (x, m, (c', at_i, others)) =
      unpin-IsConsistent s i u.frame u.page c u.is_there u.has_page u.is_pinned in
    subst (λ z. HasPage z j p) (same_result (unpin s i) x s' m e)
      (other_keeps s j f p there page x i others
        (same_keeps s j f p there page x i u.frame (pinned_once_less u.frame) u.is_there at_i refl))

-- A step that nothing comes between: one of Pool.Reachable, or a half of the drop of a guard.
pub data AtomicStep (s s' : BufferPoolManager) : Type 0 where
  whole : Step s s' → AtomicStep s s'
  decrements : {n : ℕ} (i : ℕ) → IsUsed s i → decrement i s ≡ done (s', n) → AtomicStep s s'
  adds : (i : ℕ) → add_evictable i s ≡ done s' → AtomicStep s s'

added_frames :
    (s s' : BufferPoolManager) (m : Outcome ClockEvictorState)
    → (m >>= λ evictor. done (record s { evictor = evictor })) ≡ done s'
    → s.frames ≡ s'.frames
added_frames s s' panic e = let no : panic ≡ done s' = e in cc
added_frames s s' (done evictor) e =
    let same : record s { evictor = evictor } ≡ s' = cc in ap (λ x. x.frames) same

-- In a consistent pool, no atomic step of any task takes the page from a frame that is pinned: in
-- particular no fetch and no creation of a page evicts it. The two halves of the drop of a guard,
-- the decrement and the addition to the evictor, are steps of their own; after the first half of the
-- last drop the pool is not consistent until the second, and nothing is said of it.
pub AtomicStep-HasPage :
    (s s' : BufferPoolManager) (j : ℕ) (f : Frame) (p : PageId)
    → IsConsistent s
    → AtomicStep s s'
    → get_elem? s.frames j ≡ some f
    → f.page_id ≡ some p
    → 0 < f.pin_count
    → HasPage s' j p
unfolding add_evictable
AtomicStep-HasPage s s' j f p c (whole e) there page h = Step-HasPage s s' j f p c e there page h
AtomicStep-HasPage s s' j f p c (decrements {n = n} i u e) there page h =
    let g = pinned_once_less u.frame in
    subst (λ z. HasPage z.0 j p)
      (same_result (decrement i s) (with_frame s i g, u.frame.pin_count) (s', n)
        (decrement_lem s i u.frame u.is_there u.is_pinned) e)
      (written_keeps s j f p there page i u.frame g u.is_there refl)
AtomicStep-HasPage s s' j f p c (adds i e) there page h =
    (f, ap (λ l. get_elem? l j) (sym (added_frames s s' (add s.evictor i) e)) ∙ there, page)
