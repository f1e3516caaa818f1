-- ===== src/Pool/Placed.antt =====
-- `reserve`, `create` and the addition to the evictor keep the pool linked.
use rarm_db.Base.{
  ℕ, ◌+◌, ◌^◌, ◌<◌, ◌≡◌, ◌≢◌, refl, ap, sym, subst, ◌∙◌, Option, none, some, true, false, ◌⊎◌, inl,
  inr, arith, get_elem?, set, length, length-set, get_elem?-set_self, get_elem?-set_ne,
  get_elem?-some, Returns, Outcome, done, panic, ◌>>=◌, Option-cases,
}
use rarm_db.Page.{PageId}
use rarm_db.Page.Buffer.{Buffer}
use rarm_db.Evictor.{ClockEvictorState, add}
use native.Mathlib.Decide.{ℕ_discrete}
use rarm_db.Evictor.Invariant.{IsValid, add-IsValid, length-add}
use rarm_db.Frame.{Frame, set_dirty, set_page_id}
use rarm_db.Pool.{
  BufferPoolManager, cached, reserved, buffer_full, with_frame, insert_key, available_frame, claim,
  reserve, place, create,
}
use rarm_db.Pool.Consistent.{with_pin}
use rarm_db.Pool.Reserve.{pinned_once_more, taken}
use rarm_db.Pool.Reachable.{HasRoom, same_result}
use rarm_db.Pool.Linked.{IsLinked, IsOpen, Touches, kept-IsLinked, put-IsLinked}
use rarm_db.Pool.Opened.{pin_any, IsLinkedBut-channels, Offers, available_frame-Offers}

room_left :
    (s s' : BufferPoolManager) (i : ℕ) (f : Frame)
    → HasRoom s
    → s'.frames ≡ s.frames
    → get_elem? s'.frames i ≡ some f
    → f.pin_count + 1 < 2 ^ 64
room_left s s' i f room same e = room i f (ap (λ l. get_elem? l i) (sym same) ∙ e)

module _ (s : BufferPoolManager) (i : ℕ) (f : Frame) (p : PageId) (c : IsLinked s)
    (there : get_elem? s.frames i ≡ some f) (page : f.page_id ≡ some p) where
  -- The frame is written and keeps its page and its number.
  pub written-IsLinked :
      (g : Frame) → g.page_id ≡ f.page_id → g.id ≡ f.id → IsLinked (with_frame s i g)
  written-IsLinked g same id =
      kept-IsLinked s i g (set s.frames i g) s.evictor
        (record {
          here = get_elem?-set_self s.frames i g (get_elem?-some s.frames i there);
          away = λ j k. get_elem?-set_ne s.frames i j g k;
          same_length = length-set s.frames i g;
          valid = c.valid;
          only = λ j k. refl;
          as_many = refl;
          has_id = id ∙ c.ids i f there;
        })
        p (same ∙ page) c f there page

  cached_pin :
      f.pin_count + 1 < 2 ^ 64 → s.page_table p ≡ some i → Returns (reserve p s) (λ x. IsLinked x.0)
  unfolding reserve
  cached_pin room e =
      let id = c.ids i f there in
      let (evictor, r, valid, only, len) = pin_any s i f c.valid c.as_many there id room in
      let g = pinned_once_more f in
      (
        (with_pin s i f evictor, cached i),
        rw (reserve, e, r),
        kept-IsLinked s i g (set s.frames i g) evictor
            (record {
              here = get_elem?-set_self s.frames i g (get_elem?-some s.frames i there);
              away = λ j k. get_elem?-set_ne s.frames i j g k;
              same_length = length-set s.frames i g;
              valid = valid;
              only = only;
              as_many = len;
              has_id = id;
            })
            p page c f there page,
      )

  pub added_back :
      (m : Outcome ClockEvictorState) (s' : BufferPoolManager)
      → m ≡ add s.evictor i
      → (m >>= λ evictor. done (record s { evictor = evictor })) ≡ done s'
      → IsLinked s'
  added_back panic s' r e = let no : panic ≡ done s' = e in absurd (cc)
  added_back (done evictor) s' r e =
      let inside : i < length s.evictor.is_in_evictor =
        omega (arith, get_elem?-some s.frames i there, c.as_many) in
      let (evictor', r', (valid, holds, chance, others)) = add-IsValid s.evictor i c.valid inside in
      let q : evictor' ≡ evictor = same_result (add s.evictor i) evictor' evictor r' (sym r) in
      let back =
        subst (λ x. IsLinked (record s { evictor = x })) q
          (record {
            valid = valid;
            as_many = length-add s.evictor evictor' i c.valid inside r' ∙ c.as_many;
            ids = c.ids;
            has_page = λ j g at flag. elim (ℕ_discrete i j) [
              | yes same ↦
                  let at_i : get_elem? s.frames i ≡ some g = rw same at in
                  let fg : f ≡ g = cc in (p, ap (λ x. x.page_id) (sym fg) ∙ page)
              | no n ↦ c.has_page j g at (sym (others j n).0 ∙ flag)
            ];
            mapped = c.mapped;
            found = c.found;
            idle = c.idle;
            once = c.once;
          }) in
      let same : record s { evictor = evictor } ≡ s' = cc in subst IsLinked same back

module _ (s : BufferPoolManager) (p : PageId) (i : ℕ) (f : Frame)
    (to_flush : Option (PageId × Buffer)) (v : IsOpen s i f) (new_page : s.page_table p ≡ none)
    (room : f.pin_count + 1 < 2 ^ 64) where
  inside : i < length s.frames
  inside = get_elem?-some s.frames i v.is_there

  -- Two writes of the frame, the second of which gives the page.
  twice-Touches :
      (g h : Frame) (evictor : ClockEvictorState)
      → h.id ≡ f.id
      → IsValid evictor
      → ((j : ℕ) → i ≢ j → get_elem? evictor.is_in_evictor j ≡ get_elem? s.evictor.is_in_evictor j)
      → length evictor.is_in_evictor ≡ length s.evictor.is_in_evictor
      → Touches s i h (set (set s.frames i g) i h) evictor
  twice-Touches g h evictor id valid only len = record {
    here = get_elem?-set_self (set s.frames i g) i h (rw (length-set s.frames i g) inside);
    away = λ j k. get_elem?-set_ne (set s.frames i g) i j h k ∙ get_elem?-set_ne s.frames i j g k;
    same_length = length-set (set s.frames i g) i h ∙ length-set s.frames i g;
    valid = valid;
    only = only;
    as_many = len;
    has_id = id ∙ v.others.ids i f v.is_there;
  }

  claim-IsLinked : Returns (claim p (s, some (i, to_flush))) (λ x. IsLinked x.0)
  unfolding claim
  claim-IsLinked =
      let clean = set_dirty (set_page_id f (some p)) false in
      let table = insert_key s.page_table p (some i) in
      let s1 = with_frame (record s { page_table = table }) i clean in
      let (evictor, r, valid, only, len) =
        pin_any s1 i clean v.others.valid (v.others.as_many ∙ sym (length-set s.frames i clean))
          (get_elem?-set_self s.frames i clean inside) (v.others.ids i f v.is_there) room in
      let frames = set (set s.frames i clean) i (taken f p) in
      (
        (
          record (with_pin s1 i clean evictor) { fetches = insert_key s.fetches p true },
          reserved i to_flush,
        ),
        rw (claim, v.is_there, r),
        IsLinkedBut-channels (λ j. ⊥)
            (record s { page_table = table; frames = frames; evictor = evictor })
            (insert_key s.fetches p true) s.flushes
            (put-IsLinked s i (taken f p) frames evictor
              (twice-Touches clean (taken f p) evictor refl valid only len) p refl f v new_page),
      )

  place-IsLinked : Returns (place p (s, some (i, to_flush))) (λ x. IsLinked x.0)
  unfolding place
  place-IsLinked =
      let once = pinned_once_more f in
      let used = set_page_id once (some p) in
      let (evictor, r, valid, only, len) =
        pin_any s i f v.others.valid v.others.as_many v.is_there (v.others.ids i f v.is_there)
          room in
      (
        (
          with_frame
              (record (with_pin s i f evictor) { page_table = insert_key s.page_table p (some i) })
              i used,
          i,
          to_flush,
        ),
        rw (place, r, get_elem?-set_self s.frames i once inside),
        put-IsLinked s i used (set (set s.frames i once) i used) evictor
            (twice-Touches once used evictor refl valid only len) p refl f v new_page,
      )

pub reserve-IsLinked :
    (s : BufferPoolManager) (p : PageId)
    → IsLinked s
    → HasRoom s
    → Returns (reserve p s) (λ x. IsLinked x.0)
unfolding reserve claim
reserve-IsLinked s p c room = elim (Option-cases (s.page_table p)) [
  | inl e ↦ offered e (available_frame-Offers s c)
  | inr (i, e) ↦
      let (n, (f, there, page)) = c.mapped p i e in
      cached_pin s i f p c there page (room i f there) e
]
  where
    offered :
        s.page_table p ≡ none
        → Returns (available_frame s) (Offers s)
        → Returns (reserve p s) (λ x. IsLinked x.0)
    offered e ((s', none), r, h) = ((s', buffer_full), rw (reserve, e, r), h)
    offered e ((s', some (i, to_flush)), r, (f, v, same, keeps)) =
        let (y, r', h) =
          claim-IsLinked s' p i f to_flush v (keeps p e)
            (room_left s s' i f room same v.is_there) in
        (y, rw (reserve, e, r) r', h)

pub create-IsLinked :
    (s : BufferPoolManager) (p : PageId)
    → IsLinked s
    → HasRoom s
    → s.page_table p ≡ none
    → Returns (create p s) (λ x. IsLinked x.0) ⊎ (create p s ≡ panic)
unfolding create place
create-IsLinked s p c room e = offered (available_frame-Offers s c)
  where
    offered :
        Returns (available_frame s) (Offers s)
        → Returns (create p s) (λ x. IsLinked x.0) ⊎ (create p s ≡ panic)
    offered ((s', none), r, h) = inr (rw (create, r))
    offered ((s', some (i, to_flush)), r, (f, v, same, keeps)) =
        let (y, r', h) =
          place-IsLinked s' p i f to_flush v (keeps p e)
            (room_left s s' i f room same v.is_there) in
        inl (y, rw (create, r) r', h)
