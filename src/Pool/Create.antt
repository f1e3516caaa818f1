-- ===== src/Pool/Create.antt =====
-- The first step of `create_page`: the frame for a new page, pinned.
use rarm_db.Base.{
  ℕ, ◌+◌, ◌<◌, ◌≡◌, refl, ap, sym, ◌∙◌, [], Option, none, some, ◌⊎◌, inl, inr, arith, get_elem?,
  set, length, length-set, get_elem?-set_self, get_elem?-set_ne, get_elem?-some, Returns, panic,
  ne→==,
}
use rarm_db.Page.{PageId}
use rarm_db.Page.Buffer.{Buffer}
use rarm_db.Frame.{Frame, set_page_id}
use rarm_db.Pool.{BufferPoolManager, insert_key, with_frame, available_frame, place, create}
use rarm_db.Pool.Consistent.{IsConsistent, IsVacant, with_pin, pin-Pins, page_id_eq_refl}
use rarm_db.Pool.Available.{IsFlush, IsFull, Finds, available_frame-Finds}
use rarm_db.Pool.Update.{Writes, placed-IsConsistent}
use rarm_db.Pool.Reserve.{OthersKept, pinned_once_more}

-- What `create` promises when it does not panic: frame `i` had no pin; it gets the page and keeps
-- its bytes and its dirty flag.
abbrev pub Creates :
    PageId → BufferPoolManager → BufferPoolManager × ℕ × Option (PageId × Buffer) → Type 0
Creates p s (s', i, to_flush) =
    IsConsistent s'
    × (s'.page_table p ≡ some i)
    × ((f : Frame) × (get_elem? s.frames i ≡ some f)
        × (f.pin_count ≡ 0)
        × (get_elem? s'.frames i ≡ some (set_page_id (pinned_once_more f) (some p)))
        × IsFlush f to_flush)
    × OthersKept s i s'

module _ (s : BufferPoolManager) (p : PageId) where
  place-Creates :
      (s' : BufferPoolManager) (i : ℕ) (f : Frame) (to_flush : Option (PageId × Buffer))
      → IsVacant s' i f
      → s'.frames ≡ s.frames
      → s'.page_table p ≡ none
      → IsFlush f to_flush
      → Returns (place p (s', some (i, to_flush))) (Creates p s)
  unfolding place
  place-Creates s' i f to_flush v same new_page flush =
      let once = pinned_once_more f in
      let used = set_page_id once (some p) in
      let inside : i < length s'.frames = get_elem?-some s'.frames i v.is_there in
      let id = v.others.ids i f v.is_there in
      let len = length-set s'.frames i once in
      let (evictor, (r, valid, gone, flags, n)) =
        pin-Pins s' i f v.others.valid v.others.as_many v.is_there id (rw v.unpinned (omega arith))
          (inl v.unpinned) in
      let frames = set (set s'.frames i once) i used in
      let w : Writes s' i used frames evictor = record {
        here = get_elem?-set_self (set s'.frames i once) i used (rw len inside);
        away = λ j k.
            get_elem?-set_ne (set s'.frames i once) i j used k
            ∙ get_elem?-set_ne s'.frames i j once k;
        same_length = length-set (set s'.frames i once) i used ∙ len;
        valid = valid;
        flag = gone ∙ ap some (sym (ne→== (f.pin_count + 1) 0 (omega arith)));
        flags = flags;
        as_many = n;
        has_id = id;
      } in
      (
        (
          with_frame
              (record (with_pin s' i f evictor) {
                page_table = insert_key s'.page_table p (some i);
              })
              i used,
          i,
          to_flush,
        ),
        rw (place, r, get_elem?-set_self s'.frames i once inside),
        (
          placed-IsConsistent s' i used frames evictor w f v p new_page refl,
          rw (page_id_eq_refl p),
          (f, ap (λ l. get_elem? l i) (sym same) ∙ v.is_there, v.unpinned, w.here, flush),
          λ j k. w.away j k ∙ ap (λ l. get_elem? l j) same,
        ),
      )

-- In a consistent pool that has no frame for the page, the first step of `create_page` leaves the
-- pool consistent and gives the page a frame that nobody had pinned, pinned once, with the dirty
-- page that the frame had as the one to flush; the frame keeps its bytes and its dirty flag, and
-- all others are as before. Or it panics: then no frame is free and every frame with a page is
-- pinned.
pub create-Creates :
    (s : BufferPoolManager) (p : PageId)
    → IsConsistent s
    → s.page_table p ≡ none
    → Returns (create p s) (Creates p s) ⊎ ((create p s ≡ panic) × (s.free_frames ≡ []) × IsFull s)
unfolding create place
create-Creates s p c e = after (available_frame-Finds s c)
  where
    after :
        Returns (available_frame s) (Finds s)
        → Returns (create p s) (Creates p s)
          ⊎ ((create p s ≡ panic) × (s.free_frames ≡ []) × IsFull s)
    after ((s', none), r, h) = inr (rw (create, r), h.3, h.4)
    after ((s', some (i, to_flush)), r, (f, v, same, keeps, flush, fe, fl)) =
        let (y, r', h) = place-Creates s p s' i f to_flush v same (keeps p e) flush in
        inl (y, rw (create, r) r', h)
