-- ===== src/Pool/Steps.antt =====
-- The drop of a guard, and writes of a frame that keep its page and its pins.
use native.Mathlib.Decide.{ℕ_discrete}
use rarm_db.Base.{
  ℕ, ◌-◌, ◌<◌, ◌≡◌, ◌≢◌, refl, ap, sym, ◌∙◌, some, ◌==◌, arith, get_elem?, set, length, length-set,
  get_elem?-set_self, get_elem?-set_ne, get_elem?-some, Returns, done, eq→==, ne→==,
}
use rarm_db.Page.{PageId}
use rarm_db.Evictor.{ClockEvictorState, add}
use rarm_db.Evictor.Invariant.{IsValid, add-IsValid, length-add}
use rarm_db.Frame.{Frame, unpin_frame, decrement_pin_count}
use rarm_db.Pool.{BufferPoolManager, with_frame, unpin}
use rarm_db.Pool.Consistent.{IsConsistent}
use rarm_db.Pool.Update.{Writes, rewritten-IsConsistent}
use rarm_db.Pool.Reserve.{OthersKept}

abbrev pub pinned_once_less : Frame → Frame
pinned_once_less f = record f { pin_count = f.pin_count - 1 }

abbrev with_unpin : BufferPoolManager → ℕ → Frame → ClockEvictorState → BufferPoolManager
with_unpin s i f evictor = record s {
  frames = set s.frames i (pinned_once_less f);
  evictor = evictor;
}

module _ (s : BufferPoolManager) (i : ℕ) (f : Frame) (there : get_elem? s.frames i ≡ some f) where
  last_unpin :
      (evictor : ClockEvictorState)
      → f.id ≡ i
      → f.pin_count ≡ 1
      → add s.evictor i ≡ done evictor
      → unpin s i ≡ done (with_unpin s i f evictor)
  unfolding unpin unpin_frame decrement_pin_count
  last_unpin evictor id z r =
      let r' : add s.evictor f.id ≡ done evictor = rw id r in
      rw (there, ne→== f.pin_count 0 (omega arith), eq→== f.pin_count 1 z, r')

  early_unpin : f.pin_count ≢ 0 → f.pin_count ≢ 1 → unpin s i ≡ done (with_unpin s i f s.evictor)
  unfolding unpin unpin_frame decrement_pin_count
  early_unpin n m = rw (there, ne→== f.pin_count 0 n, ne→== f.pin_count 1 m)

  unpin-Writes :
      (p : PageId) (evictor : ClockEvictorState)
      → f.id ≡ i
      → IsValid evictor
      → get_elem? evictor.is_in_evictor i ≡ some (f.pin_count - 1 == 0)
      → ((j : ℕ) → i ≢ j → get_elem? evictor.is_in_evictor j ≡ get_elem? s.evictor.is_in_evictor j)
      → length evictor.is_in_evictor ≡ length s.evictor.is_in_evictor
      → f.page_id ≡ some p
      → Writes s i (pinned_once_less f) (set s.frames i (pinned_once_less f)) evictor
  unpin-Writes p evictor id v flag flags n page = record {
    here = get_elem?-set_self s.frames i (pinned_once_less f) (get_elem?-some s.frames i there);
    away = λ j k. get_elem?-set_ne s.frames i j (pinned_once_less f) k;
    same_length = length-set s.frames i (pinned_once_less f);
    valid = v;
    flag = flag ∙ (rw page);
    flags = flags;
    as_many = n;
    has_id = id;
  }

-- In a consistent pool, the drop of a guard on a frame with a page does not panic and leaves the
-- pool consistent: the frame has one pin less, and all others are as before.
pub unpin-IsConsistent :
    (s : BufferPoolManager) (i : ℕ) (f : Frame) (p : PageId)
    → IsConsistent s
    → get_elem? s.frames i ≡ some f
    → f.page_id ≡ some p
    → 0 < f.pin_count
    → Returns (unpin s i) (λ s'.
      IsConsistent s' × (get_elem? s'.frames i ≡ some (pinned_once_less f)) × OthersKept s i s')
unpin-IsConsistent s i f p c there page h =
    let id = c.ids i f there in
    let inside : i < length s.evictor.is_in_evictor =
      omega (arith, get_elem?-some s.frames i there, c.as_many) in
    elim (ℕ_discrete f.pin_count 1) [
      | yes z ↦
          let (evictor, r, (v, holds, chance, flags)) = add-IsValid s.evictor i c.valid inside in
          let w =
            unpin-Writes s i f there p evictor id v
              (holds ∙ ap some (sym (eq→== (f.pin_count - 1) 0 (omega arith))))
              (λ j n. (flags j n).0) (length-add s.evictor evictor i c.valid inside r) page in
          (
            with_unpin s i f evictor,
            last_unpin s i f there evictor id z r,
            (
              rewritten-IsConsistent s i (pinned_once_less f) (set s.frames i (pinned_once_less f))
                  evictor w c f p there page page,
              w.here,
              w.away,
            ),
          )
      | no z ↦
          let was_held = c.held i f (λ x. x) there in
          let w =
            unpin-Writes s i f there p s.evictor id c.valid
              (was_held
                ∙ (rw (
                  page,
                  ne→== f.pin_count 0 (omega arith),
                  ne→== (f.pin_count - 1) 0 (omega arith),
                )))
              (λ j k. refl) refl page in
          (
            with_unpin s i f s.evictor,
            early_unpin s i f there (omega arith) z,
            (
              rewritten-IsConsistent s i (pinned_once_less f) (set s.frames i (pinned_once_less f))
                  s.evictor w c f p there page page,
              w.here,
              w.away,
            ),
          )
    ]

-- A frame whose page and pins stay.
pub kept-IsConsistent :
    (s : BufferPoolManager) (i : ℕ) (f g : Frame) (p : PageId)
    → IsConsistent s
    → get_elem? s.frames i ≡ some f
    → f.page_id ≡ some p
    → g.page_id ≡ f.page_id
    → g.pin_count ≡ f.pin_count
    → g.id ≡ f.id
    → IsConsistent (with_frame s i g)
kept-IsConsistent s i f g p c there page same pins id =
    rewritten-IsConsistent s i g (set s.frames i g) s.evictor w c f p there page (same ∙ page)
  where
    w : Writes s i g (set s.frames i g) s.evictor
    w = record {
      here = get_elem?-set_self s.frames i g (get_elem?-some s.frames i there);
      away = λ j k. get_elem?-set_ne s.frames i j g k;
      same_length = length-set s.frames i g;
      valid = c.valid;
      flag = c.held i f (λ x. x) there ∙ (rw (same, pins));
      flags = λ j k. refl;
      as_many = refl;
      has_id = id ∙ c.ids i f there;
    }
