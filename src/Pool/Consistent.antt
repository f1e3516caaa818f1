-- ===== src/Pool/Consistent.antt =====
-- The invariant of the pool.
use rarm_db.Base.{
  ℕ, ◌+◌, ◌%◌, ◌^◌, ◌<◌, ◌≡◌, ◌≢◌, refl, ◌∙◌, List, [], ◌∷◌, Option, none, some, Bool, true, false,
  ◌&&◌, ◌==◌, ◌⊎◌, inl, inr, arith, get_elem?, set, length, get_elem?-some, done, eq→==, ne→==,
}
use native.Mathlib.Decide.{ℕ_discrete}
use native.Mathlib.Nat.{mod-eq_of_lt}
use rarm_db.Page.{PageId}
use rarm_db.Evictor.{ClockEvictorState, remove}
use rarm_db.Evictor.Invariant.{IsValid, remove-IsValid, length-remove}
use rarm_db.Frame.{Frame, pin_frame, increment_pin_count}
use rarm_db.Pool.{BufferPoolManager, page_id_eq, pin}

abbrev pub has_page : Option PageId → Bool
has_page none = false
has_page (some p) = true

-- A frame that the evictor may give away.
abbrev pub evictable : Frame → Bool
evictable f = has_page f.page_id && f.pin_count == 0

-- No index is in the list twice, and none in it is `i`.
abbrev pub Lacks : ℕ → List ℕ → Type 0
Lacks i [] = Unit
Lacks i (j ∷ l) = (i ≢ j) × Lacks i l

abbrev pub IsDistinct : List ℕ → Type 0
IsDistinct [] = Unit
IsDistinct (i ∷ l) = Lacks i l × IsDistinct l

-- A frame that holds no page and that nobody uses.
pub record IsIdle (frames : List Frame) (i : ℕ) : Type 0 where
  pub frame : Frame
  pub is_there : get_elem? frames i ≡ some frame
  pub no_page : frame.page_id ≡ none
  pub unpinned : frame.pin_count ≡ 0

abbrev pub AllIdle : List Frame → List ℕ → Type 0
AllIdle frames [] = Unit
AllIdle frames (i ∷ l) = IsIdle frames i × AllIdle frames l

-- What holds of every frame but those that `skip` lets out, and of the free list.
pub record IsConsistentBut (skip : ℕ → Type 0) (s : BufferPoolManager) : Type 0 where
  pub valid : IsValid s.evictor
  pub as_many : length s.evictor.is_in_evictor ≡ length s.frames
  pub ids : (i : ℕ) (f : Frame) → get_elem? s.frames i ≡ some f → f.id ≡ i
  pub held :
      (i : ℕ) (f : Frame)
      → (skip i → ⊥)
      → get_elem? s.frames i ≡ some f
      → get_elem? s.evictor.is_in_evictor i ≡ some (evictable f)
  pub mapped :
      (p : PageId) (i : ℕ)
      → s.page_table p ≡ some i
      → (skip i → ⊥) × ((f : Frame) × (get_elem? s.frames i ≡ some f) × (f.page_id ≡ some p))
  pub found :
      (i : ℕ) (f : Frame) (p : PageId)
      → (skip i → ⊥)
      → get_elem? s.frames i ≡ some f
      → f.page_id ≡ some p
      → s.page_table p ≡ some i
  pub idle : AllIdle s.frames s.free_frames
  pub once : IsDistinct s.free_frames

-- The page table and the pages of the frames agree, the evictor has the frames with a page that
-- nobody has pinned, and the free frames are idle.
abbrev pub IsConsistent : BufferPoolManager → Type 0
IsConsistent = IsConsistentBut (λ i. ⊥)

-- The frame at `i` is on no list: the next page goes there.
pub record IsVacant (s : BufferPoolManager) (i : ℕ) (frame : Frame) : Type 0 where
  pub others : IsConsistentBut (λ j. j ≡ i) s
  pub is_there : get_elem? s.frames i ≡ some frame
  pub unpinned : frame.pin_count ≡ 0
  pub not_held : get_elem? s.evictor.is_in_evictor i ≡ some false
  pub not_free : Lacks i s.free_frames

pub page_id_eq→eq : (p q : PageId) → page_id_eq p q ≡ true → p ≡ q
page_id_eq→eq p q h =
    let table : p.table_id ≡ q.table_id = ground arith in
    let index : p.page_index ≡ q.page_index = ground arith in cc

pub page_id_eq_refl : (p : PageId) → page_id_eq p p ≡ true
page_id_eq_refl p = ground arith

-- Frames that are not written stay idle.
pub AllIdle-away :
    (frames frames' : List Frame) (i : ℕ) (l : List ℕ)
    → ((j : ℕ) → i ≢ j → get_elem? frames' j ≡ get_elem? frames j)
    → Lacks i l
    → AllIdle frames l
    → AllIdle frames' l
AllIdle-away frames frames' i [] away h a = tt
AllIdle-away frames frames' i (j ∷ l) away h a = (
  record {
    frame = a.0.frame;
    is_there = away j h.0 ∙ a.0.is_there;
    no_page = a.0.no_page;
    unpinned = a.0.unpinned;
  },
  AllIdle-away frames frames' i l away h.1 a.1,
)

-- The pool with one more pin of a frame.
abbrev pub with_pin : BufferPoolManager → ℕ → Frame → ClockEvictorState → BufferPoolManager
with_pin s i f evictor = record s {
  frames = set s.frames i (record f { pin_count = f.pin_count + 1 });
  evictor = evictor;
}

module _ (s : BufferPoolManager) (i : ℕ) (f : Frame) (is_there : get_elem? s.frames i ≡ some f)
    (no_wrap : (f.pin_count + 1) % 2 ^ 64 ≡ f.pin_count + 1) where
  first_pin :
      (evictor : ClockEvictorState)
      → f.id ≡ i
      → f.pin_count ≡ 0
      → remove s.evictor i ≡ done evictor
      → pin s i ≡ done (with_pin s i f evictor)
  unfolding pin pin_frame increment_pin_count
  first_pin evictor id z r =
      let r' : remove s.evictor f.id ≡ done evictor = rw id r in
      rw (is_there, eq→== f.pin_count 0 z, r', no_wrap)

  pub later_pin : f.pin_count ≢ 0 → pin s i ≡ done (with_pin s i f s.evictor)
  unfolding pin pin_frame increment_pin_count
  later_pin z = rw (is_there, ne→== f.pin_count 0 z, no_wrap)

not_held_lem :
    (n : ℕ) (held : Option Bool) → n ≢ 0 → ((n ≡ 0) ⊎ (held ≡ some false)) → held ≡ some false
not_held_lem n held z (inl q) = absurd (z q)
not_held_lem n held z (inr q) = q

-- A pin: the count is one more, the frame is not in the evictor, and the rest is as before.
abbrev pub Pins : BufferPoolManager → ℕ → Frame → ClockEvictorState → Type 0
Pins s i f evictor =
    (pin s i ≡ done (with_pin s i f evictor))
    × IsValid evictor
    × (get_elem? evictor.is_in_evictor i ≡ some false)
    × ((j : ℕ) → i ≢ j → get_elem? evictor.is_in_evictor j ≡ get_elem? s.evictor.is_in_evictor j)
    × (length evictor.is_in_evictor ≡ length s.evictor.is_in_evictor)

pub pin-Pins :
    (s : BufferPoolManager) (i : ℕ) (f : Frame)
    → IsValid s.evictor
    → length s.evictor.is_in_evictor ≡ length s.frames
    → get_elem? s.frames i ≡ some f
    → f.id ≡ i
    → f.pin_count + 1 < 2 ^ 64
    → ((f.pin_count ≡ 0) ⊎ (get_elem? s.evictor.is_in_evictor i ≡ some false))
    → (evictor : ClockEvictorState) × Pins s i f evictor
pin-Pins s i f v n e id h free =
    let no_wrap : (f.pin_count + 1) % 2 ^ 64 ≡ f.pin_count + 1 = mod-eq_of_lt h in
    let inside : i < length s.evictor.is_in_evictor = omega (arith, get_elem?-some s.frames i e) in
    elim (ℕ_discrete f.pin_count 0) [
      | yes z ↦
          let (evictor, r, (w, gone, chances, others)) = remove-IsValid s.evictor i v inside in
          (
            evictor,
            (
              first_pin s i f e no_wrap evictor id z r,
              w,
              gone,
              λ j n. (others j n).0,
              length-remove s.evictor evictor i v inside r,
            ),
          )
      | no z ↦ (
        s.evictor,
        (
          later_pin s i f e no_wrap z,
          v,
          not_held_lem f.pin_count (get_elem? s.evictor.is_in_evictor i) z free,
          λ j k. refl,
          refl,
        ),
      )
    ]
