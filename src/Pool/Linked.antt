-- ===== src/Pool/Linked.antt =====
-- What holds of the pool whatever comes between the two halves of the drop of a guard: the page
-- table and the pages of the frames agree, and the evictor has only frames with a page.
use rarm_db.Base.{
  ℕ, ◌≡◌, ◌≢◌, ap, sym, ◌∙◌, List, none, some, true, inl, inr, get_elem?, length, Bool-cases,
}
use native.Mathlib.Decide.{ℕ_discrete}
use rarm_db.Page.{PageId}
use rarm_db.Evictor.{ClockEvictorState}
use rarm_db.Evictor.Invariant.{IsValid}
use rarm_db.Frame.{Frame}
use rarm_db.Pool.{BufferPoolManager, page_id_eq, insert_key}
use rarm_db.Pool.Vacant.{Lacks-AllIdle}
use rarm_db.Pool.Consistent.{
  Lacks, IsDistinct, AllIdle, AllIdle-away, page_id_eq→eq, page_id_eq_refl,
}

pub record IsLinkedBut (skip : ℕ → Type 0) (s : BufferPoolManager) : Type 0 where
  pub valid : IsValid s.evictor
  pub as_many : length s.evictor.is_in_evictor ≡ length s.frames
  pub ids : (i : ℕ) (f : Frame) → get_elem? s.frames i ≡ some f → f.id ≡ i
  pub has_page :
      (i : ℕ) (f : Frame)
      → get_elem? s.frames i ≡ some f
      → get_elem? s.evictor.is_in_evictor i ≡ some true
      → (p : PageId) × (f.page_id ≡ some p)
  pub mapped :
      (p : PageId) (i : ℕ)
      → s.page_table p ≡ some i
      → (skip i → ⊥) × ((f : Frame) × (get_elem? s.frames i ≡ some f) × (f.page_id ≡ some p))
  pub found :
      (i : ℕ) (f : Frame) (p : PageId)
      → (skip i → ⊥)
      → get_elem? s.frames i ≡ some f
      → f.page_id ≡ some p
      → s.page_table p ≡ some i
  pub idle : AllIdle s.frames s.free_frames
  pub once : IsDistinct s.free_frames

-- The page table and the pages of the frames agree, the frames in the evictor have a page, and the
-- free frames have neither a page nor a pin.
abbrev pub IsLinked : BufferPoolManager → Type 0
IsLinked = IsLinkedBut (λ i. ⊥)

-- The frame at `i` is on no list, and no page is mapped to it.
pub record IsOpen (s : BufferPoolManager) (i : ℕ) (frame : Frame) : Type 0 where
  pub others : IsLinkedBut (λ j. j ≡ i) s
  pub is_there : get_elem? s.frames i ≡ some frame
  pub not_free : Lacks i s.free_frames

-- The frames and the evictor after a write of frame `i`, which is the only one that may be new in
-- the evictor.
pub record Touches (s : BufferPoolManager) (i : ℕ) (g : Frame) (frames : List Frame)
    (evictor : ClockEvictorState) : Type 0 where
  pub here : get_elem? frames i ≡ some g
  pub away : (j : ℕ) → i ≢ j → get_elem? frames j ≡ get_elem? s.frames j
  pub same_length : length frames ≡ length s.frames
  pub valid : IsValid evictor
  pub only :
      (j : ℕ) → i ≢ j → get_elem? evictor.is_in_evictor j ≡ get_elem? s.evictor.is_in_evictor j
  pub as_many : length evictor.is_in_evictor ≡ length s.evictor.is_in_evictor
  pub has_id : g.id ≡ i

some-injective : {A : Type 0} {a b : A} → some a ≡ some b → a ≡ b
some-injective e = cc

module _ (s : BufferPoolManager) (i : ℕ) (g : Frame) (frames : List Frame)
    (evictor : ClockEvictorState) (w : Touches s i g frames evictor) (p : PageId)
    (page : g.page_id ≡ some p) where
  here_same : (j : ℕ) (h : Frame) → i ≡ j → get_elem? frames j ≡ some h → g ≡ h
  here_same j h r e =
      let at_i : get_elem? frames i ≡ some h = rw r e in some-injective (sym w.here ∙ at_i)

  touched_id :
      ((j : ℕ) (f : Frame) → get_elem? s.frames j ≡ some f → f.id ≡ j)
      → (j : ℕ) (f : Frame) → get_elem? frames j ≡ some f
      → f.id ≡ j
  touched_id ids j f e = elim (ℕ_discrete i j) [
    | yes r ↦ ap (λ x. x.id) (sym (here_same j f r e)) ∙ w.has_id ∙ r
    | no n ↦ ids j f (sym (w.away j n) ∙ e)
  ]

  touched_page :
      ((j : ℕ) (f : Frame)
        → get_elem? s.frames j ≡ some f
        → get_elem? s.evictor.is_in_evictor j ≡ some true
        → (q : PageId) × (f.page_id ≡ some q))
      → (j : ℕ) (f : Frame) → get_elem? frames j ≡ some f
      → get_elem? evictor.is_in_evictor j ≡ some true
      → (q : PageId) × (f.page_id ≡ some q)
  touched_page has j f e flag = elim (ℕ_discrete i j) [
    | yes r ↦ (p, ap (λ x. x.page_id) (sym (here_same j f r e)) ∙ page)
    | no n ↦ has j f (sym (w.away j n) ∙ e) (sym (w.only j n) ∙ flag)
  ]

  -- The frame keeps its page.
  module _ (c : IsLinked s) (f : Frame) (there : get_elem? s.frames i ≡ some f)
      (same : f.page_id ≡ some p) where
    kept_mapped :
        (q : PageId) (j : ℕ)
        → s.page_table q ≡ some j
        → (⊥ → ⊥) × ((h : Frame) × (get_elem? frames j ≡ some h) × (h.page_id ≡ some q))
    kept_mapped q j e =
        let (n, (h, at_j, page_j)) = c.mapped q j e in
        (
          λ x. x,
          elim (ℕ_discrete i j) [
            | yes r ↦
                let at_i : get_elem? s.frames i ≡ some h = rw r at_j in
                let fh : f ≡ h = some-injective (sym there ∙ at_i) in
                (g, rw (← r) w.here, page ∙ sym same ∙ ap (λ x. x.page_id) fh ∙ page_j)
            | no r ↦ (h, w.away j r ∙ at_j, page_j)
          ],
        )

    kept_found :
        (j : ℕ) (h : Frame) (q : PageId)
        → (⊥ → ⊥)
        → get_elem? frames j ≡ some h
        → h.page_id ≡ some q
        → s.page_table q ≡ some j
    kept_found j h q n e k = elim (ℕ_discrete i j) [
      | yes r ↦
          rw (← r)
            (c.found i f q n there (same ∙ sym page ∙ ap (λ x. x.page_id) (here_same j h r e) ∙ k))
      | no r ↦ c.found j h q n (sym (w.away j r) ∙ e) k
    ]

    pub kept-IsLinked : IsLinked (record s { frames = frames; evictor = evictor })
    kept-IsLinked = record {
      valid = w.valid;
      as_many = w.as_many ∙ c.as_many ∙ sym w.same_length;
      ids = touched_id c.ids;
      has_page = touched_page c.has_page;
      mapped = kept_mapped;
      found = kept_found;
      idle =
          AllIdle-away s.frames frames i s.free_frames w.away
            (Lacks-AllIdle s.frames i f p s.free_frames there same c.idle) c.idle;
      once = c.once;
    }

  -- A frame that is on no list gets a page that is in no frame.
  module _ (f : Frame) (v : IsOpen s i f) (new_page : s.page_table p ≡ none) where
    put_mapped :
        (q : PageId) (j : ℕ)
        → insert_key s.page_table p (some i) q ≡ some j
        → (⊥ → ⊥) × ((h : Frame) × (get_elem? frames j ≡ some h) × (h.page_id ≡ some q))
    put_mapped q j e = elim (Bool-cases (page_id_eq p q)) [
      | inl r ↦
          let ij : i ≡ j = some-injective (rw r at e) in
          (λ x. x, (g, rw (← ij) w.here, page ∙ ap some (page_id_eq→eq p q r)))
      | inr r ↦
          let (n, (h, at_j, page_j)) = v.others.mapped q j (rw r at e) in
          (λ x. x, (h, w.away j (λ x. n (sym x)) ∙ at_j, page_j))
    ]

    put_found :
        (j : ℕ) (h : Frame) (q : PageId)
        → (⊥ → ⊥)
        → get_elem? frames j ≡ some h
        → h.page_id ≡ some q
        → insert_key s.page_table p (some i) q ≡ some j
    put_found j h q n e k = elim (ℕ_discrete i j) [
      | yes r ↦
          let pq : p ≡ q =
            some-injective (sym page ∙ ap (λ x. x.page_id) (here_same j h r e) ∙ k) in
          let known : page_id_eq p q ≡ true = rw (← pq) (page_id_eq_refl p) in rw (known, r)
      | no r ↦
          let old : s.page_table q ≡ some j =
            v.others.found j h q (λ x. r (sym x)) (sym (w.away j r) ∙ e) k in
          elim (Bool-cases (page_id_eq p q)) [
            | inl t ↦
                let no : none ≡ some j =
                  sym new_page ∙ ap s.page_table (page_id_eq→eq p q t) ∙ old in
                cc
            | inr t ↦ rw t old
          ]
    ]

    pub put-IsLinked : IsLinked (record s {
      page_table = insert_key s.page_table p (some i);
      frames = frames;
      evictor = evictor;
    })
    put-IsLinked = record {
      valid = w.valid;
      as_many = w.as_many ∙ v.others.as_many ∙ sym w.same_length;
      ids = touched_id v.others.ids;
      has_page = touched_page v.others.has_page;
      mapped = put_mapped;
      found = put_found;
      idle = AllIdle-away s.frames frames i s.free_frames w.away v.not_free v.others.idle;
      once = v.others.once;
    }
