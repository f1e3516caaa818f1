-- ===== src/Pool/Update.antt =====
-- Writes of one frame that keep the invariant of the pool.
use rarm_db.Base.{
  ℕ, ◌≡◌, ◌≢◌, ap, sym, ◌∙◌, List, none, some, true, inl, inr, get_elem?, length, Bool-cases,
}
use native.Mathlib.Decide.{ℕ_discrete}
use rarm_db.Page.{PageId}
use rarm_db.Evictor.{ClockEvictorState}
use rarm_db.Evictor.Invariant.{IsValid}
use rarm_db.Frame.{Frame}
use rarm_db.Pool.{BufferPoolManager, page_id_eq, insert_key}
use rarm_db.Pool.Vacant.{Lacks-AllIdle}
use rarm_db.Pool.Consistent.{
  evictable, AllIdle-away, IsConsistent, IsVacant, page_id_eq→eq, page_id_eq_refl,
}

-- The frames and the evictor after a write of frame `i`.
pub record Writes (s : BufferPoolManager) (i : ℕ) (g : Frame) (frames : List Frame)
    (evictor : ClockEvictorState) : Type 0 where
  pub here : get_elem? frames i ≡ some g
  pub away : (j : ℕ) → i ≢ j → get_elem? frames j ≡ get_elem? s.frames j
  pub same_length : length frames ≡ length s.frames
  pub valid : IsValid evictor
  pub flag : get_elem? evictor.is_in_evictor i ≡ some (evictable g)
  pub flags :
      (j : ℕ) → i ≢ j → get_elem? evictor.is_in_evictor j ≡ get_elem? s.evictor.is_in_evictor j
  pub as_many : length evictor.is_in_evictor ≡ length s.evictor.is_in_evictor
  pub has_id : g.id ≡ i

some-injective : {A : Type 0} {a b : A} → some a ≡ some b → a ≡ b
some-injective e = cc

module _ (s : BufferPoolManager) (i : ℕ) (g : Frame) (frames : List Frame)
    (evictor : ClockEvictorState) (w : Writes s i g frames evictor) where
  written_id :
      ((j : ℕ) (f : Frame) → get_elem? s.frames j ≡ some f → f.id ≡ j)
      → (j : ℕ) (f : Frame) → get_elem? frames j ≡ some f
      → f.id ≡ j
  written_id ids j f e = elim (ℕ_discrete i j) [
    | yes p ↦
        let at_i : get_elem? frames i ≡ some f = rw p e in
        let same : g ≡ f = some-injective (sym w.here ∙ at_i) in
        ap (λ x. x.id) (sym same) ∙ w.has_id ∙ p
    | no n ↦ ids j f (sym (w.away j n) ∙ e)
  ]

  written_flag :
      ((j : ℕ) (f : Frame)
        → i ≢ j
        → get_elem? s.frames j ≡ some f
        → get_elem? s.evictor.is_in_evictor j ≡ some (evictable f))
      → (j : ℕ) (f : Frame) → get_elem? frames j ≡ some f
      → get_elem? evictor.is_in_evictor j ≡ some (evictable f)
  written_flag held j f e = elim (ℕ_discrete i j) [
    | yes p ↦
        let at_i : get_elem? frames i ≡ some f = rw p e in
        let same : g ≡ f = some-injective (sym w.here ∙ at_i) in
        let flag : get_elem? evictor.is_in_evictor j ≡ some (evictable g) = rw (← p) w.flag in
        flag ∙ ap (λ x. some (evictable x)) same
    | no n ↦ w.flags j n ∙ held j f n (sym (w.away j n) ∙ e)
  ]

  -- The frame keeps its page.
  module _ (c : IsConsistent s) (f : Frame) (p : PageId) (there : get_elem? s.frames i ≡ some f)
      (page : f.page_id ≡ some p) (same : g.page_id ≡ some p) where
    rewritten_mapped :
        (q : PageId) (j : ℕ)
        → s.page_table q ≡ some j
        → (⊥ → ⊥) × ((h : Frame) × (get_elem? frames j ≡ some h) × (h.page_id ≡ some q))
    rewritten_mapped q j e =
        let (n, (h, at_j, page_j)) = c.mapped q j e in
        (
          λ x. x,
          elim (ℕ_discrete i j) [
            | yes r ↦
                let at_i : get_elem? s.frames i ≡ some h = rw r at_j in
                let fh : f ≡ h = some-injective (sym there ∙ at_i) in
                (g, rw (← r) w.here, same ∙ sym page ∙ ap (λ x. x.page_id) fh ∙ page_j)
            | no r ↦ (h, w.away j r ∙ at_j, page_j)
          ],
        )

    rewritten_found :
        (j : ℕ) (h : Frame) (q : PageId)
        → (⊥ → ⊥)
        → get_elem? frames j ≡ some h
        → h.page_id ≡ some q
        → s.page_table q ≡ some j
    rewritten_found j h q n e k = elim (ℕ_discrete i j) [
      | yes r ↦
          let at_i : get_elem? frames i ≡ some h = rw r e in
          let gh : g ≡ h = some-injective (sym w.here ∙ at_i) in
          rw (← r) (c.found i f q n there (page ∙ sym same ∙ ap (λ x. x.page_id) gh ∙ k))
      | no r ↦ c.found j h q n (sym (w.away j r) ∙ e) k
    ]

    pub rewritten-IsConsistent : IsConsistent (record s { frames = frames; evictor = evictor })
    rewritten-IsConsistent = record {
      valid = w.valid;
      as_many = w.as_many ∙ c.as_many ∙ sym w.same_length;
      ids = written_id c.ids;
      held = λ j h n. written_flag (λ j' h' n'. c.held j' h' n) j h;
      mapped = rewritten_mapped;
      found = rewritten_found;
      idle =
          AllIdle-away s.frames frames i s.free_frames w.away
            (Lacks-AllIdle s.frames i f p s.free_frames there page c.idle) c.idle;
      once = c.once;
    }

  -- A frame that is on no list gets a page that is in no frame.
  module _ (f : Frame) (v : IsVacant s i f) (p : PageId) (new_page : s.page_table p ≡ none)
      (page : g.page_id ≡ some p) where
    placed_mapped :
        (q : PageId) (j : ℕ)
        → insert_key s.page_table p (some i) q ≡ some j
        → (⊥ → ⊥) × ((h : Frame) × (get_elem? frames j ≡ some h) × (h.page_id ≡ some q))
    placed_mapped q j e = elim (Bool-cases (page_id_eq p q)) [
      | inl r ↦
          let ij : i ≡ j = some-injective (rw r at e) in
          let pq : p ≡ q = page_id_eq→eq p q r in (λ x. x, (g, rw (← ij) w.here, page ∙ ap some pq))
      | inr r ↦
          let (n, (h, at_j, page_j)) = v.others.mapped q j (rw r at e) in
          (λ x. x, (h, w.away j (λ x. n (sym x)) ∙ at_j, page_j))
    ]

    placed_found :
        (j : ℕ) (h : Frame) (q : PageId)
        → (⊥ → ⊥)
        → get_elem? frames j ≡ some h
        → h.page_id ≡ some q
        → insert_key s.page_table p (some i) q ≡ some j
    placed_found j h q n e k = elim (ℕ_discrete i j) [
      | yes r ↦
          let at_i : get_elem? frames i ≡ some h = rw r e in
          let gh : g ≡ h = some-injective (sym w.here ∙ at_i) in
          let pq : p ≡ q = some-injective (sym page ∙ ap (λ x. x.page_id) gh ∙ k) in
          let known : page_id_eq p q ≡ true = rw (← pq) (page_id_eq_refl p) in rw (known, r)
      | no r ↦
          let old : s.page_table q ≡ some j =
            v.others.found j h q (λ x. r (sym x)) (sym (w.away j r) ∙ e) k in
          elim (Bool-cases (page_id_eq p q)) [
            | inl t ↦
                let pq : p ≡ q = page_id_eq→eq p q t in
                let no : none ≡ some j = sym new_page ∙ ap s.page_table pq ∙ old in cc
            | inr t ↦ rw t old
          ]
    ]

    pub placed-IsConsistent : IsConsistent (record s {
      page_table = insert_key s.page_table p (some i);
      frames = frames;
      evictor = evictor;
    })
    placed-IsConsistent = record {
      valid = w.valid;
      as_many = w.as_many ∙ v.others.as_many ∙ sym w.same_length;
      ids = written_id v.others.ids;
      held = λ j h n. written_flag (λ j' h' n'. v.others.held j' h' (λ x. n' (sym x))) j h;
      mapped = placed_mapped;
      found = placed_found;
      idle = AllIdle-away s.frames frames i s.free_frames w.away v.not_free v.others.idle;
      once = v.others.once;
    }
