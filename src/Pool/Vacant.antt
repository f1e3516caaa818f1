-- ===== src/Pool/Vacant.antt =====
-- A frame that was free, or that nobody had pinned when it was evicted, is on no list.
use rarm_db.Base.{
  ℕ, ◌≡◌, ◌≢◌, refl, ap, sym, ◌∙◌, List, [], ◌∷◌, Option, none, some, true, false, ◌⊎◌, inl, inr,
  get_elem?, set, length, length-set, get_elem?-set_self, get_elem?-set_ne, get_elem?-some,
  Bool-cases, ==_iff, Option-cases,
}
use rarm_db.Page.{PageId}
use rarm_db.Evictor.{ClockEvictorState}
use rarm_db.Evictor.Invariant.{IsValid, Holds}
use rarm_db.Frame.{Frame}
use rarm_db.Pool.{BufferPoolManager, page_id_eq, insert_key, pop}
use rarm_db.Pool.Consistent.{
  evictable, Lacks, IsDistinct, IsIdle, AllIdle, IsConsistent, IsVacant, page_id_eq→eq,
  page_id_eq_refl,
}

-- The last free frame, and the others.
pub record Pops (frames : List Frame) (l : List ℕ) (i : ℕ) (rest : List ℕ) : Type 0 where
  pub lacks : (j : ℕ) → Lacks j l → (j ≢ i) × Lacks j rest
  pub not_twice : Lacks i rest
  pub once : IsDistinct rest
  pub idle : AllIdle frames rest
  pub is_idle : IsIdle frames i

pub pop-Pops :
    (frames : List Frame) (l : List ℕ)
    → IsDistinct l
    → AllIdle frames l
    → (pop l ≡ none) ⊎ ((i : ℕ) × (rest : List ℕ) × (pop l ≡ some (i, rest)) × Pops frames l i rest)
unfolding pop
pop-Pops frames [] d a = inl refl
pop-Pops frames (x ∷ xs) d a = elim (pop-Pops frames xs d.1 a.1) [
  | inl e ↦ inr (
    x,
    [],
    rw e,
    record { lacks = λ j h. (h.0, tt); not_twice = tt; once = tt; idle = tt; is_idle = a.0 },
  )
  | inr (i, rest, e, p) ↦ inr (
    i,
    x ∷ rest,
    rw e,
    record {
      lacks = λ j h. ((p.lacks j h.1).0, (h.0, (p.lacks j h.1).1));
      not_twice = (λ e. (p.lacks x d.0).0 (sym e), p.not_twice);
      once = ((p.lacks x d.0).1, p.once);
      idle = (a.0, p.idle);
      is_idle = p.is_idle;
    },
  )
]

-- The same frame stands at the same place.
pub same_frame :
    (frames : List Frame) (i : ℕ) (f g : Frame)
    → get_elem? frames i ≡ some f
    → get_elem? frames i ≡ some g
    → f ≡ g
same_frame frames i f g e e' = cc

pub same_page : (f g : Frame) (p q : Option PageId) → f ≡ g → f.page_id ≡ p → g.page_id ≡ q → p ≡ q
same_page f g p q e h k = sym h ∙ ap (λ x. x.page_id) e ∙ k

pub free-IsVacant :
    (s : BufferPoolManager) (i : ℕ) (rest : List ℕ)
    → IsConsistent s
    → (p : Pops s.frames s.free_frames i rest)
    → IsVacant (record s { free_frames = rest }) i p.is_idle.frame
free-IsVacant s i rest c p = record {
  others = record {
    valid = c.valid;
    as_many = c.as_many;
    ids = c.ids;
    held = λ j f n e. c.held j f (λ x. x) e;
    mapped = λ q j e.
        let (n, (f, there, page)) = c.mapped q j e in
        (
          λ same.
              let at_i : get_elem? s.frames i ≡ some f = rw (← same) there in
              let no : none ≡ some q =
                same_page p.is_idle.frame f none (some q)
                  (same_frame s.frames i p.is_idle.frame f p.is_idle.is_there at_i)
                  p.is_idle.no_page page in
              cc,
          (f, there, page),
        );
    found = λ j f q n e h. c.found j f q (λ x. x) e h;
    idle = p.idle;
    once = p.once;
  };
  is_there = p.is_idle.is_there;
  unpinned = p.is_idle.unpinned;
  not_held = c.held i p.is_idle.frame (λ x. x) p.is_idle.is_there ∙ (rw p.is_idle.no_page);
  not_free = p.not_twice;
}

pub Lacks-AllIdle :
    (frames : List Frame) (i : ℕ) (f : Frame) (p : PageId) (l : List ℕ)
    → get_elem? frames i ≡ some f
    → f.page_id ≡ some p
    → AllIdle frames l
    → Lacks i l
Lacks-AllIdle frames i f p [] e h a = tt
Lacks-AllIdle frames i f p (j ∷ l) e h a = (
  λ same.
      let at_j : get_elem? frames j ≡ some f = rw (← same) e in
      let no : none ≡ some p =
        same_page a.0.frame f none (some p) (same_frame frames j a.0.frame f a.0.is_there at_j)
          a.0.no_page h in
      cc,
  Lacks-AllIdle frames i f p l e h a.1,
)

-- A frame that the evictor has holds a page that nobody has pinned.
pub evictable_lem :
    (f : Frame) → evictable f ≡ true → ((p : PageId) × (f.page_id ≡ some p)) × (f.pin_count ≡ 0)
evictable_lem f h = elim (Option-cases f.page_id) [
  | inl e ↦ let no : false ≡ true = rw e at h in cc
  | inr (p, e) ↦ ((p, e), (==_iff f.pin_count 0).0 (rw e at h))
]

-- The pool without the page of frame `i`.
abbrev pub without : BufferPoolManager → ClockEvictorState → PageId → BufferPoolManager
without s evictor p = record s { evictor = evictor; page_table = insert_key s.page_table p none }

module _ (s : BufferPoolManager) (evictor : ClockEvictorState) (i : ℕ) (f : Frame) (p : PageId)
    (c : IsConsistent s) (w : IsValid evictor) (was_held : Holds s.evictor i)
    (flags : evictor.is_in_evictor ≡ set s.evictor.is_in_evictor i false)
    (there : get_elem? s.frames i ≡ some f) (page : f.page_id ≡ some p)
    (unpinned : f.pin_count ≡ 0) where
  evicted_mapped :
      (q : PageId) (j : ℕ)
      → insert_key s.page_table p none q ≡ some j
      → ((j ≡ i) → ⊥) × ((g : Frame) × (get_elem? s.frames j ≡ some g) × (g.page_id ≡ some q))
  evicted_mapped q j e = elim (Bool-cases (page_id_eq p q)) [
    | inl same ↦ let no : none ≡ some j = rw same at e in cc
    | inr other ↦
        let (n, (g, at_j, page_j)) = c.mapped q j (rw other at e) in
        (
          λ here.
              let at_i : get_elem? s.frames i ≡ some g = rw (← here) at_j in
              let one : some p ≡ some q =
                same_page f g (some p) (some q) (same_frame s.frames i f g there at_i) page
                  page_j in
              let pq : p ≡ q = cc in
              let known : page_id_eq p q ≡ true = rw (← pq) (page_id_eq_refl p) in cc,
          (g, at_j, page_j),
        )
  ]

  evicted_found :
      (j : ℕ) (g : Frame) (q : PageId)
      → (j ≡ i → ⊥)
      → get_elem? s.frames j ≡ some g
      → g.page_id ≡ some q
      → insert_key s.page_table p none q ≡ some j
  evicted_found j g q n at_j page_j = elim (Bool-cases (page_id_eq p q)) [
    | inl same ↦
        let pq : p ≡ q = page_id_eq→eq p q same in
        let here : s.page_table p ≡ some i = c.found i f p (λ x. x) there page in
        let away : s.page_table q ≡ some j = c.found j g q (λ x. x) at_j page_j in
        let ji : j ≡ i = cc in absurd (n ji)
    | inr other ↦ rw other (c.found j g q (λ x. x) at_j page_j)
  ]

  pub evicted-IsVacant : IsVacant (without s evictor p) i f
  evicted-IsVacant = record {
    others = record {
      valid = w;
      as_many = ap length flags ∙ length-set s.evictor.is_in_evictor i false ∙ c.as_many;
      ids = c.ids;
      held = λ j g n e. rw flags (
          get_elem?-set_ne s.evictor.is_in_evictor i j false (λ e'. n (sym e'))
          ∙ c.held j g (λ x. x) e);
      mapped = evicted_mapped;
      found = evicted_found;
      idle = c.idle;
      once = c.once;
    };
    is_there = there;
    unpinned = unpinned;
    not_held = rw flags (
        get_elem?-set_self s.evictor.is_in_evictor i false
          (get_elem?-some s.evictor.is_in_evictor i was_held));
    not_free = Lacks-AllIdle s.frames i f p s.free_frames there page c.idle;
  }
