-- ===== src/Pool/Opened.antt =====
-- The frame that `available_frame` finds, when the evictor may have pinned frames.
use rarm_db.Base.{
  ℕ, ◌+◌, ◌^◌, ◌<◌, ◌≡◌, ◌≢◌, refl, ap, sym, ◌∙◌, List, none, some, Bool, true, false, inl, inr,
  arith, get_elem?, set, length, length-set, get_elem?-set_ne, get_elem?-some, get_elem?_lt,
  Returns, done, Bool-cases,
}
use native.Mathlib.Decide.{ℕ_discrete}
use native.Mathlib.Nat.{mod-eq_of_lt}
use rarm_db.Page.{PageId}
use rarm_db.Evictor.{ClockEvictorState, victim}
use rarm_db.Evictor.Invariant.{IsValid}
use rarm_db.Evictor.Sweep.{Evicts, victim-Evicts}
use rarm_db.Frame.{Frame}
use rarm_db.Pool.{
  BufferPoolManager, Available, page_id_eq, insert_key, pop, pin, evict_page, available_frame,
}
use rarm_db.Pool.Consistent.{pin-Pins, with_pin, later_pin, page_id_eq→eq, page_id_eq_refl}
use rarm_db.Pool.Vacant.{Pops, pop-Pops, same_frame, same_page, without, Lacks-AllIdle}
use rarm_db.Pool.Available.{without_none}
use rarm_db.Pool.Linked.{IsLinkedBut, IsLinked, IsOpen}

-- A pin of any frame: what it may do to the evictor.
pub pin_any :
    (s : BufferPoolManager) (i : ℕ) (f : Frame)
    → IsValid s.evictor
    → length s.evictor.is_in_evictor ≡ length s.frames
    → get_elem? s.frames i ≡ some f
    → f.id ≡ i
    → f.pin_count + 1 < 2 ^ 64
    → (evictor : ClockEvictorState) × (pin s i ≡ done (with_pin s i f evictor))
      × IsValid evictor
      × ((j : ℕ) → i ≢ j → get_elem? evictor.is_in_evictor j ≡ get_elem? s.evictor.is_in_evictor j)
      × (length evictor.is_in_evictor ≡ length s.evictor.is_in_evictor)
pin_any s i f v n e id h = elim (ℕ_discrete f.pin_count 0) [
  | yes z ↦
      let (evictor, (r, w, gone, flags, len)) = pin-Pins s i f v n e id h (inl z) in
      (evictor, r, w, flags, len)
  | no z ↦ (s.evictor, later_pin s i f e (mod-eq_of_lt h) z, v, λ j k. refl, refl)
]

pub IsLinkedBut-channels :
    (skip : ℕ → Type 0) (s : BufferPoolManager) (fetches flushes : PageId → Bool)
    → IsLinkedBut skip s
    → IsLinkedBut skip (record s { fetches = fetches; flushes = flushes })
IsLinkedBut-channels skip s fetches flushes c = record {
  valid = c.valid;
  as_many = c.as_many;
  ids = c.ids;
  has_page = c.has_page;
  mapped = c.mapped;
  found = c.found;
  idle = c.idle;
  once = c.once;
}

IsOpen-channels :
    (s : BufferPoolManager) (i : ℕ) (f : Frame) (flushes : PageId → Bool)
    → IsOpen s i f
    → IsOpen (record s { flushes = flushes }) i f
IsOpen-channels s i f flushes v = record {
  others = IsLinkedBut-channels (λ j. j ≡ i) s s.fetches flushes v.others;
  is_there = v.is_there;
  not_free = v.not_free;
}

free-IsOpen :
    (s : BufferPoolManager) (i : ℕ) (rest : List ℕ)
    → IsLinked s
    → (p : Pops s.frames s.free_frames i rest)
    → IsOpen (record s { free_frames = rest }) i p.is_idle.frame
free-IsOpen s i rest c p = record {
  others = record {
    valid = c.valid;
    as_many = c.as_many;
    ids = c.ids;
    has_page = c.has_page;
    mapped = λ q j e.
        let (n, (f, there, page)) = c.mapped q j e in
        (
          λ same.
              let at_i : get_elem? s.frames i ≡ some f = rw (← same) there in
              let no : none ≡ some q =
                same_page p.is_idle.frame f none (some q)
                  (same_frame s.frames i p.is_idle.frame f p.is_idle.is_there at_i)
                  p.is_idle.no_page page in
              cc,
          (f, there, page),
        );
    found = λ j f q n e h. c.found j f q (λ x. x) e h;
    idle = p.idle;
    once = p.once;
  };
  is_there = p.is_idle.is_there;
  not_free = p.not_twice;
}

module _ (s : BufferPoolManager) (evictor : ClockEvictorState) (i : ℕ) (f : Frame) (p : PageId)
    (c : IsLinked s) (w : IsValid evictor)
    (flags : evictor.is_in_evictor ≡ set s.evictor.is_in_evictor i false)
    (there : get_elem? s.frames i ≡ some f) (page : f.page_id ≡ some p) where
  taken_mapped :
      (q : PageId) (j : ℕ)
      → insert_key s.page_table p none q ≡ some j
      → ((j ≡ i) → ⊥) × ((g : Frame) × (get_elem? s.frames j ≡ some g) × (g.page_id ≡ some q))
  taken_mapped q j e = elim (Bool-cases (page_id_eq p q)) [
    | inl same ↦ let no : none ≡ some j = rw same at e in cc
    | inr other ↦
        let (n, (g, at_j, page_j)) = c.mapped q j (rw other at e) in
        (
          λ here.
              let at_i : get_elem? s.frames i ≡ some g = rw (← here) at_j in
              let one : some p ≡ some q =
                same_page f g (some p) (some q) (same_frame s.frames i f g there at_i) page
                  page_j in
              let pq : p ≡ q = cc in
              let known : page_id_eq p q ≡ true = rw (← pq) (page_id_eq_refl p) in cc,
          (g, at_j, page_j),
        )
  ]

  taken_found :
      (j : ℕ) (g : Frame) (q : PageId)
      → (j ≡ i → ⊥)
      → get_elem? s.frames j ≡ some g
      → g.page_id ≡ some q
      → insert_key s.page_table p none q ≡ some j
  taken_found j g q n at_j page_j = elim (Bool-cases (page_id_eq p q)) [
    | inl same ↦
        let pq : p ≡ q = page_id_eq→eq p q same in
        let here : s.page_table p ≡ some i = c.found i f p (λ x. x) there page in
        let away : s.page_table q ≡ some j = c.found j g q (λ x. x) at_j page_j in
        let ji : j ≡ i = cc in absurd (n ji)
    | inr other ↦ rw other (c.found j g q (λ x. x) at_j page_j)
  ]

  evicted-IsOpen : IsOpen (without s evictor p) i f
  evicted-IsOpen = record {
    others = record {
      valid = w;
      as_many = ap length flags ∙ length-set s.evictor.is_in_evictor i false ∙ c.as_many;
      ids = c.ids;
      has_page = λ j g e flag. elim (ℕ_discrete i j) [
        | yes r ↦
            let at_i : get_elem? s.frames i ≡ some g = rw r e in
            (p, ap (λ x. x.page_id) (sym (same_frame s.frames i f g there at_i)) ∙ page)
        | no r ↦ c.has_page j g e (
            sym (get_elem?-set_ne s.evictor.is_in_evictor i j false r)
            ∙ ap (λ l. get_elem? l j) (sym flags)
            ∙ flag)
      ];
      mapped = taken_mapped;
      found = taken_found;
      idle = c.idle;
      once = c.once;
    };
    is_there = there;
    not_free = Lacks-AllIdle s.frames i f p s.free_frames there page c.idle;
  }

-- What `available_frame` finds.
abbrev pub Offers : BufferPoolManager → BufferPoolManager × Available → Type 0
Offers s (s', none) = IsLinked s'
Offers s (s', some (i, to_flush)) =
    (f : Frame) × IsOpen s' i f
    × (s'.frames ≡ s.frames)
    × ((p : PageId) → s.page_table p ≡ none → s'.page_table p ≡ none)

module _ (s : BufferPoolManager) (c : IsLinked s) (no_free : pop s.free_frames ≡ none)
    (evictor : ClockEvictorState) where
  no_victim :
      victim s.evictor ≡ done (evictor, none)
      → Evicts s.evictor (evictor, none)
      → Returns (available_frame s) (Offers s)
  unfolding available_frame evict_page
  no_victim r h = (
    (record s { evictor = evictor }, none),
    rw (available_frame, no_free, r),
    record {
      valid = h.0;
      as_many = ap length h.1 ∙ c.as_many;
      ids = c.ids;
      has_page = λ i f e flag. c.has_page i f e (ap (λ l. get_elem? l i) (sym h.1) ∙ flag);
      mapped = c.mapped;
      found = c.found;
      idle = c.idle;
      once = c.once;
    },
  )

  a_victim :
      (i : ℕ)
      → victim s.evictor ≡ done (evictor, some i)
      → Evicts s.evictor (evictor, some i)
      → Returns (available_frame s) (Offers s)
  unfolding available_frame evict_page
  a_victim i r (w, was_held, flags, n) =
      let (f, there) =
        get_elem?_lt s.frames i
          (omega (arith, get_elem?-some s.evictor.is_in_evictor i was_held, c.as_many)) in
      let (p, page) = c.has_page i f there was_held in
      let v = evicted-IsOpen s evictor i f p c w flags there page in
      elim (Bool-cases f.is_dirty) [
        | inl h ↦ (
          (
            record (without s evictor p) { flushes = insert_key s.flushes p true },
            some (i, some (p, f.bytes)),
          ),
          rw (available_frame, no_free, r, there, page, h),
          (
            f,
            IsOpen-channels (without s evictor p) i f (insert_key s.flushes p true) v,
            refl,
            without_none s.page_table p,
          ),
        )
        | inr h ↦ (
          (without s evictor p, some (i, none)),
          rw (available_frame, no_free, r, there, page, h),
          (f, v, refl, without_none s.page_table p),
        )
      ]

pub available_frame-Offers :
    (s : BufferPoolManager) → IsLinked s → Returns (available_frame s) (Offers s)
unfolding available_frame
available_frame-Offers s c = elim (pop-Pops s.frames s.free_frames c.once c.idle) [
  | inl e ↦ evicting e (victim-Evicts s.evictor c.valid)
  | inr (i, rest, e, p) ↦ (
    (record s { free_frames = rest }, some (i, none)),
    rw (available_frame, e),
    (p.is_idle.frame, free-IsOpen s i rest c p, refl, λ q h. h),
  )
]
  where
    evicting :
        pop s.free_frames ≡ none
        → Returns (victim s.evictor) (Evicts s.evictor)
        → Returns (available_frame s) (Offers s)
    evicting e ((evictor, none), r, h) = no_victim s c e evictor r h
    evicting e ((evictor, some i), r, h) = a_victim s c e evictor i r h
