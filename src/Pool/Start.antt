-- ===== src/Pool/Start.antt =====
-- A new pool is consistent.
use rarm_db.Base.{
  ℕ, zero, suc, ◌+◌, ◌<◌, ◌≤◌, ◌≡◌, refl, ap, sym, ◌∙◌, map, none, some, false, arith, get_elem?,
  length, length-replicate, get_elem?-replicate, get_elem?-some,
}
use rarm_db.Evictor.{new}
use rarm_db.Evictor.Invariant.{new-IsValid}
use rarm_db.Frame.{Frame, new_frame}
use rarm_db.Pool.{indices_from, new_pool}
use rarm_db.Pool.Consistent.{evictable, Lacks, IsDistinct, AllIdle, IsConsistent}

-- The frames of a new pool.
pub new_frame_at :
    (n a i : ℕ) (f : Frame)
    → get_elem? (map new_frame (indices_from a n)) i ≡ some f
    → f ≡ new_frame (a + i)
new_frame_at zero a i f e = cc
new_frame_at (suc n) a zero f e =
    let z : a + 0 ≡ a = omega arith in let same : new_frame a ≡ f = cc in rw z (sym same)
new_frame_at (suc n) a (suc i) f e =
    let z : suc a + i ≡ a + suc i = omega arith in new_frame_at n (suc a) i f e ∙ ap new_frame z

length-frames : (n a : ℕ) → length (map new_frame (indices_from a n)) ≡ n
length-frames zero a = refl
length-frames (suc n) a = ap suc (length-frames n (suc a))

new_frames_at :
    (n a i : ℕ) → i < n → get_elem? (map new_frame (indices_from a n)) i ≡ some (new_frame (a + i))
new_frames_at zero a i h = absurd (omega arith)
new_frames_at (suc n) a zero h = let z : a + 0 ≡ a = omega arith in rw z
new_frames_at (suc n) a (suc i) h =
    let z : suc a + i ≡ a + suc i = omega arith in
    new_frames_at n (suc a) i (omega arith) ∙ ap (λ x. some (new_frame x)) z

frames_idle :
    (n k a : ℕ) → a + k ≤ n → AllIdle (map new_frame (indices_from 0 n)) (indices_from a k)
unfolding new_frame
frames_idle n zero a h = tt
frames_idle n (suc k) a h = (
  record {
    frame = new_frame a;
    is_there =
        let z : 0 + a ≡ a = omega arith in
        new_frames_at n 0 a (omega arith) ∙ ap (λ x. some (new_frame x)) z;
    no_page = refl;
    unpinned = refl;
  },
  frames_idle n k (suc a) (omega arith),
)

Lacks-indices_from : (k a i : ℕ) → i < a → Lacks i (indices_from a k)
Lacks-indices_from zero a i h = tt
Lacks-indices_from (suc k) a i h = (omega arith, Lacks-indices_from k (suc a) i (omega arith))

IsDistinct-indices_from : (k a : ℕ) → IsDistinct (indices_from a k)
IsDistinct-indices_from zero a = tt
IsDistinct-indices_from (suc k) a =
    (Lacks-indices_from k (suc a) a (omega arith), IsDistinct-indices_from k (suc a))

-- A pool of at least one frame is consistent when it is made.
pub new_pool-IsConsistent : (n : ℕ) → 0 < n → IsConsistent (new_pool n)
unfolding new_pool new new_frame
new_pool-IsConsistent n h = record {
  valid = new-IsValid n h;
  as_many = length-replicate n false ∙ sym (length-frames n 0);
  ids = λ i f e. let z : 0 + i ≡ i = omega arith in ap (λ x. x.id) (new_frame_at n 0 i f e) ∙ z;
  held = λ i f x e.
      get_elem?-replicate n i false
        (rw (length-frames n 0) at (get_elem?-some (map new_frame (indices_from 0 n)) i e))
      ∙ ap (λ x. some (evictable x)) (sym (new_frame_at n 0 i f e));
  mapped = λ p i e. absurd (cc);
  found = λ i f p x e k.
      let no : none ≡ some p = sym (ap (λ x. x.page_id) (new_frame_at n 0 i f e)) ∙ k in
      absurd (cc);
  idle = frames_idle n n 0 (omega arith);
  once = IsDistinct-indices_from n 0;
}
