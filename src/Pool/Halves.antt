-- ===== src/Pool/Halves.antt =====
-- The two halves of the drop of a guard: the decrement of the pin count, and the addition to the
-- evictor.
use rarm_db.Base.{
  ℕ, ◌-◌, ◌<◌, ◌≡◌, refl, ap, ◌∙◌, some, arith, get_elem?, set, ◌==◌, if◌then◌else◌, Outcome, done,
  panic, ◌>>=◌, eq→==, ne→==,
}
use native.Mathlib.Decide.{ℕ_discrete}
use rarm_db.Evictor.{ClockEvictorState, add}
use rarm_db.Frame.{Frame, Pinned, decrement_pin_count, unpin_frame}
use rarm_db.Pool.{BufferPoolManager, with_frame, unpin, decrement, add_evictable}
use rarm_db.Pool.Steps.{pinned_once_less}

pub decrement_lem :
    (s : BufferPoolManager) (i : ℕ) (f : Frame)
    → get_elem? s.frames i ≡ some f
    → 0 < f.pin_count
    → decrement i s ≡ done (with_frame s i (pinned_once_less f), f.pin_count)
unfolding decrement decrement_pin_count
decrement_lem s i f e h = rw (e, ne→== f.pin_count 0 (omega arith))

-- What follows the decrement, by the count before it.
abbrev pub second_half : ℕ → BufferPoolManager × ℕ → Outcome BufferPoolManager
second_half i (s, prev_count) = if prev_count == 1 then add_evictable i s else done s

-- The two halves in a row, the second one for the last pin, are the drop as a whole.
pub unpin-halves :
    (s : BufferPoolManager) (i : ℕ) (f : Frame)
    → get_elem? s.frames i ≡ some f
    → f.id ≡ i
    → 0 < f.pin_count
    → unpin s i ≡ (decrement i s >>= second_half i)
unfolding unpin unpin_frame decrement decrement_pin_count add_evictable
unpin-halves s i f e id h = elim (ℕ_discrete f.pin_count 1) [
  | yes z ↦
      rw (e, ne→== f.pin_count 0 (omega arith), eq→== f.pin_count 1 z, id)
        (joined (record f { id = i; pin_count = f.pin_count - 1 }) (add s.evictor i))
  | no n ↦ rw (e, ne→== f.pin_count 0 (omega arith), ne→== f.pin_count 1 n)
]
  where
    joined :
        (g : Frame) (m : Outcome ClockEvictorState)
        → (m >>= (λ evictor. done (record { frame = g; evictor = evictor })) >>= λ (x : Pinned).
            done (record s { frames = set s.frames i x.frame; evictor = x.evictor }))
          ≡ (m >>= λ evictor. done (record (with_frame s i g) { evictor = evictor }))
    joined g panic = refl
    joined g (done evictor) = refl

pub dropped :
    (s : BufferPoolManager) (i : ℕ) (f : Frame) {t s' : BufferPoolManager} {n : ℕ}
    → get_elem? s.frames i ≡ some f
    → f.id ≡ i
    → 0 < f.pin_count
    → decrement i s ≡ done (t, n)
    → second_half i (t, n) ≡ done s'
    → unpin s i ≡ done s'
dropped s i f e id h first second =
    unpin-halves s i f e id h ∙ ap (λ m. m >>= second_half i) first ∙ second
