-- ===== src/Frame/Pinning.antt =====
-- Pinning and unpinning keep the evictor in step with the pin count.
use rarm_db.Base.{
  ℕ, ◌+◌, ◌-◌, ◌%◌, ◌^◌, ◌<◌, ◌≡◌, ◌≢◌, refl, some, get_elem?, get_elem?-some, ◌==◌, arith, eq→==,
  ne→==, Returns,
}
use native.Mathlib.Decide.{ℕ_discrete}
use native.Mathlib.Nat.{mod-eq_of_lt}
use rarm_db.Evictor.Invariant.{IsValid, SameFrame, add-IsValid, remove-IsValid}
use rarm_db.Frame.{Frame, Pinned, increment_pin_count, decrement_pin_count, pin_frame, unpin_frame}

-- The evictor is well formed, and it holds the frame when its pin count is zero and only then.
pub record InStep (s : Pinned) : Type 0 where
  pub valid : IsValid s.evictor
  pub held : get_elem? s.evictor.is_in_evictor s.frame.id ≡ some (s.frame.pin_count == 0)

-- The frame with another pin count.
abbrev with_count : Frame → ℕ → Frame
with_count f n = record f { pin_count = n }

-- The other frames are in the evictor, and have their second chances, as before.
abbrev pub OthersSame : Pinned → Pinned → Type 0
OthersSame s s' = (g : ℕ) → s.frame.id ≢ g → SameFrame s.evictor s'.evictor g

-- When the evictor is in step with the frame, a pin leaves it so: the count is one more, and a
-- frame that was not pinned is taken out of the evictor. Other frames are in it, and have their
-- second chances, as before.
pub pin_frame-InStep :
    (s : Pinned)
    → InStep s
    → s.frame.pin_count + 1 < 2 ^ 64
    → Returns
        (pin_frame s)
        (λ s'. InStep s' × (s'.frame.pin_count ≡ s.frame.pin_count + 1) × OthersSame s s')
unfolding pin_frame increment_pin_count
pin_frame-InStep s v h =
    let pins = s.frame.pin_count in
    let more = with_count s.frame (pins + 1) in
    let no_wrap : (pins + 1) % 2 ^ 64 ≡ pins + 1 = mod-eq_of_lt h in
    let now_pinned = ne→== (pins + 1) 0 (omega arith) in
    elim (ℕ_discrete pins 0) [
      | yes e ↦
          let (evictor, r, (w, gone, chances, others)) =
            remove-IsValid s.evictor s.frame.id v.valid
              (get_elem?-some s.evictor.is_in_evictor s.frame.id v.held) in
          (
            record { frame = more; evictor = evictor },
            rw (eq→== pins 0 e, r, no_wrap) refl,
            (record { valid = w; held = rw now_pinned gone }, refl, others),
          )
      | no n ↦
          let was_pinned = ne→== pins 0 n in
          (
            record { frame = more; evictor = s.evictor },
            rw (was_pinned, no_wrap) refl,
            (
              record { valid = v.valid; held = rw now_pinned (rw was_pinned at v.held) },
              refl,
              λ g k. (refl, refl),
            ),
          )
    ]

-- When the evictor is in step with a pinned frame, `unpin_frame` leaves it so: the count is one
-- less, and a frame that was pinned once goes to the evictor. Other frames are in it, and have their
-- second chances, as before.
pub unpin_frame-InStep :
    (s : Pinned)
    → InStep s
    → 0 < s.frame.pin_count
    → Returns
        (unpin_frame s)
        (λ s'. InStep s' × (s'.frame.pin_count + 1 ≡ s.frame.pin_count) × OthersSame s s')
unfolding unpin_frame decrement_pin_count
unpin_frame-InStep s v h =
    let pins = s.frame.pin_count in
    let fewer = with_count s.frame (pins - 1) in
    let was_pinned = ne→== pins 0 (omega arith) in
    elim (ℕ_discrete pins 1) [
      | yes e ↦
          let (evictor, r, (w, there, chance, others)) =
            add-IsValid s.evictor s.frame.id v.valid
              (get_elem?-some s.evictor.is_in_evictor s.frame.id v.held) in
          (
            record { frame = fewer; evictor = evictor },
            rw (was_pinned, eq→== pins 1 e, r) refl,
            (
              record { valid = w; held = rw (eq→== (pins - 1) 0 (omega arith)) there },
              omega arith,
              others,
            ),
          )
      | no n ↦ (
        record { frame = fewer; evictor = s.evictor },
        rw (was_pinned, ne→== pins 1 n) refl,
        (
          record {
            valid = v.valid;
            held = rw (ne→== (pins - 1) 0 (omega arith)) (rw was_pinned at v.held);
          },
          omega arith,
          λ g k. (refl, refl),
        ),
      )
    ]
