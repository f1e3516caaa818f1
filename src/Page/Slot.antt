-- ===== src/Page/Slot.antt =====
-- The write of one slot, and what is read after it.
use rarm_db.Base.{ℕ, ◌+◌, ◌≤◌, ◌<◌, ◌≡◌, refl, ◌∙◌, arith, ◌⊎◌}
use rarm_db.Page.Buffer.{Buffer, slice, u16_at}
use rarm_db.Page.Buffer.Laws.{
  put_u16, slice-put_u16_apart, u16_at-put_u16_apart, u16_at-put_u16_self,
}
use rarm_db.Page.Slotted.{slot_offset}
use rarm_db.Page.Shape.{record_offset, record_size}

-- The write of one slot.
abbrev pub reslot : Buffer → ℕ → ℕ → ℕ → Buffer
reslot c i off size = put_u16 (put_u16 c (slot_offset i) off) (slot_offset i + 2) size

module _ (c : Buffer) (i off size : ℕ) where
  pub reslot_offset : off < 65536 → record_offset (reslot c i off size) i ≡ off
  reslot_offset h =
      u16_at-put_u16_apart (put_u16 c (slot_offset i) off) (slot_offset i + 2) size (slot_offset i)
        (omega arith)
      ∙ u16_at-put_u16_self c (slot_offset i) off (slot_offset i) refl h

  pub reslot_size : size < 65536 → record_size (reslot c i off size) i ≡ size
  reslot_size h =
      u16_at-put_u16_self (put_u16 c (slot_offset i) off) (slot_offset i + 2) size
        (slot_offset i + 2) refl h

  pub reslot_word :
      (p : ℕ)
      → (p + 2 ≤ slot_offset i) ⊎ (slot_offset i + 4 ≤ p)
      → u16_at (reslot c i off size) p ≡ u16_at c p
  reslot_word p h =
      u16_at-put_u16_apart (put_u16 c (slot_offset i) off) (slot_offset i + 2) size p (omega arith)
      ∙ u16_at-put_u16_apart c (slot_offset i) off p (omega arith)

  pub slice-reslot :
      (p m : ℕ)
      → (p + m ≤ slot_offset i) ⊎ (slot_offset i + 4 ≤ p)
      → slice (reslot c i off size) p m ≡ slice c p m
  slice-reslot p m h =
      slice-put_u16_apart (put_u16 c (slot_offset i) off) (slot_offset i + 2) size p m (omega arith)
      ∙ slice-put_u16_apart c (slot_offset i) off p m (omega arith)
