-- ===== src/Page/Buffer/Laws.antt =====
-- Reads after writes.
use mathlib.Core.Path.{ap₂, fun_ext}
use rarm_db.Base.{
  ℕ, zero, suc, ◌+◌, ◌-◌, ◌≤◌, ◌<◌, ◌≡◌, refl, ap, ◌∙◌, List, [], ◌∷◌, arith, length, get_or, ◌⊎◌,
  from_le_bytes, to_le_bytes, from_le_bytes-to_le_bytes_2, length-to_le_bytes,
}
use rarm_db.Page.Buffer.{Buffer, slice, overlay, move, zeroed, u16_at}

pub length-slice : (b : Buffer) (off n : ℕ) → length (slice b off n) ≡ n
unfolding slice
length-slice b off zero = refl
length-slice b off (suc n) = ap suc (length-slice b (off + 1) n)

-- Two buffers that agree on a range have the same slice there.
pub slice-cong :
    (b c : Buffer) (p q n : ℕ)
    → ((k : ℕ) → k < n → b (p + k) ≡ c (q + k))
    → slice b p n ≡ slice c q n
unfolding slice
slice-cong b c p q zero h = refl
slice-cong b c p q (suc n) h =
    ap₂ ◌∷◌ (ground (arith, h 0 (omega arith)))
      (slice-cong b c (p + 1) (q + 1) n (λ k hk. ground (arith, h (k + 1) (omega arith))))

module _ (b : Buffer) (off : ℕ) (bytes : List ℕ) where
  pub overlay_outside : (i : ℕ) → (i < off) ⊎ (off + length bytes ≤ i) → overlay b off bytes i ≡ b i
  unfolding overlay
  overlay_outside i h = ground arith

  pub overlay_inside :
      (i : ℕ) → off ≤ i → i < off + length bytes → overlay b off bytes i ≡ get_or bytes (i - off) 0
  unfolding overlay
  overlay_inside i h k = ground arith

  -- A write does not show in a range apart from its own.
  pub slice-overlay_apart :
      (p n : ℕ)
      → (p + n ≤ off) ⊎ (off + length bytes ≤ p)
      → slice (overlay b off bytes) p n ≡ slice b p n
  slice-overlay_apart p n h =
      slice-cong (overlay b off bytes) b p p n (λ k hk. overlay_outside (p + k) (omega arith))

-- A list read back from where it lies.
slice_at :
    (b : Buffer) (off : ℕ) (bytes : List ℕ)
    → ((k : ℕ) → k < length bytes → b (off + k) ≡ get_or bytes k 0)
    → slice b off (length bytes) ≡ bytes
unfolding slice
slice_at b off [] h = refl
slice_at b off (x ∷ bytes) h =
    ap₂ ◌∷◌ (ground (arith, h 0 (omega arith)))
      (slice_at b (off + 1) bytes (λ k hk. ground (arith, h (suc k) (omega arith))))

-- A write is read back.
pub slice-overlay_self :
    (b : Buffer) (off : ℕ) (bytes : List ℕ) → slice (overlay b off bytes) off (length bytes) ≡ bytes
slice-overlay_self b off bytes = slice_at (overlay b off bytes) off bytes (λ k hk.
    let e : off + k - off ≡ k = omega arith in
    overlay_inside b off bytes (off + k) (omega arith) (omega arith) ∙ ap (λ t. get_or bytes t 0) e)

module _ (b : Buffer) (src n dst : ℕ) where
  move_outside : (i : ℕ) → (i < dst) ⊎ (dst + n ≤ i) → move b src n dst i ≡ b i
  unfolding move
  move_outside i h = ground arith

  move_inside : (i k : ℕ) → i ≡ dst + k → k < n → move b src n dst i ≡ b (src + k)
  unfolding move
  move_inside i k e h = ground arith

  pub slice-move_apart :
      (p m : ℕ) → (p + m ≤ dst) ⊎ (dst + n ≤ p) → slice (move b src n dst) p m ≡ slice b p m
  slice-move_apart p m h =
      slice-cong (move b src n dst) b p p m (λ k hk. move_outside (p + k) (omega arith))

  pub slice-move_inside :
      (p q m d : ℕ)
      → p ≡ dst + d
      → q ≡ src + d
      → d + m ≤ n
      → slice (move b src n dst) p m ≡ slice b q m
  slice-move_inside p q m d e f h =
      slice-cong (move b src n dst) b p q m
        (λ k hk. ground (arith, move_inside (p + k) (d + k) (omega arith) (omega arith)))

pub slice-zeroed_apart :
    (b : Buffer) (off n p m : ℕ)
    → (p + m ≤ off) ⊎ (off + n ≤ p)
    → slice (zeroed b off n) p m ≡ slice b p m
unfolding zeroed
slice-zeroed_apart b off n p m h =
    slice-cong (zeroed b off n) b p p m (λ k hk. zeroed_outside (p + k) (omega arith))
  where
    zeroed_outside : (i : ℕ) → (i < off) ⊎ (off + n ≤ i) → zeroed b off n i ≡ b i
    zeroed_outside i h' = ground arith

-- The same, for the words of two bytes.
pub u16_at-overlay_apart :
    (b : Buffer) (off : ℕ) (bytes : List ℕ) (p : ℕ)
    → (p + 2 ≤ off) ⊎ (off + length bytes ≤ p)
    → u16_at (overlay b off bytes) p ≡ u16_at b p
u16_at-overlay_apart b off bytes p h =
    unfold u16_at in ap from_le_bytes (slice-overlay_apart b off bytes p 2 h)

pub u16_at-overlay_self :
    (b : Buffer) (off v : ℕ) → v < 65536 → u16_at (overlay b off (to_le_bytes 2 v)) off ≡ v
u16_at-overlay_self b off v h =
    unfold u16_at in
    ap from_le_bytes (rw (length-to_le_bytes 2 v) at (slice-overlay_self b off (to_le_bytes 2 v)))
    ∙ from_le_bytes-to_le_bytes_2 v h

pub u16_at-move_apart :
    (b : Buffer) (src n dst p : ℕ)
    → (p + 2 ≤ dst) ⊎ (dst + n ≤ p)
    → u16_at (move b src n dst) p ≡ u16_at b p
u16_at-move_apart b src n dst p h =
    unfold u16_at in ap from_le_bytes (slice-move_apart b src n dst p 2 h)

pub u16_at-move_inside :
    (b : Buffer) (src n dst p q d : ℕ)
    → p ≡ dst + d
    → q ≡ src + d
    → d + 2 ≤ n
    → u16_at (move b src n dst) p ≡ u16_at b q
u16_at-move_inside b src n dst p q d e f h =
    unfold u16_at in ap from_le_bytes (slice-move_inside b src n dst p q 2 d e f h)

pub u16_at-zeroed_apart :
    (b : Buffer) (off n p : ℕ)
    → (p + 2 ≤ off) ⊎ (off + n ≤ p)
    → u16_at (zeroed b off n) p ≡ u16_at b p
u16_at-zeroed_apart b off n p h =
    unfold u16_at in ap from_le_bytes (slice-zeroed_apart b off n p 2 h)

-- The same, for the write of a word of two bytes.
abbrev pub put_u16 : Buffer → ℕ → ℕ → Buffer
put_u16 b off v = overlay b off (to_le_bytes 2 v)

pub slice-put_u16_apart :
    (b : Buffer) (off v p n : ℕ)
    → (p + n ≤ off) ⊎ (off + 2 ≤ p)
    → slice (put_u16 b off v) p n ≡ slice b p n
slice-put_u16_apart b off v p n h =
    slice-overlay_apart b off (to_le_bytes 2 v) p n (omega (arith, length-to_le_bytes 2 v))

pub u16_at-put_u16_apart :
    (b : Buffer) (off v p : ℕ)
    → (p + 2 ≤ off) ⊎ (off + 2 ≤ p)
    → u16_at (put_u16 b off v) p ≡ u16_at b p
u16_at-put_u16_apart b off v p h =
    u16_at-overlay_apart b off (to_le_bytes 2 v) p (omega (arith, length-to_le_bytes 2 v))

pub u16_at-put_u16_self :
    (b : Buffer) (off v p : ℕ) → p ≡ off → v < 65536 → u16_at (put_u16 b off v) p ≡ v
u16_at-put_u16_self b off v p e h = rw e (u16_at-overlay_self b off v h)

-- Moving no bytes changes nothing.
pub move-zero : (b : Buffer) (src dst : ℕ) → move b src 0 dst ≡ b
move-zero b src dst = fun_ext λ i. move_outside b src 0 dst i (omega arith)
