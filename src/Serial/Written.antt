-- ===== src/Serial/Written.antt =====
-- The loop of `serialize` puts the values of a row where `Holds` says.
use Prim.Native.Nat.{bit_or}
use rarm_db.Base.{
  ℕ, ◌+◌, ◌*◌, ◌/◌, ◌%◌, ◌^◌, ◌≤◌, ◌<◌, ◌≡◌, refl, ◌∙◌, List, [], ◌∷◌, length, arith, inl, inr,
  to_le_bytes, length-to_le_bytes,
}
use rarm_db.Page.Buffer.{Buffer, overlay}
use rarm_db.Page.Buffer.Laws.{slice-overlay_apart, slice-overlay_self}
use rarm_db.Schema.DataType.{PrimitiveDataType, get_fixed_size}
use rarm_db.Schema.Column.{ColumnDefinition}
use rarm_db.Value.{Decimals, Value, null_value}
use rarm_db.Serial.{value}
use rarm_db.Serial.Write.{Cursor, write_column, write_columns}
use rarm_db.Serial.Bitmap.{with_null, bit_at-with_null_self, bit_at-with_null_ne}
use rarm_db.Serial.Cell.{Cell, absent, fixed, variable, FixedCell, VariableCell}
use rarm_db.Serial.Layout.{
  Row, fixed_width, variable_width, cell_lengths, fixed_total, variable_total, lengths, HoldsCell,
  Holds, IsClean, Fills, bit_at-overlay, overlay-IsClean, with_null-IsClean, later-IsClean, cursor,
  put_inside, set_null_inside,
}

module _ (d : Decimals) where
  -- One round of the loop.
  module _ (total nb : ℕ) where
    abbrev pub Round :
        {t : PrimitiveDataType} {v : Value d} → ℕ → ℕ → ℕ → Buffer → List ℕ → Cell d t v → Type 0
    Round {t = t} {v = v} i fo vo b l x =
        (b' : Buffer) × (write_column d total i (get_fixed_size t) v
            (cursor b fo vo (cell_lengths d x l))
          ≡ value (cursor b' (fo + fixed_width d x) (vo + variable_width d x) l))
        × IsClean b' nb (i + 1)
        × HoldsCell d b' i fo vo x
        × Fills b b' nb i fo (fixed_width d x) vo (variable_width d x)

    absent-Round :
        (t : PrimitiveDataType) (v : Value d) (i fo vo : ℕ) (b : Buffer) (l : List ℕ)
        (n : v ≡ null_value)
        → i < 8 * nb
        → nb ≤ total
        → IsClean b nb i
        → Round {t = t} {v = v} i fo vo b l (absent n)
    unfolding write_column
    absent-Round t v i fo vo b l n h1 h2 c =
        let fo' : fo + 0 ≡ fo = omega arith in
        let vo' : vo + 0 ≡ vo = omega arith in
        (
          with_null b i,
          rw (n, set_null_inside total b i (omega arith), fo', vo'),
          with_null-IsClean b nb i h1 c,
          bit_at-with_null_self b i (c.is_byte (i / 8) (omega arith)),
          record {
            bits = λ j k. bit_at-with_null_ne b i j (omega arith) (c.is_byte (i / 8) (omega arith));
            bytes = λ p m k k1 k2.
                slice-overlay_apart b (i / 8) (bit_or (b (i / 8)) (2 ^ (i % 8)) ∷ []) p m
                  (inr (omega arith));
          },
        )

    fixed-Round :
        (t : PrimitiveDataType) (v : Value d) (i fo vo : ℕ) (b : Buffer) (l : List ℕ)
        (x : FixedCell d t v)
        → i < 8 * nb
        → nb ≤ fo
        → fo + x.size ≤ total
        → IsClean b nb i
        → Round {t = t} {v = v} i fo vo b l (fixed x)
    fixed-Round t v i fo vo b l x h1 h2 h3 c =
        let vo' : vo + 0 ≡ vo = omega arith in
        let e : length x.bytes ≡ x.size = x.fills in
        (
          overlay b fo x.bytes,
          rw (
            x.has_size,
            x.writes total i (cursor b fo vo l),
            put_inside total b fo x.size x.bytes h3 e,
            vo',
          ),
          later-IsClean (overlay b fo x.bytes) nb i (overlay-IsClean b nb i fo x.bytes h2 c),
          (
            bit_at-overlay b nb i fo x.bytes h2 i h1 ∙ c.unset i (omega arith) h1,
            rw e at (slice-overlay_self b fo x.bytes),
          ),
          record {
            bits = λ j k. bit_at-overlay b nb i fo x.bytes h2 j (omega arith);
            bytes = λ p m k k1 k2. slice-overlay_apart b fo x.bytes p m (omega arith);
          },
        )

    variable-Round :
        (t : PrimitiveDataType) (v : Value d) (i fo vo : ℕ) (b : Buffer) (l : List ℕ)
        (x : VariableCell d t v)
        → i < 8 * nb
        → nb ≤ vo
        → vo + (4 + length x.bytes) ≤ total
        → IsClean b nb i
        → Round {t = t} {v = v} i fo vo b l (variable x)
    variable-Round t v i fo vo b l x h1 h2 h3 c =
        let fo' : fo + 0 ≡ fo = omega arith in
        let n = length x.bytes in
        let word = to_le_bytes 4 n in
        let e : length word ≡ 4 = length-to_le_bytes 4 n in
        let b1 = overlay b vo word in
        let b2 = overlay b1 (vo + 4) x.bytes in
        let short : length x.bytes % 2 ^ 32 ≡ length x.bytes = omega (arith, x.short) in
        (
          b2,
          rw (
            x.no_size,
            x.writes total i b fo vo n l,
            short,
            put_inside total b vo 4 word (omega arith) e,
            put_inside total b1 (vo + 4) n x.bytes (omega arith) refl,
            fo',
          ),
          later-IsClean b2 nb i (
              overlay-IsClean b1 nb i (vo + 4) x.bytes (omega arith)
                (overlay-IsClean b nb i vo word h2 c)),
          (
            bit_at-overlay b1 nb i (vo + 4) x.bytes (omega arith) i h1
                ∙ bit_at-overlay b nb i vo word h2 i h1
                ∙ c.unset i (omega arith) h1,
            slice-overlay_apart b1 (vo + 4) x.bytes vo 4 (inl (omega arith))
                ∙ (rw e at (slice-overlay_self b vo word)),
            slice-overlay_self b1 (vo + 4) x.bytes,
          ),
          record {
            bits = λ j k.
                bit_at-overlay b1 nb i (vo + 4) x.bytes (omega arith) j (omega arith)
                ∙ bit_at-overlay b nb i vo word h2 j (omega arith);
            bytes = λ p m k k1 k2.
                slice-overlay_apart b1 (vo + 4) x.bytes p m (omega arith)
                ∙ slice-overlay_apart b vo word p m (omega arith);
          },
        )

    round :
        {t : PrimitiveDataType} {v : Value d} (i fo vo : ℕ) (b : Buffer) (l : List ℕ)
        (x : Cell d t v)
        → i < 8 * nb
        → nb ≤ fo
        → fo + fixed_width d x ≤ vo
        → vo + variable_width d x ≤ total
        → IsClean b nb i
        → Round i fo vo b l x
    round {t} {v} i fo vo b l (absent n) h1 h2 h3 h4 c =
        absent-Round t v i fo vo b l n h1 (omega arith) c
    round {t} {v} i fo vo b l (fixed x) h1 h2 h3 h4 c =
        fixed-Round t v i fo vo b l x h1 h2 (omega arith) c
    round {t} {v} i fo vo b l (variable x) h1 h2 h3 h4 c =
        variable-Round t v i fo vo b l x h1 (omega arith) h4 c

    -- What a round and the rest of the loop do together.
    HoldsCell-later :
        {t : PrimitiveDataType} {v : Value d} (i fo vo : ℕ) (b b' : Buffer) (x : Cell d t v)
        (f f' : ℕ)
        → nb ≤ fo
        → fo + fixed_width d x + f ≤ vo
        → Fills b b' nb (i + 1) (fo + fixed_width d x) f (vo + variable_width d x) f'
        → HoldsCell d b i fo vo x
        → HoldsCell d b' i fo vo x
    HoldsCell-later i fo vo b b' (absent n) f f' h1 h2 later h = later.bits i (omega arith) ∙ h
    HoldsCell-later i fo vo b b' (fixed x) f f' h1 h2 later h = (
      later.bits i (omega arith) ∙ h.0,
      later.bytes fo x.size h1 (inl (omega arith)) (inl (omega arith)) ∙ h.1,
    )
    HoldsCell-later i fo vo b b' (variable x) f f' h1 h2 later h = (
      later.bits i (omega arith) ∙ h.0,
      later.bytes vo 4 (omega arith) (inr (omega arith)) (inl (omega arith)) ∙ h.1,
      later.bytes (vo + 4) (length x.bytes) (omega arith) (inr (omega arith)) (inl (omega arith))
          ∙ h.2,
    )

    Fills-trans :
        (i fo vo : ℕ) (b b1 b2 : Buffer) (f f' v v' : ℕ)
        → Fills b b1 nb i fo f vo v
        → Fills b1 b2 nb (i + 1) (fo + f) f' (vo + v) v'
        → Fills b b2 nb i fo (f + f') vo (v + v')
    Fills-trans i fo vo b b1 b2 f f' v v' first later = record {
      bits = λ j k. later.bits j (omega arith) ∙ first.bits j k;
      bytes = λ p m k k1 k2.
          later.bytes p m k (omega arith) (omega arith)
          ∙ first.bytes p m k (omega arith) (omega arith);
    }

    pub write_columns-Holds :
        (columns : List ColumnDefinition) (r : List (Value d)) (w : Row d columns r) (i fo vo : ℕ)
        (b : Buffer)
        → i + length columns ≤ 8 * nb
        → nb ≤ fo
        → fo + fixed_total d columns r w ≤ vo
        → vo + variable_total d columns r w ≤ total
        → IsClean b nb i
        → (s : Cursor) × (write_columns d total i columns r (cursor b fo vo (lengths d columns r w))
            ≡ value s)
          × Holds d s.bytes i fo vo columns r w
          × Fills b s.bytes nb i fo (fixed_total d columns r w) vo (variable_total d columns r w)
    unfolding write_columns
    write_columns-Holds [] [] w i fo vo b h1 h2 h3 h4 c =
        (cursor b fo vo [], refl, tt, record { bits = λ j h. refl; bytes = λ p m h k l. refl })
    write_columns-Holds [] (v ∷ r) w i fo vo b h1 h2 h3 h4 c = absurd w
    write_columns-Holds (col ∷ columns) [] w i fo vo b h1 h2 h3 h4 c = absurd w
    write_columns-Holds (col ∷ columns) (v ∷ r) (x, w) i fo vo b h1 h2 h3 h4 c =
        let f = fixed_width d x in
        let n = variable_width d x in
        let F = fixed_total d columns r w in
        let V = variable_total d columns r w in
        let (b', e, c', held, first) =
          round i fo vo b (lengths d columns r w) x (omega arith) h2 (omega arith) (omega arith)
            c in
        let (s, e', holds, later) =
          write_columns-Holds columns r w (i + 1) (fo + f) (vo + n) b' (omega arith) (omega arith)
            (omega arith) (omega arith) c' in
        (
          s,
          rw (e, e'),
          (HoldsCell-later i fo vo b' s.bytes x F V h2 (omega arith) later held, holds),
          Fills-trans i fo vo b b' s.bytes f F n V first later,
        )
