-- ===== src/Value/PrimaryKey.antt =====
-- crates/data_model/src/record.rs: `Record::get_primary_key`. A record and a key are the lists of
-- their values.
use rarm_db.Base.{
  ℕ, ◌+◌, List, [], ◌∷◌, Option, none, some, if◌then◌else◌, ltb, length, take, drop, ◌++◌,
  get_elem?, Outcome, done, panic, ◌>>=◌, unwrap,
}
use rarm_db.Schema.Text.{text_eq}
use rarm_db.Schema.Column.{ColumnDefinition}
use rarm_db.Schema.Constraint.{col_names}
use rarm_db.Schema.Table.{TableDefinition, get_primary_key}

-- `v.insert(i, x)`, which panics past the end.
abbrev pub insert_vec {ℓ} : {A : Type ℓ} → List A → ℕ → A → Outcome (List A)
insert_vec v i x = if ltb (length v) i then panic else done (take i v ++ (x ∷ drop i v))

-- The last index of a name in `pk_reverse_lookup`: later entries of the map replace earlier ones.
unfoldable pub reverse_lookup : List (List ℕ) → ℕ → List ℕ → Option ℕ
reverse_lookup [] i name = none
reverse_lookup (col ∷ pk_cols) i name = elim (reverse_lookup pk_cols (i + 1) name) [
  | some j ↦ some j
  | none ↦ if text_eq col name then some i else none
]

module _ {V : Type 0} where
  -- The loop over the columns from `i` on.
  unfoldable pub key_values :
      List ColumnDefinition → ℕ → List (List ℕ) → List V → List V → Outcome (List V)
  key_values [] i pk_cols r keys = done keys
  key_values (c ∷ columns) i pk_cols r keys = elim (reverse_lookup pk_cols 0 c.name) [
    | none ↦ key_values columns (i + 1) pk_cols r keys
    | some key_col_index ↦ unwrap (get_elem? r i) >>= λ v.
        insert_vec keys key_col_index v >>= λ keys'. key_values columns (i + 1) pk_cols r keys'
  ]

  abbrev pub key_of : TableDefinition → Option (List (List ℕ)) → List V → Outcome (List V)
  key_of t none r = done []
  key_of t (some pk_cols) r = key_values t.columns 0 pk_cols r []

  unfoldable pub get_primary_key_of : TableDefinition → List V → Outcome (List V)
  get_primary_key_of t r = do
    constraint ← unwrap (get_primary_key t)
    key_of t (col_names constraint) r
