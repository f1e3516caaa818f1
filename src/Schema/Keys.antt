-- ===== src/Schema/Keys.antt =====
-- What the constraints of a table promise: the checks of their constructors, and the columns of the
-- primary key.
use rarm_db.Base.{
  ℕ, List, [], ◌∷◌, some, Bool, true, false, not, ◌==◌, length, map, ◌≡◌, ◌≢◌, ◌↔◌, refl, sym, ◌⊎◌,
  inl, inr, arith, done, Bool-cases, eq→==,
}
use rarm_db.Schema.{SchemaError, SchemaResult, ok, err, reject_if, ◌>>◌, ReferentialAction}
use rarm_db.Schema.Text.{is_blank, is_empty, text_eq, text_eq→eq, text_eq_refl}
use rarm_db.Schema.Column.{ColumnDefinition}
use rarm_db.Schema.Constraint.{
  Constraint, primary, unique, foreign, validate_each, validate_columns, validate_key, primary_key,
  unique_key, foreign_key,
}
use rarm_db.Schema.Table.{
  TableDefinition, find_column, get_primary_key, columns_of, get_primary_key_columns,
}

-- Every name has a character that is not whitespace.
abbrev pub AllNamed : List (List ℕ) → Type 0
AllNamed [] = Unit
AllNamed (name ∷ names) = (is_blank name ≡ false) × AllNamed names

-- A list of names of columns that a key may have.
abbrev pub NamesColumns : List (List ℕ) → Type 0
NamesColumns names = (names ≢ []) × AllNamed names

-- A check that passed, and the rest.
rejects_not {ℓ} :
    {A : Type ℓ} (b : Bool) (e : SchemaError) (m : SchemaResult A) (a : A)
    → (reject_if b e >> m) ≡ ok a
    → (b ≡ false) × (m ≡ ok a)
rejects_not true e m a h = cc
rejects_not false e m a h = (refl, h)

then_ok {ℓ} :
    {A : Type ℓ} (r : SchemaResult (Unit {0})) (m : SchemaResult A) (a : A)
    → (r >> m) ≡ ok a
    → (r ≡ ok tt) × (m ≡ ok a)
then_ok (ok x) m a h = (refl, h)
then_ok (err e) m a h = cc

ok_injective {ℓ} : {A : Type ℓ} (a b : A) → ok a ≡ ok b → a ≡ b
ok_injective a b h = cc

validate_each-AllNamed : (names : List (List ℕ)) → (validate_each names ≡ ok tt) ↔ AllNamed names
unfolding validate_each
validate_each-AllNamed [] = (λ h. tt, λ h. refl)
validate_each-AllNamed (name ∷ names) =
    let ih = validate_each-AllNamed names in
    (
      λ h.
          let (p, q) =
            rejects_not (is_blank name) SchemaError.invalid_column_name (validate_each names) tt
              h in
          (p, ih.0 q),
      λ h. rw h.0 (ih.1 h.1),
    )

validate_columns-NamesColumns :
    (names : List (List ℕ)) → (validate_columns names ≡ ok tt) ↔ NamesColumns names
unfolding validate_columns
validate_columns-NamesColumns [] = (λ h. cc, λ h. absurd (h.0 refl))
validate_columns-NamesColumns (name ∷ names) =
    let each = validate_each-AllNamed (name ∷ names) in (λ h. (λ e. cc, each.0 h), λ h. each.1 h.1)

validate_key_iff :
    (name : List ℕ) (names : List (List ℕ))
    → (validate_key name names ≡ ok tt) ↔ ((is_blank name ≡ false) × NamesColumns names)
unfolding validate_key
validate_key_iff name names =
    let cols = validate_columns-NamesColumns names in
    (
      λ h.
          let (p, q) =
            rejects_not (is_blank name) SchemaError.invalid_key_name (validate_columns names) tt
              h in
          (p, cols.0 q),
      λ h. rw h.0 (cols.1 h.1),
    )

primary_key_iff :
    (name : List ℕ) (names : List (List ℕ)) (c : Constraint)
    → (primary_key name names ≡ ok c)
      ↔ ((c ≡ primary name names) × (is_blank name ≡ false) × NamesColumns names)
unfolding primary_key
primary_key_iff name names c =
    let valid = validate_key_iff name names in
    (
      λ h.
          let (p, q) = then_ok (validate_key name names) (ok (primary name names)) c h in
          (sym (ok_injective (primary name names) c q), (valid.0 p).0, (valid.0 p).1),
      λ h. rw (h.0, valid.1 (h.1, h.2)),
    )

unique_key_iff :
    (name : List ℕ) (names : List (List ℕ)) (c : Constraint)
    → (unique_key name names ≡ ok c)
      ↔ ((c ≡ unique name names) × (is_blank name ≡ false) × NamesColumns names)
unfolding unique_key
unique_key_iff name names c =
    let valid = validate_key_iff name names in
    (
      λ h.
          let (p, q) = then_ok (validate_key name names) (ok (unique name names)) c h in
          (sym (ok_injective (unique name names) c q), (valid.0 p).0, (valid.0 p).1),
      λ h. rw (h.0, valid.1 (h.1, h.2)),
    )

-- `primary_key` and `unique_key` return a constraint just when the name and each name of a column
-- have a character that is not whitespace and there is a column; it has that name and those
-- columns.
pub keys_iff :
    (name : List ℕ) (names : List (List ℕ)) (c : Constraint)
    → ((primary_key name names ≡ ok c)
        ↔ ((c ≡ primary name names) × (is_blank name ≡ false) × NamesColumns names))
      × ((unique_key name names ≡ ok c)
          ↔ ((c ≡ unique name names) × (is_blank name ≡ false) × NamesColumns names))
keys_iff name names c = (primary_key_iff name names c, unique_key_iff name names c)

is_not_empty : (names : List (List ℕ)) → names ≢ [] → is_empty names ≡ false
is_not_empty [] n = absurd (n refl)
is_not_empty (x ∷ xs) n = refl

module _ (name : List ℕ) (referencing : List (List ℕ)) (table : List ℕ) (referenced : List (List ℕ))
    (on_update on_delete : ReferentialAction) (c : Constraint) where
  abbrev pub IsForeignKey : Type 0
  IsForeignKey =
      (c ≡ foreign name on_update on_delete referencing table referenced)
      × (is_blank name ≡ false)
      × (is_blank table ≡ false)
      × NamesColumns referenced
      × NamesColumns referencing
      × (length referenced ≡ length referencing)

  foreign_key-ok :
      foreign_key name referencing table referenced on_update on_delete ≡ ok c → IsForeignKey
  unfolding foreign_key
  foreign_key-ok h =
      let (p1, h1) = rejects_not (is_blank name) _ _ c h in
      let (p2, h2) = rejects_not (is_blank table) _ _ c h1 in
      let (p3, h3) = rejects_not (is_empty referenced) _ _ c h2 in
      let (p4, h4) = rejects_not (is_empty referencing) _ _ c h3 in
      let (p5, h5) = then_ok (validate_columns referenced) _ c h4 in
      let (p6, h6) = then_ok (validate_columns referencing) _ c h5 in
      let (p7, h7) = rejects_not (not (length referenced == length referencing)) _ _ c h6 in
      (
        sym (ok_injective (foreign name on_update on_delete referencing table referenced) c h7),
        p1,
        p2,
        (validate_columns-NamesColumns referenced).0 p5,
        (validate_columns-NamesColumns referencing).0 p6,
        ground arith,
      )

  ok-foreign_key :
      IsForeignKey → foreign_key name referencing table referenced on_update on_delete ≡ ok c
  unfolding foreign_key
  ok-foreign_key (e, p1, p2, p3, p4, p5) = rw (
    p1,
    p2,
    is_not_empty referenced p3.0,
    is_not_empty referencing p4.0,
    (validate_columns-NamesColumns referenced).1 p3,
    (validate_columns-NamesColumns referencing).1 p4,
    eq→== (length referenced) (length referencing) p5,
    e,
  )

  -- `foreign_key` returns a constraint just when both names are not blank, both lists of columns
  -- have names and no blank one, and they are equally long; the constraint has the arguments at
  -- the places that their names say.
  pub foreign_key_iff :
      (foreign_key name referencing table referenced on_update on_delete ≡ ok c) ↔ IsForeignKey
  foreign_key_iff = (foreign_key-ok, ok-foreign_key)

-- One of the columns.
abbrev pub IsAmong : {A : Type 0} → A → List A → Type 0
IsAmong x [] = ⊥
IsAmong x (y ∷ ys) = (x ≡ y) ⊎ IsAmong x ys

-- The columns of the names, in their order.
abbrev pub Named : List ColumnDefinition → List (List ℕ) → List ColumnDefinition → Type 0
Named columns [] [] = Unit
Named columns (name ∷ names) (c ∷ cols) =
    (c.name ≡ name) × IsAmong c columns × Named columns names cols
Named columns names cols = ⊥

-- Each name is the name of a column.
abbrev pub AllKnown : List ColumnDefinition → List (List ℕ) → Type 0
AllKnown columns [] = Unit
AllKnown columns (name ∷ names) = IsAmong name (map (λ c. c.name) columns) × AllKnown columns names

find_column-IsAmong :
    (columns : List ColumnDefinition) (name : List ℕ)
    → IsAmong name (map (λ c. c.name) columns)
    → (c : ColumnDefinition) × (find_column columns name ≡ some c)
      × (c.name ≡ name)
      × IsAmong c columns
find_column-IsAmong [] name h = absurd h
find_column-IsAmong (c ∷ columns) name h = elim (Bool-cases (text_eq c.name name)) [
  | inl e ↦ (c, rw e, text_eq→eq c.name name e, inl refl)
  | inr e ↦
      let (c', f, n, m) = find_column-IsAmong columns name (later h e) in (c', rw e f, n, inr m)
]
  where
    later :
        IsAmong name (map (λ c. c.name) (c ∷ columns))
        → text_eq c.name name ≡ false
        → IsAmong name (map (λ c. c.name) columns)
    later (inl p) e = let known : text_eq c.name name ≡ true = rw p (text_eq_refl c.name) in cc
    later (inr m) e = m

columns_of-Named :
    (columns : List ColumnDefinition) (names : List (List ℕ))
    → AllKnown columns names
    → (cols : List ColumnDefinition) × (columns_of columns names ≡ done cols)
      × Named columns names cols
unfolding columns_of
columns_of-Named columns [] h = ([], refl, tt)
columns_of-Named columns (name ∷ names) h =
    let (c, f, n, m) = find_column-IsAmong columns name h.0 in
    let (cols, e, rest) = columns_of-Named columns names h.1 in (c ∷ cols, rw (f, e), (n, m, rest))

-- For a table with a primary key whose column names are all names of columns of the table:
-- `get_primary_key_columns` does not panic and returns columns of the table with the names of the
-- key, in the order of the key.
pub get_primary_key_columns-Named :
    (t : TableDefinition) (name : List ℕ) (names : List (List ℕ))
    → get_primary_key t ≡ some (primary name names)
    → AllKnown t.columns names
    → (cols : List ColumnDefinition) × (get_primary_key_columns t ≡ done (some cols))
      × Named t.columns names cols
unfolding get_primary_key_columns
get_primary_key_columns-Named t name names h k =
    let (cols, e, named) = columns_of-Named t.columns names k in (cols, rw (h, e), named)
