-- ===== src/Executor/Keys.antt =====
-- INSERT without the primary key: the check for NULL comes before a key is generated.
use nexus_db_main.Common.{
  Bool-cases, ℕ, zero, suc, List, [], ◌∷◌, Bytes, true, false, ◌&&◌, none, some, length, set,
  is_empty, All, ◌==◌, ◌≡◌, ◌≢◌, refl, ap, sym, ◌∙◌, subst, Option-cases, inl, inr,
}
use nexus_db_main.Text.Order.{str_eq-false}
use nexus_db_main.Types.{Value}
use nexus_db_main.Types.Floats.{Floats}
use nexus_db_main.Schema.{TableSchema, ColumnDef, find_column}
use nexus_db_main.Schema.Columns.{FirstNamed, Found, find_column_lem}
use nexus_db_main.Engine.{Answers}
use nexus_db_main.Catalog.{Catalog}
use nexus_db_main.SqlParser.Syntax.{InsertStmt}
use nexus_db_main.Executor.Insert.{
  quoted, QueryResult, quoted, is_error, error, Filled, Step, next, stop, null_row, fill,
  fill_columns, null_violation, insert_row, checked, count_mismatch,
}

-- The column at the index must not be NULL.
abbrev pub IsRequiredAt : List ColumnDef → ℕ → Type 0
IsRequiredAt [] i = ⊥
IsRequiredAt (col ∷ cols) zero = col.not_null ≡ true
IsRequiredAt (col ∷ cols) (suc i) = IsRequiredAt cols i

abbrev IsNullAt : List Value → ℕ → Type 0
IsNullAt [] i = ⊥
IsNullAt (v ∷ values) zero = v.is_null ≡ true
IsNullAt (v ∷ values) (suc i) = IsNullAt values i

set-IsNullAt :
    (values : List Value) (i j : ℕ) (v : Value)
    → j ≢ i
    → IsNullAt values i
    → IsNullAt (set values j v) i
set-IsNullAt [] i j v h n = n
set-IsNullAt (x ∷ values) zero zero v h n = absurd (h refl)
set-IsNullAt (x ∷ values) zero (suc j) v h n = n
set-IsNullAt (x ∷ values) (suc i) zero v h n = n
set-IsNullAt (x ∷ values) (suc i) (suc j) v h n = set-IsNullAt values i j v (λ e. h (ap suc e)) n

null_row-IsNullAt :
    (cols : List ColumnDef) (i : ℕ) → IsRequiredAt cols i → IsNullAt (null_row cols) i
unfolding null_row
null_row-IsNullAt [] i h = h
null_row-IsNullAt (col ∷ cols) zero h = refl
null_row-IsNullAt (col ∷ cols) (suc i) h = null_row-IsNullAt cols i h

-- The names of the columns that two searches find at one index are the same.
found_same :
    (schema : TableSchema) (a b : Bytes) (i : ℕ)
    → find_column schema a ≡ some i
    → find_column schema b ≡ some i
    → a ≡ b
found_same schema a b i e f =
    let x : FirstNamed a schema.columns i =
      subst (Found a schema.columns) e (find_column_lem schema a) in
    let y : FirstNamed b schema.columns i =
      subst (Found b schema.columns) f (find_column_lem schema b) in
    let same : x.column ≡ y.column = cc (x.at_index, y.at_index) in
    sym x.named ∙ (ap (λ (c : ColumnDef). c.name) same ∙ y.named)

null_violation_found :
    (cols : List ColumnDef) (values : List Value) (i : ℕ)
    → IsRequiredAt cols i
    → IsNullAt values i
    → (name : Bytes) × (null_violation cols values ≡ some name)
unfolding null_violation
null_violation_found [] values i h n = elim h [ ]
null_violation_found (c ∷ cols) [] i h n = elim n [ ]
null_violation_found (c ∷ cols) (v ∷ values) zero h n = (c.name, rw (h, n) refl)
null_violation_found (c ∷ cols) (v ∷ values) (suc i) h n =
    elim (Bool-cases (c.not_null && v.is_null)) [
      | inl e ↦ (c.name, rw e refl)
      | inr e ↦ rw (e, null_violation) (null_violation_found cols values i h n)
    ]

abbrev IsOther : Bytes → Bytes → Type 0
IsOther key name = name ≢ key

-- The key has no value yet, and its column is NULL.
abbrev IsKeyless : ℕ → Step Filled → Type 0
IsKeyless i (next filled) = (filled.pk_value ≡ none) × IsNullAt filled.row_values i
IsKeyless i (stop r) = is_error r ≡ true

module _ (floats : Floats) (schema : TableSchema) (i : ℕ)
    (key : find_column schema schema.primary_key ≡ some i) where
  fill_columns-IsKeyless :
      (table_name : Bytes) (names : List Bytes) (values : List Value) (filled : Filled)
      → All (IsOther schema.primary_key) names
      → filled.pk_value ≡ none
      → IsNullAt filled.row_values i
      → IsKeyless i (fill_columns floats table_name schema names values filled)
  unfolding fill_columns
  fill_columns-IsKeyless table_name [] values filled h p n = (p, n)
  fill_columns-IsKeyless table_name (name ∷ names) [] filled h p n = (p, n)
  fill_columns-IsKeyless table_name (name ∷ names) (v ∷ values) filled h p n =
      elim (Option-cases (find_column schema name)) [
        | inl e ↦ rw (e, fill_columns) refl
        | inr (j, e) ↦
            rw (e, fill_columns)
              (fill_columns-IsKeyless table_name names values (fill floats schema name j v filled)
                h.1 (rw (str_eq-false name schema.primary_key h.0) p)
                (set-IsNullAt filled.row_values i j _
                  (λ same. h.0 (found_same schema name schema.primary_key i (e ∙ ap some same) key))
                  n))
      ]

-- Where the column of the primary key must not be NULL, as it must not be in every table that the
-- parser makes, an INSERT that names its columns and leaves out the primary key is an error and
-- changes nothing: no key is generated.
pub insert_row_keyless :
    (floats : Floats) (answers : ℕ → Answers) (stmt : InsertStmt) (schema : TableSchema)
    (c : Catalog) (i : ℕ)
    → find_column schema schema.primary_key ≡ some i
    → IsRequiredAt schema.columns i
    → is_empty stmt.columns ≡ false
    → All (IsOther schema.primary_key) stmt.columns
    → (r : QueryResult) × (insert_row floats answers stmt schema c ≡ some (r, c))
      × (is_error r ≡ true)
unfolding insert_row
insert_row_keyless floats answers stmt schema c i key required named others =
    rw named (elim (Bool-cases (length stmt.columns == length stmt.values)) [
      | inr e ↦ (count_mismatch stmt.columns stmt.values, rw e refl, refl)
      | inl e ↦ rw e (
          after _ (
            fill_columns-IsKeyless floats schema i key stmt.table_name stmt.columns stmt.values
              (record { row_values = null_row schema.columns; pk_value = none }) others refl
              (null_row-IsNullAt schema.columns i required)))
    ])
  where
    after :
        (s : Step Filled)
        → IsKeyless i s
        → (r : QueryResult) × (checked floats answers stmt schema c s ≡ some (r, c))
          × (is_error r ≡ true)
    after (stop r) h = (r, refl, h)
    after (next filled) h =
        let (name, e) = null_violation_found schema.columns filled.row_values i required h.1 in
        (error (quoted "Column '" name "' cannot be NULL"), rw e refl, refl)
