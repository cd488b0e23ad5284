-- ===== src/Schema/Columns.antt =====
-- `find_column` returns the first column of the name.
use nexus_db_main.Common.{
  subst, sym, ℕ, suc, ◌+◌, ◌<◌, List, [], ◌∷◌, Bool, true, false, Bytes, Option, none, some, length,
  get_elem?, if◌then◌else◌, ◌≡◌, ◌≢◌, refl, All, arith, take,
}
use nexus_db_main.Text.{str_eq}
use nexus_db_main.Text.Order.{str_eq→eq, str_eq_refl}
use nexus_db_main.Schema.{ColumnDef, TableSchema, find_from, find_column}

-- The column at `i` bears the name, and none before it does.
pub record FirstNamed (name : Bytes) (cols : List ColumnDef) (i : ℕ) : Type 0 where
  pub in_range : i < length cols
  pub column : ColumnDef
  pub at_index : get_elem? cols i ≡ some column
  pub named : column.name ≡ name
  pub first : All (λ col. col.name ≢ name) (take i cols)

-- What a result of `find_column` says of the columns.
abbrev pub Found : Bytes → List ColumnDef → Option ℕ → Type 0
Found name cols none = All (λ col. col.name ≢ name) cols
Found name cols (some i) = FirstNamed name cols i

find_from-suc :
    (i : ℕ) (name : Bytes) (cols : List ColumnDef)
    → find_from (i + 1) name cols
      ≡ elim (find_from i name cols) [ none ↦ none | some k ↦ some (suc k) ]
unfolding find_from
find_from-suc i name [] = refl
find_from-suc i name (col ∷ cols) = ground (arith, find_from-suc (i + 1) name cols)

-- A result of the search behind a column of another name.
Found-cons :
    (name : Bytes) (col : ColumnDef) (cols : List ColumnDef) (r : Option ℕ)
    → col.name ≢ name
    → Found name cols r
    → Found name (col ∷ cols) (elim r [ none ↦ none | some k ↦ some (suc k) ])
Found-cons name col cols none ne h = (ne, h)
Found-cons name col cols (some i) ne h = record {
  in_range = omega (arith, h.in_range);
  column = h.column;
  at_index = h.at_index;
  named = h.named;
  first = (ne, h.first);
}

Found-step :
    (name : Bytes) (col : ColumnDef) (cols : List ColumnDef) (b : Bool) (r : Option ℕ)
    → str_eq col.name name ≡ b
    → Found name cols r
    → Found name (col ∷ cols) (if b then some 0 else elim r [ none ↦ none | some k ↦ some (suc k) ])
Found-step name col cols true r e h = record {
  in_range = omega arith;
  column = col;
  at_index = refl;
  named = str_eq→eq col.name name e;
  first = tt;
}
Found-step name col cols false r e h = Found-cons name col cols r (λ p. cc (e, str_eq-of-eq p)) h
  where
    str_eq-of-eq : col.name ≡ name → str_eq col.name name ≡ true
    str_eq-of-eq p = rw p (str_eq_refl name)

find_from_lem : (name : Bytes) (cols : List ColumnDef) → Found name cols (find_from 0 name cols)
unfolding find_from
find_from_lem name [] = tt
find_from_lem name (col ∷ cols) =
    subst (λ r. Found name (col ∷ cols) (if str_eq col.name name then some 0 else r))
      (sym (find_from-suc 0 name cols))
      (Found-step name col cols _ _ refl (find_from_lem name cols))

-- `find_column` returns the index of the first column with the name, and -1 exactly if no column
-- has it.
pub find_column_lem :
    (schema : TableSchema) (name : Bytes) → Found name schema.columns (find_column schema name)
unfolding find_column
find_column_lem schema name = find_from_lem name schema.columns
