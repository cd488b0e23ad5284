-- ===== src/Executor/Shape.antt =====
-- Every row of an answer to SELECT has one value for each column.
pub mod Changes
pub mod Statements
use nexus_db_main.Common.{
  ℕ, suc, List, [], ◌∷◌, ◌++◌, Bytes, Bool, true, false, Option, none, some, length, take, is_empty,
  All, ltb, ◌≡◌, refl, ap, sym, subst, arith, Option-cases, Bool-cases, inl, inr, if◌then◌else◌,
  ◌>>=◌, codes, not, ◌||◌,
}
use nexus_db_main.Common.Int.{ℤ, pos, negsuc}
use nexus_db_main.Encoding.{Status, ok, not_found, corruption, io_error, invalid_argument}
use nexus_db_main.Types.{Value}
use nexus_db_main.Types.Floats.{Floats}
use nexus_db_main.Schema.{TableSchema, ColumnDef, find_column}
use nexus_db_main.Engine.{Engine, Answers}
use nexus_db_main.Catalog.{Catalog}
use nexus_db_main.SqlParser.Syntax.{
  Statement, create_table, drop_table, insert, select, update, delete, show_tables, describe,
  SelectStmt, InsertStmt, UpdateStmt,
}
use nexus_db_main.Executor.Insert.{
  QueryResult, success, error, Step, next, stop, column_names_of, insert_row, keyed, stored, Filled,
  checked,
}
use nexus_db_main.Executor.Rows.{
  SortRows, project, project_rows, cons_index, with_names, index_of, row_order, all_indices,
  column_indices, order_rows, limit_rows, answered, selected_columns, select_rows, matching_rows,
}
use nexus_db_main.Executor.{name_rows, column_rows, exec_show_tables, execute}

abbrev pub HasWidth : ℕ → List Value → Type 0
HasWidth n row = length row ≡ n

abbrev pub IsRectangular : QueryResult → Type 0
IsRectangular r = All (HasWidth (length r.column_names)) r.rows

-- What is asked of `std::sort`: it gives back rows that it was given.
abbrev pub KeepsRows : SortRows → Type 1
KeepsRows sort =
    (P : List Value → Type 0) (before : List Value → List Value → Bool) (rows : List (List Value))
    → All P rows
    → All P (sort before rows)

length-project :
    (indices : List ℕ) (row : List Value) → length (project indices row) ≡ length indices
unfolding project
length-project [] row = refl
length-project (i ∷ indices) row = ap suc (length-project indices row)

project_rows-HasWidth :
    (indices : List ℕ) (rows : List (Bytes × List Value))
    → All (HasWidth (length indices)) (project_rows indices rows)
unfolding project_rows
project_rows-HasWidth indices [] = tt
project_rows-HasWidth indices ((key, row) ∷ rows) =
    (length-project indices row, project_rows-HasWidth indices rows)

length-all_indices :
    (i : ℕ) (cols : List ColumnDef) → length (all_indices i cols) ≡ length (column_names_of cols)
unfolding all_indices column_names_of
length-all_indices i [] = refl
length-all_indices i (col ∷ cols) = ap suc (length-all_indices (suc i) cols)

take-All :
    (P : List Value → Type 0) (n : ℕ) (rows : List (List Value)) → All P rows → All P (take n rows)
take-All P ℕ.zero rows h = tt
take-All P (suc n) [] h = tt
take-All P (suc n) (row ∷ rows) h = (h.0, take-All P n rows h.1)

limit_rows-All :
    (P : List Value → Type 0) (limit : ℤ) (rows : List (List Value))
    → All P rows
    → All P (limit_rows limit rows)
unfolding limit_rows
limit_rows-All P (pos n) rows h = ground (arith, take-All P n rows h)
limit_rows-All P (negsuc n) rows h = h

-- The lists of `selected_columns` are of one length.
abbrev pub IsPaired : Step (List ℕ × List Bytes) → Type 0
IsPaired (next columns) = length columns.0 ≡ length columns.1
IsPaired (stop r) = IsRectangular r

abbrev AreIndices : List Bytes → Step (List ℕ) → Type 0
AreIndices names (next indices) = length indices ≡ length names
AreIndices names (stop r) = IsRectangular r

cons_index-AreIndices :
    (i : ℕ) (name : Bytes) (names : List Bytes) (s : Step (List ℕ))
    → AreIndices names s
    → AreIndices (name ∷ names) (cons_index i s)
cons_index-AreIndices i name names (next is) h = ap suc h
cons_index-AreIndices i name names (stop r) h = h

column_indices-AreIndices :
    (schema : TableSchema) (names : List Bytes) → AreIndices names (column_indices schema names)
unfolding column_indices
column_indices-AreIndices schema [] = refl
column_indices-AreIndices schema (name ∷ names) = elim (Option-cases (find_column schema name)) [
  | inl e ↦ rw (e, column_indices) tt
  | inr (i, e) ↦
      rw (e, column_indices)
        (cons_index-AreIndices i name names _ (column_indices-AreIndices schema names))
]

with_names-IsPaired :
    (names : List Bytes) (s : Step (List ℕ)) → AreIndices names s → IsPaired (with_names names s)
with_names-IsPaired names (next is) h = h
with_names-IsPaired names (stop r) h = h

pub selected_columns-IsPaired :
    (stmt : SelectStmt) (schema : TableSchema) → IsPaired (selected_columns stmt schema)
unfolding selected_columns
selected_columns-IsPaired stmt schema =
    elim (Bool-cases (stmt.select_all || is_empty stmt.columns)) [
      | inl e ↦ rw (e, selected_columns) (length-all_indices 0 schema.columns)
      | inr e ↦
          rw (e, selected_columns)
            (with_names-IsPaired stmt.columns _ (column_indices-AreIndices schema stmt.columns))
    ]

abbrev AreRows : ℕ → Step (List (List Value)) → Type 0
AreRows n (next rows) = All (HasWidth n) rows
AreRows n (stop r) = IsRectangular r

answered-IsRectangular :
    (names : List Bytes) (limit : ℤ) (s : Step (List (List Value)))
    → AreRows (length names) s
    → IsRectangular (answered names limit s)
answered-IsRectangular names limit (next rows) h = limit_rows-All _ limit rows h
answered-IsRectangular names limit (stop r) h = h

-- What is given, if anything, is rectangular.
abbrev pub Gives : Option QueryResult → Type 0
Gives none = Unit
Gives (some r) = IsRectangular r

module _ (floats : Floats) (sort : SortRows) (keeps : KeepsRows sort) where
  order_rows-AreRows :
      (stmt : SelectStmt) (names : List Bytes) (n : ℕ) (rows : List (List Value))
      → All (HasWidth n) rows
      → AreRows n (order_rows sort stmt names rows)
  unfolding order_rows
  order_rows-AreRows stmt names n rows h = elim (Bool-cases (is_empty stmt.order_by)) [
    | inl e ↦ rw (e, order_rows) h
    | inr e ↦
        rw (e, order_rows)
          (elim (Option-cases (index_of 0 stmt.order_by names)) [
            | inl g ↦ rw g tt
            | inr (i, g) ↦ rw g (keeps (HasWidth n) (row_order i stmt.order_desc) rows h)
          ])
  ]

  pub select_rows-IsRectangular :
      (stmt : SelectStmt) (schema : TableSchema) (indices : List ℕ) (names : List Bytes)
      (kvs : List (Bytes × Bytes))
      → length indices ≡ length names
      → Gives (select_rows floats sort stmt schema indices names kvs)
  unfolding select_rows
  select_rows-IsRectangular stmt schema indices names kvs h =
      elim (Option-cases (matching_rows floats stmt.filter schema kvs)) [
        | inl e ↦ rw e tt
        | inr (rows, e) ↦ rw e (
            answered-IsRectangular names stmt.limit _ (
              order_rows-AreRows stmt names (length names) (project_rows indices rows) (
                subst (λ n. All (HasWidth n) (project_rows indices rows)) h
                  (project_rows-HasWidth indices rows))))
      ]
