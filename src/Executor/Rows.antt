-- ===== src/Executor/Rows.antt =====
-- The loops of `exec_select`, `exec_update` and `exec_delete` of src/sql/executor.cpp over the rows of
-- a table.
use nexus_db_main.Common.{
  ℕ, suc, List, [], ◌∷◌, ◌++◌, Bytes, Bool, true, false, not, ◌||◌, Option, none, some, codes,
  length, take, set, get_elem?, get_or, is_empty, ltb, ◌==◌, if◌then◌else◌, ◌>>=◌,
}
use nexus_db_main.Common.Ascii.{to_string}
use nexus_db_main.Common.Int.{ℤ, pos, negsuc}
use nexus_db_main.Text.{str_eq}
use nexus_db_main.Encoding.{ok}
use nexus_db_main.Types.{
  ColumnType, int, text, Value, default_value, make_null, compare_lt, compare_gt,
}
use nexus_db_main.Types.Floats.{Floats}
use nexus_db_main.Schema.{TableSchema, ColumnDef, find_column}
use nexus_db_main.Row as Row
use nexus_db_main.Engine.{Engine, Answers}
use nexus_db_main.Engine as Store
use nexus_db_main.SqlParser.Syntax.{WhereClause, is_empty_where, Assignment, SelectStmt, UpdateStmt}
use nexus_db_main.Executor.Values.{coerce_value, evaluate_where}
use nexus_db_main.Executor.Insert.{
  QueryResult, success, error, Step, next, stop, quoted, column_names_of,
}

-- `std::sort` on rows under a comparison. The order of rows that compare equal is not specified.
abbrev pub SortRows : Type 0
SortRows = (List Value → List Value → Bool) → List (List Value) → List (List Value)

abbrev pub starts_with : Bytes → Bytes → Bool
starts_with [] s = true
starts_with (p ∷ ps) [] = false
starts_with (p ∷ ps) (c ∷ cs) = if p == c then starts_with ps cs else false

-- `find` that does not give `npos`.
unfoldable pub contains : Bytes → Bytes → Bool
contains part [] = is_empty part
contains part (c ∷ cs) = starts_with part (c ∷ cs) || contains part cs

abbrev pub is_row_key : Bytes → Bool
is_row_key = contains (codes ":row:")

abbrev pub selects : Floats → WhereClause → TableSchema → List Value → Option Bool
selects floats filter schema row =
    if is_empty_where filter then some true else evaluate_where floats filter schema row

-- The rows that the clause selects, each with its key.
unfoldable pub matching_rows :
    Floats → WhereClause → TableSchema → List (Bytes × Bytes) → Option (List (Bytes × List Value))
matching_rows floats filter schema [] = some []
matching_rows floats filter schema ((key, value) ∷ kvs) =
    if not (is_row_key key) then matching_rows floats filter schema kvs else (do
      row ← Row.deserialize value
      selected ← selects floats filter schema row
      rest ← matching_rows floats filter schema kvs
      some (if selected then (key, row) ∷ rest else rest))

unfoldable pub project : List ℕ → List Value → List Value
project [] row = []
project (i ∷ indices) row = get_or row i (make_null text) ∷ project indices row

unfoldable pub project_rows : List ℕ → List (Bytes × List Value) → List (List Value)
project_rows indices [] = []
project_rows indices ((key, row) ∷ rows) = project indices row ∷ project_rows indices rows

unfoldable pub all_indices : ℕ → List ColumnDef → List ℕ
all_indices i [] = []
all_indices i (col ∷ cols) = i ∷ all_indices (suc i) cols

abbrev pub cons_index : ℕ → Step (List ℕ) → Step (List ℕ)
cons_index i (next is) = next (i ∷ is)
cons_index i (stop r) = stop r

unfoldable pub column_indices : TableSchema → List Bytes → Step (List ℕ)
column_indices schema [] = next []
column_indices schema (name ∷ names) = elim (find_column schema name) [
  | none ↦ stop (error (quoted "Unknown column '" name "'"))
  | some i ↦ cons_index i (column_indices schema names)
]

unfoldable pub index_of : ℕ → Bytes → List Bytes → Option ℕ
index_of i name [] = none
index_of i name (n ∷ names) = if str_eq n name then some i else index_of (suc i) name names

abbrev pub row_order : ℕ → Bool → List Value → List Value → Bool
row_order i desc a b =
    let x = get_or a i (default_value int) in
    let y = get_or b i (default_value int) in if desc then compare_gt x y else compare_lt x y

unfoldable pub order_rows :
    SortRows → SelectStmt → List Bytes → List (List Value) → Step (List (List Value))
order_rows sort stmt col_names rows =
    if is_empty stmt.order_by then next rows else elim (index_of 0 stmt.order_by col_names) [
      | none ↦ stop (error (quoted "ORDER BY column '" stmt.order_by "' must be in SELECT list"))
      | some i ↦ next (sort (row_order i stmt.order_desc) rows)
    ]

unfoldable pub limit_rows : ℤ → List (List Value) → List (List Value)
limit_rows (pos n) rows = if ltb n (length rows) then take n rows else rows
limit_rows (negsuc n) rows = rows

abbrev pub answered : List Bytes → ℤ → Step (List (List Value)) → QueryResult
answered col_names limit (stop r) = r
answered col_names limit (next ordered) =
    let rows = limit_rows limit ordered in
    record {
      status = ok;
      message = to_string (length rows) ++ codes " row(s) returned.";
      column_names = col_names;
      rows = rows;
    }

abbrev pub with_names : List Bytes → Step (List ℕ) → Step (List ℕ × List Bytes)
with_names names (next indices) = next (indices, names)
with_names names (stop r) = stop r

-- The indices and the names of the columns to return.
unfoldable pub selected_columns : SelectStmt → TableSchema → Step (List ℕ × List Bytes)
selected_columns stmt schema =
    if stmt.select_all || is_empty stmt.columns
    then next (all_indices 0 schema.columns, column_names_of schema.columns)
    else with_names stmt.columns (column_indices schema stmt.columns)

-- `kvs` is what the scan of the table gave.
unfoldable pub select_rows :
    Floats
    → SortRows
    → SelectStmt
    → TableSchema
    → List ℕ
    → List Bytes
    → List (Bytes × Bytes)
    → Option QueryResult
select_rows floats sort stmt schema col_indices col_names kvs = do
  rows ← matching_rows floats stmt.filter schema kvs
  some (
      answered col_names stmt.limit
        (order_rows sort stmt col_names (project_rows col_indices rows)))

-- `none` is a write past the end of the row.
abbrev pub set_value : List Value → ℕ → Value → Option (List Value)
set_value row i v = if ltb i (length row) then some (set row i v) else none

abbrev pub target_type : TableSchema → ℕ → Value → ColumnType
target_type schema i v = elim (get_elem? schema.columns i) [ none ↦ v.type | some col ↦ col.type ]

unfoldable pub assign_columns :
    Floats → TableSchema → List Assignment → List Value → Option (Step (List Value))
assign_columns floats schema [] row = some (next row)
assign_columns floats schema (a ∷ assignments) row = elim (find_column schema a.column) [
  | none ↦ some (stop (error (quoted "Unknown column '" a.column "'")))
  | some i ↦ (do
    changed ← set_value row i (coerce_value floats a.value (target_type schema i a.value))
    assign_columns floats schema assignments changed)
]

-- The row behind its assignments, and the loop behind the row.
abbrev pub write_row :
    Answers
    → Bytes
    → Engine
    → (Engine → Option (QueryResult × Engine))
    → Step (List Value)
    → Option (QueryResult × Engine)
write_row answers key e later (stop r) = some (r, e)
write_row answers key e later (next changed) = do
  (_, e₁) ← Store.put answers key (Row.serialize changed) e
  later e₁

-- The statuses of the writes are not looked at; `updated` counts them.
unfoldable pub update_rows :
    Floats
    → (ℕ → Answers)
    → UpdateStmt
    → TableSchema
    → List (Bytes × Bytes)
    → ℕ
    → Engine
    → Option (QueryResult × Engine)
update_rows floats answers stmt schema [] updated e =
    some (success (to_string updated ++ codes " row(s) updated."), e)
update_rows floats answers stmt schema ((key, value) ∷ kvs) updated e =
    if not (is_row_key key) then update_rows floats answers stmt schema kvs updated e else (do
      row ← Row.deserialize value
      selected ← selects floats stmt.filter schema row
      if not selected then update_rows floats answers stmt schema kvs updated e else (do
        assigned ← assign_columns floats schema stmt.assignments row
        write_row (answers updated) key e
            (λ e₁. update_rows floats answers stmt schema kvs (suc updated) e₁) assigned))

unfoldable pub keys_of_rows : List (Bytes × List Value) → List Bytes
keys_of_rows [] = []
keys_of_rows ((key, row) ∷ rows) = key ∷ keys_of_rows rows

-- `keys_to_delete`.
unfoldable pub matching_keys :
    Floats → WhereClause → TableSchema → List (Bytes × Bytes) → Option (List Bytes)
matching_keys floats filter schema kvs = do
  rows ← matching_rows floats filter schema kvs
  some (keys_of_rows rows)
