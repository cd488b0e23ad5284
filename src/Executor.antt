-- ===== src/Executor.antt =====
-- `class Executor`: include/mosaicdb/executor.h and src/sql/executor.cpp, over the catalog and its
-- engine. A result `none` is an access past the end of a row or of a stored row's bytes.
pub mod Values
pub mod Insert
pub mod Rows
pub mod Shape
pub mod Clauses
pub mod Keys
pub mod Duplicates
mod Tests
use nexus_db_main.Common.{
  ℕ, suc, List, [], ◌∷◌, ◌++◌, Bytes, Bool, true, false, not, Option, none, some, codes, length,
  is_empty, if◌then◌else◌, ◌>>=◌,
}
use nexus_db_main.Common.Ascii.{to_string}
use nexus_db_main.Common.Results.{Result, returned, raised, out_of_fuel}
use nexus_db_main.Text.{str_lt}
use nexus_db_main.Encoding.{Status, ok, invalid_argument, is_ok}
use nexus_db_main.Types.{Value, make_text, column_type_to_string}
use nexus_db_main.Types.Floats.{Floats}
use nexus_db_main.Schema.{TableSchema, ColumnDef}
use nexus_db_main.Engine.{Engine, Answers}
use nexus_db_main.Engine as Store
use nexus_db_main.Catalog.{Catalog, table_exists, row_key_prefix, row_key_prefix_end}
use nexus_db_main.Catalog as Tables
use nexus_db_main.SqlParser.Syntax.{
  Statement, create_table, drop_table, insert, select, update, delete, show_tables, describe,
  CreateTableStmt, DropTableStmt, InsertStmt, SelectStmt, UpdateStmt, DeleteStmt, DescribeStmt,
}
use nexus_db_main.SqlParser.{parse}
use nexus_db_main.Executor.Insert.{
  QueryResult, success, error, is_error, quoted, status_text, insert_row, Step, next, stop,
}
use nexus_db_main.Executor.Rows.{
  SortRows, selected_columns, select_rows, update_rows, matching_keys,
}

unfoldable pub created : Bytes → Status → QueryResult
created name ok = success (quoted "Table '" name "' created.")
created name invalid_argument = error (quoted "Table '" name "' already exists")
created name s = error (codes "Failed to create table: " ++ status_text s)

unfoldable pub exec_create_table :
    (ℕ → Answers) → CreateTableStmt → Catalog → Option (QueryResult × Catalog)
exec_create_table answers stmt c =
    if is_empty stmt.table_name
    then some (error (codes "Table name cannot be empty"), c)
    else if is_empty stmt.columns
    then some (error (codes "Table must have at least one column"), c)
    else if is_empty stmt.primary_key
    then some (error (codes "Table must have a PRIMARY KEY"), c)
    else (do
      (s, c₁) ←
          Tables.create_table (answers 0) (answers 1)
            (record {
              table_name = stmt.table_name;
              columns = stmt.columns;
              primary_key = stmt.primary_key;
            })
            c
      some (created stmt.table_name s, c₁))

unfoldable pub no_table : Bytes → QueryResult
no_table name = error (quoted "Table '" name "' does not exist")

unfoldable pub exec_drop_table :
    (ℕ → Answers) → DropTableStmt → Catalog → Option (QueryResult × Catalog)
exec_drop_table answers stmt c =
    if not (table_exists stmt.table_name c)
    then some (if stmt.if_exists then success (codes "OK") else no_table stmt.table_name, c)
    else (do
      (s, c₁) ← Tables.drop_table answers stmt.table_name c
      if not (is_ok s)
          then some (error (codes "Failed to drop table: " ++ status_text s), c₁)
          else some (success (quoted "Table '" stmt.table_name "' dropped."), c₁))

-- The body behind the look-up of the schema, or the error for a table that is not there.
abbrev pub with_found :
    Bytes
    → (TableSchema → Catalog → Option (QueryResult × Catalog))
    → Option TableSchema × Catalog
    → Option (QueryResult × Catalog)
with_found name body (none, c) = some (no_table name, c)
with_found name body (some schema, c) = body schema c

abbrev pub with_schema :
    Bytes
    → Catalog
    → (TableSchema → Catalog → Option (QueryResult × Catalog))
    → Option (QueryResult × Catalog)
with_schema name c body = Tables.get_schema name c >>= λ found. with_found name body found

unfoldable pub exec_insert :
    Floats → (ℕ → Answers) → InsertStmt → Catalog → Option (QueryResult × Catalog)
exec_insert floats answers stmt c = with_schema stmt.table_name c (insert_row floats answers stmt)

abbrev pub scan_rows : Bytes → Engine → Option (List (Bytes × Bytes))
scan_rows name = Store.scan (row_key_prefix name) (row_key_prefix_end name)

abbrev pub scanned :
    Floats
    → SortRows
    → SelectStmt
    → TableSchema
    → Catalog
    → Step (List ℕ × List Bytes)
    → Option (QueryResult × Catalog)
scanned floats sort stmt schema c (stop r) = some (r, c)
scanned floats sort stmt schema c (next columns) = do
  found ← scan_rows stmt.table_name c.engine
  result ← select_rows floats sort stmt schema columns.0 columns.1 found
  some (result, c)

unfoldable pub exec_select :
    Floats → SortRows → SelectStmt → Catalog → Option (QueryResult × Catalog)
exec_select floats sort stmt c =
    with_schema stmt.table_name c
      λ schema c₁. scanned floats sort stmt schema c₁ (selected_columns stmt schema)

unfoldable pub exec_update :
    Floats → (ℕ → Answers) → UpdateStmt → Catalog → Option (QueryResult × Catalog)
exec_update floats answers stmt c = with_schema stmt.table_name c λ schema c₁. do
  found ← scan_rows stmt.table_name c₁.engine
  (result, engine) ← update_rows floats answers stmt schema found 0 c₁.engine
  some (result, record c₁ { engine = engine })

unfoldable pub exec_delete :
    Floats → (ℕ → Answers) → DeleteStmt → Catalog → Option (QueryResult × Catalog)
exec_delete floats answers stmt c = with_schema stmt.table_name c λ schema c₁. do
  found ← scan_rows stmt.table_name c₁.engine
  keys ← matching_keys floats stmt.filter schema found
  engine ← Tables.remove_all answers 0 keys c₁.engine
  some
      (success (to_string (length keys) ++ codes " row(s) deleted."), record c₁ { engine = engine })

-- `std::sort` on strings: equal strings cannot be told apart, so every sorted order is this one.
unfoldable pub insert_name : Bytes → List Bytes → List Bytes
insert_name name [] = name ∷ []
insert_name name (n ∷ names) =
    if str_lt n name then n ∷ insert_name name names else name ∷ n ∷ names

unfoldable pub sort_names : List Bytes → List Bytes
sort_names [] = []
sort_names (n ∷ names) = insert_name n (sort_names names)

unfoldable pub name_rows : List Bytes → List (List Value)
name_rows [] = []
name_rows (n ∷ names) = (make_text n ∷ []) ∷ name_rows names

unfoldable pub exec_show_tables : Catalog → QueryResult
exec_show_tables c =
    let tables = Tables.list_tables c in
    record {
      status = ok;
      message = to_string (length tables) ++ codes " table(s).";
      column_names = codes "table_name" ∷ [];
      rows = name_rows (sort_names tables);
    }

abbrev pub yes_no : Bool → Value
yes_no b = make_text (if b then codes "YES" else codes "NO")

unfoldable pub column_rows : List ColumnDef → List (List Value)
column_rows [] = []
column_rows (col ∷ cols) =
    (make_text col.name
      ∷ make_text (column_type_to_string col.type)
      ∷ yes_no col.not_null
      ∷ yes_no col.is_primary_key
      ∷ [])
    ∷ column_rows cols

unfoldable pub exec_describe : DescribeStmt → Catalog → Option (QueryResult × Catalog)
exec_describe stmt c = with_schema stmt.table_name c λ schema c₁. some (
  record {
    status = ok;
    message = to_string (length schema.columns) ++ codes " column(s).";
    column_names = codes "column_name" ∷ codes "type" ∷ codes "not_null" ∷ codes "primary_key" ∷ [];
    rows = column_rows schema.columns;
  },
  c₁,
)

unfoldable pub execute :
    Floats → SortRows → (ℕ → Answers) → Statement → Catalog → Option (QueryResult × Catalog)
execute floats sort answers (create_table s) c = exec_create_table answers s c
execute floats sort answers (drop_table s) c = exec_drop_table answers s c
execute floats sort answers (insert s) c = exec_insert floats answers s c
execute floats sort answers (select s) c = exec_select floats sort s c
execute floats sort answers (update s) c = exec_update floats answers s c
execute floats sort answers (delete s) c = exec_delete floats answers s c
execute floats sort answers show_tables c = some (exec_show_tables c, c)
execute floats sort answers (describe s) c = exec_describe s c

abbrev pub execute_parsed :
    Floats → SortRows → (ℕ → Answers) → Result Statement → Catalog → Option (QueryResult × Catalog)
execute_parsed floats sort answers (returned stmt) c = execute floats sort answers stmt c
execute_parsed floats sort answers (raised what) c = some (error (codes "Parse error: " ++ what), c)
execute_parsed floats sort answers out_of_fuel c = none

-- No statement throws in `execute`: what its branches call catches its exceptions.
unfoldable pub execute_sql :
    Floats → SortRows → (ℕ → Answers) → Bytes → Catalog → Option (QueryResult × Catalog)
execute_sql floats sort answers sql c = execute_parsed floats sort answers (parse floats sql) c
