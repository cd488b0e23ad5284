-- ===== src/Executor/Shape/Statements.antt =====
-- The answers to UPDATE and DELETE have no rows, and every row of an answer has one value for each
-- column.
use nexus_db_main.Common.{
  ℕ, suc, List, [], ◌∷◌, Bytes, Option, none, some, All, ◌≡◌, refl, subst, Option-cases, inl, inr,
  not,
}
use nexus_db_main.Common.Results.{Result, returned, raised, out_of_fuel}
use nexus_db_main.Types.{Value}
use nexus_db_main.Types.Floats.{Floats}
use nexus_db_main.Schema.{TableSchema, ColumnDef, find_column}
use nexus_db_main.Engine.{Engine, Answers}
use nexus_db_main.Engine as Store
use nexus_db_main.Row as Row
use nexus_db_main.Catalog.{Catalog, table_exists, get_schema, next_row_id}
use nexus_db_main.Catalog as Tables
use nexus_db_main.SqlParser.Syntax.{
  Statement, create_table, drop_table, insert, select, update, delete, show_tables, describe,
  SelectStmt, UpdateStmt, DeleteStmt, Assignment,
}
use nexus_db_main.SqlParser.{parse}
use nexus_db_main.Executor.Insert.{QueryResult, Step, next, stop}
use nexus_db_main.Executor.Rows.{
  SortRows, select_rows, update_rows, write_row, assign_columns, set_value, target_type, selects,
  is_row_key, matching_keys,
}
use nexus_db_main.Executor.{
  name_rows, column_rows, exec_show_tables, execute, execute_parsed, execute_sql, scanned,
  scan_rows, exec_select, exec_update, exec_delete, exec_describe, sort_names,
}
use nexus_db_main.Executor.Values.{coerce_value}
use nexus_db_main.Executor.Shape.{
  HasWidth, IsRectangular, KeepsRows, IsPaired, selected_columns-IsPaired,
  select_rows-IsRectangular,
}
use nexus_db_main.Executor.Shape.Changes.{
  Answered, nothing, answer, Answered-bind, Answered-if, with_schema-Answered, Stops, Halts, steps,
  Halts-bind, Answered-halt, Answered-map, Answered-gives, exec_create_table-Answered,
  exec_drop_table-Answered, exec_insert-Answered,
}

module _ (floats : Floats) (answers : ℕ → Answers) where
  write_row-Answered :
      (answers : Answers) (key : Bytes) (e : Engine)
      (later : Engine → Option (QueryResult × Engine)) (s : Step (List Value))
      → Stops s
      → ((e₁ : Engine) → Answered (later e₁))
      → Answered (write_row answers key e later s)
  write_row-Answered answers key e later (stop r) h k = answer h
  write_row-Answered answers key e later (next changed) h k =
      Answered-bind (Store.put answers key (Row.serialize changed) e) _ λ (s, e₁). k e₁

  assign_columns-Halts :
      (schema : TableSchema) (assignments : List Assignment) (row : List Value)
      → Halts (assign_columns floats schema assignments row)
  unfolding assign_columns
  assign_columns-Halts schema [] row = steps tt
  assign_columns-Halts schema (a ∷ assignments) row =
      elim (Option-cases (find_column schema a.column)) [
        | inl e ↦ rw (e, assign_columns) (steps tt)
        | inr (i, e) ↦
            rw (e, assign_columns)
              (Halts-bind
                (set_value row i (coerce_value floats a.value (target_type schema i a.value))) _
                λ changed. assign_columns-Halts schema assignments changed)
      ]

  update_rows-Answered :
      (stmt : UpdateStmt) (schema : TableSchema) (kvs : List (Bytes × Bytes)) (updated : ℕ)
      (e : Engine)
      → Answered (update_rows floats answers stmt schema kvs updated e)
  unfolding update_rows
  update_rows-Answered stmt schema [] updated e = answer tt
  update_rows-Answered stmt schema ((key, value) ∷ kvs) updated e =
      Answered-if (not (is_row_key key)) _ _ (update_rows-Answered stmt schema kvs updated e) (
        Answered-bind (Row.deserialize value) _ λ row.
          Answered-bind (selects floats stmt.filter schema row) _ λ selected.
            Answered-if (not selected) _ _ (update_rows-Answered stmt schema kvs updated e) (
              Answered-halt (assign_columns floats schema stmt.assignments row) _
                (assign_columns-Halts schema stmt.assignments row)
                λ assigned h.
                  write_row-Answered (answers updated) key e _ assigned h
                    λ e₁. update_rows-Answered stmt schema kvs (suc updated) e₁))

  exec_update-Answered :
      (stmt : UpdateStmt) (c : Catalog) → Answered (exec_update floats answers stmt c)
  unfolding exec_update
  exec_update-Answered stmt c = with_schema-Answered stmt.table_name c _ λ schema c₁.
      Answered-bind (scan_rows stmt.table_name c₁.engine) _ λ found.
        Answered-map (update_rows floats answers stmt schema found 0 c₁.engine)
          (λ engine. record c₁ { engine = engine })
          (update_rows-Answered stmt schema found 0 c₁.engine)

  exec_delete-Answered :
      (stmt : DeleteStmt) (c : Catalog) → Answered (exec_delete floats answers stmt c)
  unfolding exec_delete
  exec_delete-Answered stmt c = with_schema-Answered stmt.table_name c _ λ schema c₁.
      Answered-bind (scan_rows stmt.table_name c₁.engine) _ λ found.
        Answered-bind (matching_keys floats stmt.filter schema found) _
          λ keys. Answered-bind (Tables.remove_all answers 0 keys c₁.engine) _ λ engine. answer tt

name_rows-HasWidth : (names : List Bytes) → All (HasWidth 1) (name_rows names)
unfolding name_rows
name_rows-HasWidth [] = tt
name_rows-HasWidth (n ∷ names) = (refl, name_rows-HasWidth names)

column_rows-HasWidth : (cols : List ColumnDef) → All (HasWidth 4) (column_rows cols)
unfolding column_rows
column_rows-HasWidth [] = tt
column_rows-HasWidth (col ∷ cols) = (refl, column_rows-HasWidth cols)

module _ (floats : Floats) (sort : SortRows) (keeps : KeepsRows sort) (answers : ℕ → Answers) where
  scanned-Answered :
      (stmt : SelectStmt) (schema : TableSchema) (c : Catalog) (s : Step (List ℕ × List Bytes))
      → IsPaired s
      → Answered (scanned floats sort stmt schema c s)
  scanned-Answered stmt schema c (stop r) h = answer h
  scanned-Answered stmt schema c (next columns) h =
      Answered-bind (scan_rows stmt.table_name c.engine) _ λ found.
        Answered-gives (select_rows floats sort stmt schema columns.0 columns.1 found) c
          (select_rows-IsRectangular floats sort keeps stmt schema columns.0 columns.1 found h)

  execute-Answered :
      (stmt : Statement) (c : Catalog) → Answered (execute floats sort answers stmt c)
  unfolding execute exec_select exec_show_tables exec_describe
  execute-Answered (create_table s) c = exec_create_table-Answered answers s c
  execute-Answered (drop_table s) c = exec_drop_table-Answered answers s c
  execute-Answered (insert s) c = exec_insert-Answered floats answers s c
  execute-Answered (select s) c =
      with_schema-Answered s.table_name c _
        λ schema c₁. scanned-Answered s schema c₁ _ (selected_columns-IsPaired s schema)
  execute-Answered (update s) c = exec_update-Answered floats answers s c
  execute-Answered (delete s) c = exec_delete-Answered floats answers s c
  execute-Answered show_tables c = answer (name_rows-HasWidth (sort_names (Tables.list_tables c)))
  execute-Answered (describe s) c =
      with_schema-Answered s.table_name c _
        λ schema c₁. answer (column_rows-HasWidth schema.columns)

abbrev Shown : {S : Type 0} → Option (QueryResult × S) → Type 0
Shown none = Unit
Shown (some (r, s)) = IsRectangular r

Answered-Shown : {S : Type 0} (o : Option (QueryResult × S)) → Answered o → Shown o
Answered-Shown none h = tt
Answered-Shown (some (r, s)) (answer h) = h

-- Whatever a text of SQL does, each row of its answer has one value for each column of the answer, if
-- the sort of rows gives back rows that it was given.
pub execute_sql-IsRectangular :
    (floats : Floats) (sort : SortRows) (answers : ℕ → Answers) (sql : Bytes) (c : Catalog)
    {r : QueryResult} {c' : Catalog}
    → KeepsRows sort
    → execute_sql floats sort answers sql c ≡ some (r, c')
    → IsRectangular r
unfolding execute_sql
execute_sql-IsRectangular floats sort answers sql c keeps e =
    subst Shown e (Answered-Shown _ (parsed (parse floats sql)))
  where
    parsed : (p : Result Statement) → Answered (execute_parsed floats sort answers p c)
    parsed (returned stmt) = execute-Answered floats sort keeps answers stmt c
    parsed (raised what) = answer tt
    parsed out_of_fuel = nothing
