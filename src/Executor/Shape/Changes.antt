-- ===== src/Executor/Shape/Changes.antt =====
-- What the answers to CREATE TABLE, DROP TABLE and INSERT hold.
use nexus_db_main.Common.{
  ℕ, List, [], ◌∷◌, Bytes, Bool, true, false, Option, none, some, is_empty, Option-cases, inl, inr,
  if◌then◌else◌, ◌>>=◌, not,
}
use nexus_db_main.Encoding.{Status, ok, invalid_argument, is_ok}
use nexus_db_main.Types.{Value}
use nexus_db_main.Types.Floats.{Floats}
use nexus_db_main.Schema.{TableSchema, find_column}
use nexus_db_main.Engine.{Engine, Answers}
use nexus_db_main.Engine as Store
use nexus_db_main.Row as Row
use nexus_db_main.Catalog.{Catalog, table_exists, get_schema, next_row_id}
use nexus_db_main.Catalog as Tables
use nexus_db_main.SqlParser.Syntax.{InsertStmt, CreateTableStmt, DropTableStmt}
use nexus_db_main.Executor.Insert.{
  QueryResult, success, error, Step, next, stop, insert_row, keyed, generated, unless_null, stored,
  Filled, checked, null_violation, fill_columns,
}
use nexus_db_main.Executor.{
  with_found, with_schema, created, exec_create_table, exec_drop_table, exec_insert, no_table,
}
use nexus_db_main.Executor.Shape.{IsRectangular, Gives}

-- The answer, if there is one, is rectangular.
pub data Answered {S : Type 0} : Option (QueryResult × S) → Type 0 where
  nothing : Answered none
  answer : {r : QueryResult} {s : S} → IsRectangular r → Answered (some (r, s))

pub Answered-bind :
    {A S : Type 0} (o : Option A) (f : A → Option (QueryResult × S))
    → ((a : A) → Answered (f a))
    → Answered (o >>= f)
Answered-bind none f h = nothing
Answered-bind (some a) f h = h a

pub Answered-if :
    {S : Type 0} (b : Bool) (x y : Option (QueryResult × S))
    → Answered x
    → Answered y
    → Answered (if b then x else y)
Answered-if true x y h k = h
Answered-if false x y h k = k

pub with_schema-Answered :
    (name : Bytes) (c : Catalog) (body : TableSchema → Catalog → Option (QueryResult × Catalog))
    → ((schema : TableSchema) (c₁ : Catalog) → Answered (body schema c₁))
    → Answered (with_schema name c body)
unfolding no_table
with_schema-Answered name c body h = Answered-bind (get_schema name c) _ by_schema
  where
    by_schema : (found : Option TableSchema × Catalog) → Answered (with_found name body found)
    by_schema (none, c₁) = answer tt
    by_schema (some schema, c₁) = h schema c₁

-- No rows, whatever the status.
message_only : (b : Bool) (m n : Bytes) → IsRectangular (if b then success m else error n)
message_only true m n = tt
message_only false m n = tt

created-IsRectangular : (name : Bytes) (s : Status) → IsRectangular (created name s)
unfolding created
created-IsRectangular name ok = tt
created-IsRectangular name invalid_argument = tt
created-IsRectangular name _ = tt

-- A step that stops the statement does so with a message alone.
abbrev pub Stops : {A : Type 0} → Step A → Type 0
Stops (next a) = Unit
Stops (stop r) = IsRectangular r

pub data Halts {A : Type 0} : Option (Step A) → Type 0 where
  missing : Halts none
  steps : {s : Step A} → Stops s → Halts (some s)

pub Halts-bind :
    {A B : Type 0} (o : Option A) (f : A → Option (Step B))
    → ((a : A) → Halts (f a))
    → Halts (o >>= f)
Halts-bind none f h = missing
Halts-bind (some a) f h = h a

pub Answered-halt :
    {A S : Type 0} (o : Option (Step A)) (f : Step A → Option (QueryResult × S))
    → Halts o
    → ((s : Step A) → Stops s → Answered (f s))
    → Answered (o >>= f)
Answered-halt none f h k = nothing
Answered-halt (some s) f (steps h) k = k s h

pub Answered-map :
    {R S : Type 0} (o : Option (QueryResult × R)) (f : R → S)
    → Answered o
    → Answered (o >>= λ (r, s). some (r, f s))
Answered-map none f h = nothing
Answered-map (some (r, s)) f (answer h) = answer h

pub Answered-gives :
    {S : Type 0} (o : Option QueryResult) (s : S) → Gives o → Answered (o >>= λ r. some (r, s))
Answered-gives none s h = nothing
Answered-gives (some r) s h = answer h

pub exec_create_table-Answered :
    (answers : ℕ → Answers) (stmt : CreateTableStmt) (c : Catalog)
    → Answered (exec_create_table answers stmt c)
unfolding exec_create_table
exec_create_table-Answered answers stmt c = Answered-if (is_empty stmt.table_name) _ _ (answer tt) (
    Answered-if (is_empty stmt.columns) _ _ (answer tt) (
      Answered-if (is_empty stmt.primary_key) _ _ (answer tt) (
        Answered-bind
          (Tables.create_table (answers 0) (answers 1)
            (record {
              table_name = stmt.table_name;
              columns = stmt.columns;
              primary_key = stmt.primary_key;
            })
            c)
          _ λ (s, c₁). answer (created-IsRectangular stmt.table_name s))))

pub exec_drop_table-Answered :
    (answers : ℕ → Answers) (stmt : DropTableStmt) (c : Catalog)
    → Answered (exec_drop_table answers stmt c)
unfolding exec_drop_table no_table
exec_drop_table-Answered answers stmt c =
    Answered-if (not (table_exists stmt.table_name c)) _ _
      (answer (message_only stmt.if_exists _ _))
      (Answered-bind (Tables.drop_table answers stmt.table_name c) _
        λ (s, c₁). Answered-if (not (is_ok s)) _ _ (answer tt) (answer tt))

stored-Answered :
    (floats : Floats) (answers : Answers) (stmt : InsertStmt) (pk : Value) (row : List Value)
    (c : Catalog)
    → Answered (stored floats answers stmt pk row c)
unfolding stored
stored-Answered floats answers stmt pk row c = Answered-bind (Store.get _ c.engine) _ λ (gs, gv).
    Answered-if (is_ok gs) _ _ (answer tt) (
      Answered-bind (Store.put answers _ (Row.serialize row) c.engine) _
        λ (s, engine). answer (message_only (is_ok s) _ _))

module _ (floats : Floats) (answers : ℕ → Answers) where
  generated-Answered :
      (stmt : InsertStmt) (schema : TableSchema) (row : List Value) (c : Catalog) (i : Option ℕ)
      → Answered (generated floats answers stmt schema row c i)
  unfolding generated
  generated-Answered stmt schema row c none = answer tt
  generated-Answered stmt schema row c (some i) =
      Answered-if _ _ _
        (Answered-bind (next_row_id (answers 0) stmt.table_name c) _
          λ (id, c₁). stored-Answered floats (answers 1) stmt _ _ c₁)
        (answer tt)

  keyed-Answered :
      (stmt : InsertStmt) (schema : TableSchema) (row : List Value) (c : Catalog)
      (pk : Option Value)
      → Answered (keyed floats answers stmt schema row c pk)
  unfolding keyed
  keyed-Answered stmt schema row c (some pk) = stored-Answered floats (answers 1) stmt pk row c
  keyed-Answered stmt schema row c none =
      generated-Answered stmt schema row c (find_column schema schema.primary_key)

  checked-Answered :
      (stmt : InsertStmt) (schema : TableSchema) (c : Catalog) (filled : Step Filled)
      → Stops filled
      → Answered (checked floats answers stmt schema c filled)
  checked-Answered stmt schema c (stop r) h = answer h
  checked-Answered stmt schema c (next filled) h =
      by_violation (null_violation schema.columns filled.row_values)
    where
      by_violation :
          (o : Option Bytes) → Answered (unless_null floats answers stmt schema filled c o)
      by_violation none = keyed-Answered stmt schema filled.row_values c filled.pk_value
      by_violation (some name) = answer tt

  fill_columns-Stops :
      (table_name : Bytes) (schema : TableSchema) (names : List Bytes) (values : List Value)
      (filled : Filled)
      → Stops (fill_columns floats table_name schema names values filled)
  unfolding fill_columns
  fill_columns-Stops table_name schema [] values filled = tt
  fill_columns-Stops table_name schema (name ∷ names) [] filled = tt
  fill_columns-Stops table_name schema (name ∷ names) (v ∷ values) filled =
      elim (Option-cases (find_column schema name)) [
        | inl e ↦ rw (e, fill_columns) tt
        | inr (i, e) ↦ rw (e, fill_columns) (fill_columns-Stops table_name schema names values _)
      ]

  pub exec_insert-Answered :
      (stmt : InsertStmt) (c : Catalog) → Answered (exec_insert floats answers stmt c)
  unfolding exec_insert insert_row
  exec_insert-Answered stmt c =
      with_schema-Answered stmt.table_name c (insert_row floats answers stmt) λ schema c₁.
        Answered-if _ _ _
          (checked-Answered stmt schema c₁ _
            (fill_columns-Stops stmt.table_name schema _ stmt.values _))
          (answer tt)
