-- ===== src/Executor/Insert.antt =====
-- `struct QueryResult` of include/mosaicdb/executor.h and the body of `exec_insert` of
-- src/sql/executor.cpp.
use nexus_db_main.Common.{
  ℕ, List, [], ◌∷◌, ◌++◌, Bytes, Bool, not, ◌&&◌, Option, none, some, codes, length, set, get_elem?,
  is_empty, ◌==◌, if◌then◌else◌, ◌>>=◌,
}
use Prim.Native.String.{String}
use nexus_db_main.Common.Ascii.{to_string}
use nexus_db_main.Common.Int.{i64_of_u64}
use nexus_db_main.Text.{str_eq}
use nexus_db_main.Encoding.{Status, ok, not_found, corruption, io_error, invalid_argument, is_ok}
use nexus_db_main.Types.{ColumnType, int, Value, make_int, make_null}
use nexus_db_main.Types.Floats.{Floats}
use nexus_db_main.Types.Print.{value_text}
use nexus_db_main.Schema.{TableSchema, ColumnDef, find_column}
use nexus_db_main.Row as Row
use nexus_db_main.Engine.{Engine, Answers}
use nexus_db_main.Engine as Store
use nexus_db_main.Catalog.{Catalog, row_key, next_row_id}
use nexus_db_main.SqlParser.Syntax.{InsertStmt}
use nexus_db_main.Executor.Values.{format_pk, coerce_value, same_column_type}

pub record QueryResult : Type 0 where
  pub status : Status
  pub message : Bytes
  pub column_names : List Bytes
  pub rows : List (List Value)

abbrev pub is_error : QueryResult → Bool
is_error r = not (is_ok r.status)

-- `QueryResult::ok`.
abbrev pub success : Bytes → QueryResult
success msg = record { status = ok; message = msg; column_names = []; rows = [] }

abbrev pub error : Bytes → QueryResult
error msg = record { status = invalid_argument; message = msg; column_names = []; rows = [] }

abbrev pub quoted : String → Bytes → String → Bytes
quoted before name after = codes before ++ (name ++ codes after)

-- `status_to_string`.
unfoldable pub status_text : Status → Bytes
status_text ok = codes "OK"
status_text not_found = codes "NOT_FOUND"
status_text corruption = codes "CORRUPTION"
status_text io_error = codes "IO_ERROR"
status_text invalid_argument = codes "INVALID_ARGUMENT"

-- A row under construction, and the value of its primary key once there is one.
pub record Filled : Type 0 where
  pub row_values : List Value
  pub pk_value : Option Value

unfoldable pub null_row : List ColumnDef → List Value
null_row [] = []
null_row (col ∷ cols) = make_null col.type ∷ null_row cols

-- What a step of a statement gives: what the next one needs, or the answer to the client.
pub data Step {ℓ} (A : Type ℓ) : Type ℓ where
  next : A → Step A
  stop : QueryResult → Step A

abbrev pub column_type_at : TableSchema → ℕ → ColumnType → ColumnType
column_type_at schema i t = elim (get_elem? schema.columns i) [ none ↦ t | some col ↦ col.type ]

abbrev pub fill : Floats → TableSchema → Bytes → ℕ → Value → Filled → Filled
fill floats schema name i v filled =
    let coerced = coerce_value floats v (column_type_at schema i v.type) in
    record {
      row_values = set filled.row_values i coerced;
      pk_value = if str_eq name schema.primary_key then some coerced else filled.pk_value;
    }

-- The loop over the columns of the statement. The lists are of one length.
unfoldable pub fill_columns :
    Floats → Bytes → TableSchema → List Bytes → List Value → Filled → Step Filled
fill_columns floats table_name schema [] values filled = next filled
fill_columns floats table_name schema (name ∷ names) [] filled = next filled
fill_columns floats table_name schema (name ∷ names) (v ∷ values) filled =
    elim (find_column schema name) [
      | none ↦ stop (
          error (
            codes "Unknown column '"
            ++ (name ++ (codes "' in table '" ++ (table_name ++ codes "'")))))
      | some i ↦
          fill_columns floats table_name schema names values (fill floats schema name i v filled)
    ]

-- The name of a column that must not be NULL and is.
unfoldable pub null_violation : List ColumnDef → List Value → Option Bytes
null_violation [] values = none
null_violation (col ∷ cols) [] = none
null_violation (col ∷ cols) (v ∷ values) =
    if col.not_null && v.is_null then some col.name else null_violation cols values

unfoldable pub stored :
    Floats → Answers → InsertStmt → Value → List Value → Catalog → Option (QueryResult × Catalog)
stored floats answers stmt pk row_values c = do
  let kv_key = row_key stmt.table_name (format_pk floats pk)
  (gs, gv) ← Store.get kv_key c.engine
  if is_ok gs
      then some (error (codes "Duplicate PRIMARY KEY value: " ++ value_text floats pk), c)
      else (do
        (s, engine) ← Store.put answers kv_key (Row.serialize row_values) c.engine
        some (
          if is_ok s
              then success (codes "1 row inserted.")
              else error (codes "Failed to insert row: " ++ status_text s),
          record c { engine = engine },
        ))

abbrev pub key_required : TableSchema → QueryResult
key_required schema = error (quoted "PRIMARY KEY '" schema.primary_key "' value required")

-- With the primary key generated, for the column at the index if there is one.
unfoldable pub generated :
    Floats
    → (ℕ → Answers)
    → InsertStmt
    → TableSchema
    → List Value
    → Catalog
    → Option ℕ
    → Option (QueryResult × Catalog)
generated floats answers stmt schema row_values c none = some (key_required schema, c)
generated floats answers stmt schema row_values c (some i) =
    if same_column_type (column_type_at schema i ColumnType.text) int
    then (do
      (id, c₁) ← next_row_id (answers 0) stmt.table_name c
      let pk : Value = make_int (i64_of_u64 id)
      stored floats (answers 1) stmt pk (set row_values i pk) c₁)
    else some (key_required schema, c)

-- The primary key is given or generated.
unfoldable pub keyed :
    Floats
    → (ℕ → Answers)
    → InsertStmt
    → TableSchema
    → List Value
    → Catalog
    → Option Value
    → Option (QueryResult × Catalog)
keyed floats answers stmt schema row_values c (some pk) =
    stored floats (answers 1) stmt pk row_values c
keyed floats answers stmt schema row_values c none =
    generated floats answers stmt schema row_values c (find_column schema schema.primary_key)

unfoldable pub column_names_of : List ColumnDef → List Bytes
column_names_of [] = []
column_names_of (col ∷ cols) = col.name ∷ column_names_of cols

abbrev pub count_mismatch : List Bytes → List Value → QueryResult
count_mismatch cols values = error (
    codes "Column count ("
    ++ (to_string (length cols)
        ++ (codes ") doesn't match value count (" ++ (to_string (length values) ++ codes ")"))))

-- `violation` is the name of a column that must not be NULL and is.
abbrev pub unless_null :
    Floats
    → (ℕ → Answers)
    → InsertStmt
    → TableSchema
    → Filled
    → Catalog
    → Option Bytes
    → Option (QueryResult × Catalog)
unless_null floats answers stmt schema filled c (some name) =
    some (error (quoted "Column '" name "' cannot be NULL"), c)
unless_null floats answers stmt schema filled c none =
    keyed floats answers stmt schema filled.row_values c filled.pk_value

abbrev pub checked :
    Floats
    → (ℕ → Answers)
    → InsertStmt
    → TableSchema
    → Catalog
    → Step Filled
    → Option (QueryResult × Catalog)
checked floats answers stmt schema c (stop r) = some (r, c)
checked floats answers stmt schema c (next filled) =
    unless_null floats answers stmt schema filled c
      (null_violation schema.columns filled.row_values)

unfoldable pub insert_row :
    Floats → (ℕ → Answers) → InsertStmt → TableSchema → Catalog → Option (QueryResult × Catalog)
insert_row floats answers stmt schema c =
    let cols = if is_empty stmt.columns then column_names_of schema.columns else stmt.columns in
    let filled =
      fill_columns floats stmt.table_name schema cols stmt.values
        (record { row_values = null_row schema.columns; pk_value = none }) in
    if length cols == length stmt.values
    then checked floats answers stmt schema c filled
    else some (count_mismatch cols stmt.values, c)
