-- ===== src/Executor/Duplicates.antt =====
-- An INSERT stores its row once: the primary key is taken afterwards.
mod Tests
use nexus_db_main.Common.{
  ℕ, suc, List, [], ◌∷◌, ◌++◌, ◌<◌, ◌^◌, Bytes, All, true, none, some, codes, length, is_empty,
  ◌==◌, if◌then◌else◌, ◌≡◌, refl, sym, ap, ◌∙◌, append-nil, arith,
}
use nexus_db_main.Text.Order.{str_eq_refl}
use nexus_db_main.Encoding.{Status, ok, not_found, is_ok}
use nexus_db_main.Types.{Value}
use nexus_db_main.Types.Floats.{Floats}
use nexus_db_main.Types.Print.{value_text}
use nexus_db_main.Schema.{TableSchema}
use nexus_db_main.SsTable.{DataEntry}
use nexus_db_main.Row as Row
use nexus_db_main.Row.RoundTrip.{Made, row_round_trip}
use nexus_db_main.Engine.{Answers, get}
use nexus_db_main.Engine.Writes.{put-get}
use nexus_db_main.Catalog.{Catalog, row_key}
use nexus_db_main.Catalog.Tables.{Writable}
use nexus_db_main.SqlParser.Syntax.{InsertStmt}
use nexus_db_main.Executor.Values.{format_pk}
use nexus_db_main.Executor.Insert.{
  success, error, null_row, Step, next, fill_columns, column_names_of, null_violation, insert_row,
  stored, keyed,
}

-- The columns that the statement gives, all of them where it names none.
abbrev pub columns_given : InsertStmt → TableSchema → List Bytes
columns_given stmt schema =
    if is_empty stmt.columns then column_names_of schema.columns else stmt.columns

-- A statement that gives a row with its primary key and passes the checks before the store is asked.
pub record GivesRow (floats : Floats) (stmt : InsertStmt) (schema : TableSchema) (row : List Value)
    (pk : Value) : Type 0 where
  pub counted : (length (columns_given stmt schema) == length stmt.values) ≡ true
  pub filled :
      fill_columns floats stmt.table_name schema
        (columns_given stmt schema)
        stmt.values
        (record { row_values = null_row schema.columns; pk_value = none })
      ≡ next (record { row_values = row; pk_value = some pk })
  pub no_null : null_violation schema.columns row ≡ none

insert_row-stored :
    (floats : Floats) (answers : ℕ → Answers) (stmt : InsertStmt) (schema : TableSchema)
    (row : List Value) (pk : Value) (c : Catalog)
    → GivesRow floats stmt schema row pk
    → insert_row floats answers stmt schema c ≡ stored floats (answers 1) stmt pk row c
unfolding insert_row keyed
insert_row-stored floats answers stmt schema row pk c g = rw (g.counted, g.filled, g.no_null) refl

-- The key under which the statement stores its row.
abbrev pub key_of_row : Floats → InsertStmt → Value → Bytes
key_of_row floats stmt pk = row_key stmt.table_name (format_pk floats pk)

-- An INSERT that gives a row of values that the program can make, under a primary key that the store
-- does not have, succeeds if the store has room for the row. Then the store has bytes under the key
-- of the row that are read back as the row, and a further INSERT into the table that gives the same
-- text as its primary key is refused and changes nothing, whatever its other values.
pub insert_row_once :
    (floats : Floats) (answers answers' : ℕ → Answers) (log : Bytes) (stmt again : InsertStmt)
    (schema : TableSchema) (row row' : List Value) (pk pk' : Value) (c : Catalog)
    (ts : List (List DataEntry))
    → GivesRow floats stmt schema row pk
    → length row < 2 ^ 32
    → All Made row
    → get (key_of_row floats stmt pk) c.engine ≡ some (not_found, [])
    → Writable (answers 1) log (key_of_row floats stmt pk) (Row.serialize row) c.engine ts
    → GivesRow floats again schema row' pk'
    → key_of_row floats again pk' ≡ key_of_row floats stmt pk
    → (c' : Catalog) × (insert_row floats answers stmt schema c
        ≡ some (success (codes "1 row inserted."), c'))
      × ((bytes : Bytes) × (get (key_of_row floats stmt pk) c'.engine ≡ some (ok, bytes))
          × (Row.deserialize bytes ≡ some row))
      × (insert_row floats answers' again schema c'
          ≡ some (error (codes "Duplicate PRIMARY KEY value: " ++ value_text floats pk'), c'))
unfolding stored
insert_row_once floats answers answers' log stmt again schema row row' pk pk' c ts g n m absent w g'
      same =
    let (e, step, law) =
      put-get (answers 1) log (key_of_row floats stmt pk) (Row.serialize row) c.engine ts
        (unfold row_key in refl) w.logged w.holds w.room in
    let there : get (key_of_row floats stmt pk) e ≡ some (ok, Row.serialize row) =
      law (key_of_row floats stmt pk) ∙ rw (str_eq_refl (key_of_row floats stmt pk)) refl in
    (
      record c { engine = e },
      insert_row-stored floats answers stmt schema row pk c g ∙ rw (absent, step, stored) refl,
      (
        Row.serialize row,
        there,
        ap Row.deserialize (sym (append-nil (Row.serialize row))) ∙ row_round_trip row [] n m,
      ),
      insert_row-stored floats answers' again schema row' pk' _ g' ∙ rw (same, there, stored) refl,
    )
