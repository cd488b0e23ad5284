-- ===== src/Cli.antt =====
-- client/cli.cpp: the table of an answer, and the loop over the lines of the input.
pub mod Aligned
mod Tests
use nexus_db_main.Common.{
  ℕ, suc, ◌+◌, ◌-◌, ◌%◌, ◌^◌, List, [], ◌∷◌, ◌++◌, Bytes, Bool, true, false, ◌||◌, Option, some,
  codes, length, map, replicate, ltb, is_empty, if◌then◌else◌, ◌>>=◌,
}
use nexus_db_main.Text.{str_eq}
use nexus_db_main.MemTable.{default_memtable_threshold}
use nexus_db_main.Types.{Value}
use nexus_db_main.Types.Floats.{Floats}
use nexus_db_main.Types.Print.{value_text}
use nexus_db_main.Engine.{Answers}
use nexus_db_main.Engine.Loading.{StoredFile, open_engine}
use nexus_db_main.Catalog.{Catalog, load_cache}
use nexus_db_main.Executor.Insert.{QueryResult, is_error}
use nexus_db_main.Executor.Rows.{SortRows}
use nexus_db_main.Executor.{execute_sql}

abbrev pub larger : ℕ → ℕ → ℕ
larger a b = if ltb a b then b else a

-- The loop over one row for the column widths.
unfoldable pub widen : Floats → List ℕ → List Value → List ℕ
widen floats [] row = []
widen floats (w ∷ ws) [] = w ∷ ws
widen floats (w ∷ ws) (v ∷ row) = larger w (length (value_text floats v)) ∷ widen floats ws row

unfoldable pub widen_all : Floats → List ℕ → List (List Value) → List ℕ
widen_all floats ws [] = ws
widen_all floats ws (row ∷ rows) = widen_all floats (widen floats ws row) rows

abbrev pub column_widths : Floats → List Bytes → List (List Value) → List ℕ
column_widths floats headers rows = widen_all floats (map length headers) rows

unfoldable pub separator_cells : List ℕ → Bytes
separator_cells [] = []
separator_cells (w ∷ ws) = replicate (w + 2) b'-' ++ (b'+' ∷ separator_cells ws)

-- The cast of a width to `int`; a negative width pads nothing.
abbrev pub int_width : ℕ → ℕ
int_width w = if ltb (w % 2 ^ 32) (2 ^ 31) then w % 2 ^ 32 else 0

-- `std::left << std::setw(...) << s`.
abbrev pub set_width : ℕ → Bytes → Bytes
set_width w s = s ++ replicate (int_width w - length s) b' '

abbrev pub cell : ℕ → Bytes → Bytes → Bytes
cell w s later = b' ' ∷ (set_width w s ++ (b' ' ∷ b'|' ∷ later))

unfoldable pub header_cells : List ℕ → List Bytes → Bytes
header_cells (w ∷ ws) (h ∷ headers) = cell w h (header_cells ws headers)
header_cells _ _ = []

-- There are as many widths as headers.
unfoldable pub row_cells : Floats → List ℕ → List Value → Bytes
row_cells floats [] row = []
row_cells floats (w ∷ ws) [] = cell w (codes "NULL") (row_cells floats ws [])
row_cells floats (w ∷ ws) (v ∷ row) = cell w (value_text floats v) (row_cells floats ws row)

unfoldable pub row_lines : Floats → List ℕ → List (List Value) → List Bytes
row_lines floats ws [] = []
row_lines floats ws (row ∷ rows) = (b'|' ∷ row_cells floats ws row) ∷ row_lines floats ws rows

-- The lines that are written, without their ends.
unfoldable pub print_table : Floats → List Bytes → List (List Value) → List Bytes
print_table floats headers rows =
    if is_empty headers
    then []
    else (let ws = column_widths floats headers rows in
        let separator = b'+' ∷ separator_cells ws in
        separator
        ∷ (b'|' ∷ header_cells ws headers)
        ∷ separator
        ∷ (row_lines floats ws rows ++ (separator ∷ [])))

unfoldable pub ended_lines : List Bytes → Bytes
ended_lines [] = []
ended_lines (line ∷ lines) = line ++ (b'\n' ∷ ended_lines lines)

unfoldable pub print_result : Floats → QueryResult → List Bytes
print_result floats r =
    if is_error r
    then (codes "ERROR: " ++ r.message) ∷ []
    else if is_empty r.column_names
    then r.message ∷ []
    else if is_empty r.rows
    then print_table floats r.column_names [] ++ (codes "0 row(s) returned." ∷ [])
    else print_table floats r.column_names r.rows ++ (r.message ∷ [])

abbrev pub prompt : Bytes
prompt = codes "MosaicSQL> "

-- The loop of `main`: what it writes, and the catalog at the end. The statements are numbered from
-- `i` on, with the answers to the writes of each.
unfoldable pub session :
    Floats → SortRows → (ℕ → ℕ → Answers) → ℕ → List Bytes → Catalog → Option (Bytes × Catalog)
session floats sort answers i [] c = some (prompt, c)
session floats sort answers i (line ∷ lines) c = elim (is_empty line) [
  | true ↦ (do (text, c₁) ← session floats sort answers i lines c; some (prompt ++ text, c₁))
  | false ↦ elim (str_eq line (codes "quit") || str_eq line (codes "exit")) [
    | true ↦ some (prompt, c)
    | false ↦ (do
      (r, c₁) ← execute_sql floats sort (answers i) line c
      (text, c₂) ← session floats sort answers (suc i) lines c₁
      some (prompt ++ (ended_lines (print_result floats r) ++ text), c₂))
  ]
]

abbrev pub banner : List Bytes
banner =
    codes "MosaicDB v0.2.0 - SQL Mode"
    ∷ codes "Supported: CREATE TABLE, INSERT, SELECT, UPDATE, DELETE, DROP TABLE"
    ∷ codes "Meta:      SHOW TABLES, DESCRIBE <table>"
    ∷ codes "Type 'quit' or 'exit' to exit."
    ∷ []
    ∷ []

-- `main`, over the files and the log of the data directory. `opening` answers the writes of the
-- constructor of the engine, whose threshold is the default one.
unfoldable pub main :
    Floats
    → SortRows
    → Answers
    → (ℕ → ℕ → Answers)
    → List StoredFile
    → Bytes
    → List Bytes
    → Option (Bytes × Catalog)
main floats sort opening answers files log lines = do
  (_, engine) ← open_engine opening default_memtable_threshold files log
  catalog ← load_cache engine
  (text, c) ← session floats sort answers 0 lines catalog
  some (ended_lines banner ++ (text ++ ended_lines (codes "Goodbye." ∷ [])), c)
