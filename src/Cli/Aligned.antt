-- ===== src/Cli/Aligned.antt =====
-- All lines of a printed table have one length.
use nexus_db_main.Common.{
  ℕ, ◌+◌, ◌-◌, ◌^◌, ◌≤◌, ◌<◌, List, [], ◌∷◌, Bytes, some, length, map, replicate, ap, suc, All,
  All-append, length-append, length-replicate, ◌≡◌, refl, arith,
}
use native.Mathlib.Nat.{mod-eq_of_lt}
use nexus_db_main.Types.{Value}
use nexus_db_main.Types.Floats.{Floats}
use nexus_db_main.Types.Print.{value_text}
use nexus_db_main.Catalog.{Catalog}
use nexus_db_main.Engine.{Answers}
use nexus_db_main.Executor.Insert.{QueryResult}
use nexus_db_main.Executor.Rows.{SortRows}
use nexus_db_main.Executor.Shape.{HasWidth, KeepsRows}
use nexus_db_main.Executor.Shape.Statements.{execute_sql-IsRectangular}
use nexus_db_main.Executor.{execute_sql}
use nexus_db_main.Cli.{
  larger, widen, widen_all, column_widths, separator_cells, int_width, set_width, cell,
  header_cells, row_cells, row_lines, print_table,
}

-- The length of a line behind its first byte.
abbrev pub cells_width : List ℕ → ℕ
cells_width [] = 0
cells_width (w ∷ ws) = w + 3 + cells_width ws

abbrev pub IsInt : ℕ → Type 0
IsInt w = w < 2 ^ 31

abbrev pub HasLength : ℕ → Bytes → Type 0
HasLength n line = length line ≡ n

-- Two lists of widths of one length, none above the other's.
abbrev AreBelow : List ℕ → List ℕ → Type 0
AreBelow [] [] = Unit
AreBelow (w ∷ ws) (w' ∷ ws') = (w ≤ w') × AreBelow ws ws'
AreBelow _ _ = ⊥

int_bound : (w : ℕ) → IsInt w → w < 2 ^ 32
int_bound w h = omega arith

module _ (floats : Floats) where
  -- Each text of a row is at most as long as its width.
  abbrev Fitting : List ℕ → List Value → Type 0
  Fitting [] [] = Unit
  Fitting (w ∷ ws) (v ∷ row) = (length (value_text floats v) ≤ w) × Fitting ws row
  Fitting _ _ = ⊥

  length-separator_cells : (ws : List ℕ) → length (separator_cells ws) ≡ cells_width ws
  unfolding separator_cells
  length-separator_cells [] = refl
  length-separator_cells (w ∷ ws) = omega (
    arith,
    length-append (replicate (w + 2) b'-') (b'+' ∷ separator_cells ws),
    length-replicate {A = ℕ} (w + 2) b'-',
    length-separator_cells ws,
  )

  int_width-eq : (w : ℕ) → IsInt w → int_width w ≡ w
  int_width-eq w h = ground (arith, mod-eq_of_lt (int_bound w h))

  length-set_width : (w : ℕ) (s : Bytes) → IsInt w → length s ≤ w → length (set_width w s) ≡ w
  length-set_width w s h k = rw (int_width-eq w h) (
      omega (
        arith,
        length-append s (replicate (w - length s) b' '),
        length-replicate {A = ℕ} (w - length s) b' ',
      ))

  length-cell :
      (w : ℕ) (s later : Bytes)
      → IsInt w
      → length s ≤ w
      → length (cell w s later) ≡ w + 3 + length later
  length-cell w s later h k =
      omega (arith, length-append (set_width w s) (b' ' ∷ b'|' ∷ later), length-set_width w s h k)

  length-row_cells :
      (ws : List ℕ) (row : List Value)
      → All IsInt ws
      → Fitting ws row
      → length (row_cells floats ws row) ≡ cells_width ws
  unfolding row_cells
  length-row_cells [] [] i f = refl
  length-row_cells [] (v ∷ row) i f = elim f [ ]
  length-row_cells (w ∷ ws) [] i f = elim f [ ]
  length-row_cells (w ∷ ws) (v ∷ row) i f = omega (
    arith,
    length-cell w (value_text floats v) (row_cells floats ws row) i.0 f.0,
    length-row_cells ws row i.1 f.1,
  )

  length-header_cells :
      (ws : List ℕ) (headers : List Bytes)
      → All IsInt ws
      → AreBelow (map length headers) ws
      → length (header_cells ws headers) ≡ cells_width ws
  unfolding header_cells
  length-header_cells [] [] i f = refl
  length-header_cells [] (h ∷ headers) i f = elim f [ ]
  length-header_cells (w ∷ ws) [] i f = elim f [ ]
  length-header_cells (w ∷ ws) (h ∷ headers) i f = omega (
    arith,
    length-cell w h (header_cells ws headers) i.0 f.0,
    length-header_cells ws headers i.1 f.1,
  )

  larger_bounds : (a b : ℕ) → (a ≤ larger a b) × (b ≤ larger a b)
  larger_bounds a b = ground arith

  AreBelow-refl : (ws : List ℕ) → AreBelow ws ws
  AreBelow-refl [] = tt
  AreBelow-refl (w ∷ ws) = (omega arith, AreBelow-refl ws)

  AreBelow-trans : (a b c : List ℕ) → AreBelow a b → AreBelow b c → AreBelow a c
  AreBelow-trans [] [] c h k = k
  AreBelow-trans [] (y ∷ b) c h k = elim h [ ]
  AreBelow-trans (x ∷ a) [] c h k = elim h [ ]
  AreBelow-trans (x ∷ a) (y ∷ b) [] h k = elim k [ ]
  AreBelow-trans (x ∷ a) (y ∷ b) (z ∷ c) h k =
      (omega (arith, h.0, k.0), AreBelow-trans a b c h.1 k.1)

  Fitting-AreBelow :
      (ws ws' : List ℕ) (row : List Value) → AreBelow ws ws' → Fitting ws row → Fitting ws' row
  Fitting-AreBelow [] [] row h f = f
  Fitting-AreBelow [] (w' ∷ ws') row h f = elim h [ ]
  Fitting-AreBelow (w ∷ ws) [] row h f = elim h [ ]
  Fitting-AreBelow (w ∷ ws) (w' ∷ ws') [] h f = elim f [ ]
  Fitting-AreBelow (w ∷ ws) (w' ∷ ws') (v ∷ row) h f =
      (omega (arith, h.0, f.0), Fitting-AreBelow ws ws' row h.1 f.1)

  widen-AreBelow : (ws : List ℕ) (row : List Value) → AreBelow ws (widen floats ws row)
  unfolding widen
  widen-AreBelow [] row = tt
  widen-AreBelow (w ∷ ws) [] = AreBelow-refl (w ∷ ws)
  widen-AreBelow (w ∷ ws) (v ∷ row) =
      ((larger_bounds w (length (value_text floats v))).0, widen-AreBelow ws row)

  widen-Fitting :
      (ws : List ℕ) (row : List Value) → length row ≡ length ws → Fitting (widen floats ws row) row
  unfolding widen
  widen-Fitting [] [] h = tt
  widen-Fitting (w ∷ ws) (v ∷ row) h =
      ((larger_bounds w (length (value_text floats v))).1, widen-Fitting ws row (omega (arith, h)))
  widen-Fitting [] (v ∷ row) h = absurd (omega (arith, h))
  widen-Fitting (w ∷ ws) [] h = absurd (omega (arith, h))

  length-widen : (ws : List ℕ) (row : List Value) → length (widen floats ws row) ≡ length ws
  unfolding widen
  length-widen [] row = refl
  length-widen (w ∷ ws) [] = refl
  length-widen (w ∷ ws) (v ∷ row) = omega (arith, length-widen ws row)

  widen_all-AreBelow :
      (ws : List ℕ) (rows : List (List Value)) → AreBelow ws (widen_all floats ws rows)
  unfolding widen_all
  widen_all-AreBelow ws [] = AreBelow-refl ws
  widen_all-AreBelow ws (row ∷ rows) =
      AreBelow-trans ws (widen floats ws row) _ (widen-AreBelow ws row)
        (widen_all-AreBelow (widen floats ws row) rows)

  widen_all-Fitting :
      (ws : List ℕ) (rows : List (List Value))
      → All (HasWidth (length ws)) rows
      → All (Fitting (widen_all floats ws rows)) rows
  unfolding widen_all
  widen_all-Fitting ws [] h = tt
  widen_all-Fitting ws (row ∷ rows) h = (
    Fitting-AreBelow (widen floats ws row) _ row (widen_all-AreBelow (widen floats ws row) rows)
        (widen-Fitting ws row h.0),
    widen_all-Fitting (widen floats ws row) rows (rw (length-widen ws row) h.1),
  )

  row_lines-HasLength :
      (ws : List ℕ) (rows : List (List Value))
      → All IsInt ws
      → All (Fitting ws) rows
      → All (HasLength (suc (cells_width ws))) (row_lines floats ws rows)
  unfolding row_lines
  row_lines-HasLength ws [] i f = tt
  row_lines-HasLength ws (row ∷ rows) i f =
      (omega (arith, length-row_cells ws row i f.0), row_lines-HasLength ws rows i f.1)

  length-map : (headers : List Bytes) → length (map length headers) ≡ length headers
  length-map [] = refl
  length-map (h ∷ headers) = omega (arith, length-map headers)

  print_table-HasLength :
      (headers : List Bytes) (rows : List (List Value))
      → All IsInt (column_widths floats headers rows)
      → All (HasWidth (length headers)) rows
      → All
          (HasLength (suc (cells_width (column_widths floats headers rows))))
          (print_table floats headers rows)
  unfolding print_table
  print_table-HasLength [] rows i h = tt
  print_table-HasLength (name ∷ names) rows i h =
      let headers = name ∷ names in
      let ws = column_widths floats headers rows in
      let separator = ap suc (length-separator_cells ws) in
      (
        separator,
        (
          ap suc (length-header_cells ws headers i (widen_all-AreBelow (map length headers) rows)),
          (
            separator,
            All-append _ (row_lines floats ws rows) _
                (row_lines-HasLength ws rows i
                  (widen_all-Fitting (map length headers) rows (rw (length-map headers) h)))
                (separator, tt),
          ),
        ),
      )

-- All lines of the table that the program prints for the answer to a text of SQL are as long as each
-- other: their length is that of the cells at the widths of their columns. No width has 2^31 or more,
-- and the sort of rows gives back rows that it was given.
pub print_table-IsAligned :
    (floats : Floats) (sort : SortRows) (answers : ℕ → Answers) (sql : Bytes) (c c' : Catalog)
    (r : QueryResult)
    → KeepsRows sort
    → execute_sql floats sort answers sql c ≡ some (r, c')
    → All IsInt (column_widths floats r.column_names r.rows)
    → All
        (HasLength (suc (cells_width (column_widths floats r.column_names r.rows))))
        (print_table floats r.column_names r.rows)
print_table-IsAligned floats sort answers sql c c' r keeps e i =
    print_table-HasLength floats r.column_names r.rows i
      (execute_sql-IsRectangular floats sort answers sql c keeps e)
