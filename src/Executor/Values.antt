-- ===== src/Executor/Values.antt =====
-- `format_pk`, `coerce_value`, `evaluate_condition` and `evaluate_where` of src/sql/executor.cpp.
use nexus_db_main.Common.{
  ℕ, List, [], ◌∷◌, Bytes, Bool, true, false, not, ◌&&◌, ◌||◌, Option, none, some, get_elem?, ◌==◌,
  if◌then◌else◌, suc,
}
use nexus_db_main.Common.Ascii.{to_string, stoll, zero_padded}
use nexus_db_main.Common.Int.{ℤ, pos, negsuc}
use nexus_db_main.Common.Results.{Result, returned}
use nexus_db_main.Types.{
  ColumnType, int, float, text, Value, make_int, make_float, make_text, make_null, byte_of_type,
  compare_eq, compare_lt, compare_gt,
}
use nexus_db_main.Types.Floats.{Floats}
use nexus_db_main.Types.Print.{value_text}
use nexus_db_main.Schema.{TableSchema, find_column}
use nexus_db_main.SqlParser.Syntax.{
  CompOp, comp_eq, comp_ne, comp_lt, comp_gt, comp_le, comp_ge, LogicOp, logic_and, logic_or,
  Condition, WhereClause,
}

abbrev pub same_column_type : ColumnType → ColumnType → Bool
same_column_type a b = byte_of_type a == byte_of_type b

-- `%010lld`: the sign counts in the width.
unfoldable pub padded : ℤ → Bytes
padded (pos n) = zero_padded 10 (to_string n)
padded (negsuc n) = b'-' ∷ zero_padded 9 (to_string (suc n))

unfoldable pub format_pk : Floats → Value → Bytes
unfolding padded
format_pk floats v = if same_column_type v.type int then padded v.int_val else value_text floats v

abbrev pub read_int : Result ℤ → Value → Value
read_int (returned i) v = make_int i
read_int _ v = v

abbrev pub read_float : Option ℕ → Value → Value
read_float (some x) v = make_float x
read_float none v = v

abbrev pub to_text_value : Floats → Value → ColumnType → Value
to_text_value floats v target =
    if same_column_type target text then make_text (value_text floats v) else v

-- The conversions between different types, in their order.
unfoldable pub convert : Floats → ColumnType → Value → ColumnType → Value
convert floats int v float = make_float (floats.of_int v.int_val)
convert floats float v int = make_int (floats.to_int v.float_val)
convert floats text v int = read_int (stoll v.text_val) v
convert floats text v float = read_float (floats.stod v.text_val) v
convert floats _ v target = to_text_value floats v target

unfoldable pub coerce_value : Floats → Value → ColumnType → Value
coerce_value floats v target =
    if v.is_null
    then make_null target
    else if same_column_type v.type target
    then v
    else convert floats v.type v target

unfoldable pub compare_op : CompOp → Value → Value → Bool
compare_op comp_eq cell v = compare_eq cell v
compare_op comp_ne cell v = not (compare_eq cell v)
compare_op comp_lt cell v = compare_lt cell v
compare_op comp_gt cell v = compare_gt cell v
compare_op comp_le cell v = compare_eq cell v || compare_lt cell v
compare_op comp_ge cell v = compare_eq cell v || compare_gt cell v

-- On the cell of the column, if the row has one.
unfoldable pub evaluate_cell : Floats → Condition → Option Value → Bool
evaluate_cell floats c none = false
evaluate_cell floats c (some cell) = compare_op c.op cell (coerce_value floats c.value cell.type)

abbrev pub column_cell : Option ℕ → List Value → Option Value
column_cell none row = none
column_cell (some i) row = get_elem? row i

unfoldable pub evaluate_condition : Floats → Condition → TableSchema → List Value → Bool
evaluate_condition floats c schema row =
    evaluate_cell floats c (column_cell (find_column schema c.column) row)

-- The loop over the connectives, from the left. `none` is an index past the conditions.
unfoldable pub evaluate_ops :
    (Condition → Bool) → Bool → List LogicOp → List Condition → Option Bool
evaluate_ops test result [] conditions = some result
evaluate_ops test result (op ∷ ops) [] = none
evaluate_ops test result (logic_and ∷ ops) (c ∷ cs) = evaluate_ops test (result && test c) ops cs
evaluate_ops test result (logic_or ∷ ops) (c ∷ cs) = evaluate_ops test (result || test c) ops cs

unfoldable pub evaluate_conditions :
    (Condition → Bool) → List LogicOp → List Condition → Option Bool
evaluate_conditions test ops [] = some true
evaluate_conditions test ops (c ∷ cs) = evaluate_ops test (test c) ops cs

unfoldable pub evaluate_where : Floats → WhereClause → TableSchema → List Value → Option Bool
evaluate_where floats w schema row =
    evaluate_conditions (λ c. evaluate_condition floats c schema row) w.logic_ops w.conditions
