-- ===== src/SqlParser/Values.antt =====
-- `parse_value`, `parse_condition` and `parse_where` of src/sql/sql_parser.cpp.
use nexus_db_main.Common.{
  ℕ, zero, suc, [], ◌∷◌, ◌++◌, Bytes, true, false, Option, none, some, codes, if◌then◌else◌,
}
use nexus_db_main.Common.Ascii.{stoll}
use nexus_db_main.Common.Results
use nexus_db_main.Common.Results.{Result, returned, raised, out_of_fuel}
use nexus_db_main.Types.{Value, text, make_int, make_float, make_text, make_bool, make_null}
use nexus_db_main.Types.Floats.{Floats}
use nexus_db_main.SqlTokenizer.Kinds.{
  TokenType, op_eq, op_ne, op_lt, op_gt, op_le, op_ge, integer_lit, float_lit, string_lit, kw_true,
  kw_false, kw_null, identifier, kw_where, kw_and, kw_or,
}
use nexus_db_main.SqlParser.Syntax.{
  CompOp, comp_eq, comp_ne, comp_lt, comp_gt, comp_le, comp_ge, LogicOp, logic_and, logic_or,
  Condition, WhereClause,
}
use nexus_db_main.SqlParser.Cursor.{
  Parser, Reader, pure, ◌>>=◌, ◌>>◌, matches, advance, expect, when_matches, remaining,
}

abbrev pub read_double : Option ℕ → Result ℕ
read_double none = raised (codes "stod")
read_double (some v) = returned v

abbrev pub value_expected : Parser → Bytes
value_expected p = codes "SQL parse error: expected value, got '" ++ (p.current.value ++ codes "'")

-- A value that the text of the current token gives, and the step past it.
abbrev pub take_value : Result Value → Reader Value
take_value v p = Results.◌>>=◌ v λ w. Results.◌>>=◌ (advance p) λ (u, q). returned (w, q)

unfoldable pub parse_value : Floats → Reader Value
parse_value floats p =
    if matches integer_lit p
    then take_value (Results.◌>>=◌ (stoll p.current.value) (λ v. returned (make_int v))) p
    else if matches float_lit p
    then take_value
        (Results.◌>>=◌ (read_double (floats.stod p.current.value)) (λ v. returned (make_float v))) p
    else if matches string_lit p
    then take_value (returned (make_text p.current.value)) p
    else if matches kw_true p
    then take_value (returned (make_bool true)) p
    else if matches kw_false p
    then take_value (returned (make_bool false)) p
    else if matches kw_null p
    then take_value (returned (make_null text)) p
    else raised (value_expected p)

-- `none` is the branch that throws.
unfoldable pub comp_op : TokenType → Option CompOp
comp_op op_eq = some comp_eq
comp_op op_ne = some comp_ne
comp_op op_lt = some comp_lt
comp_op op_gt = some comp_gt
comp_op op_le = some comp_le
comp_op op_ge = some comp_ge
comp_op _ = none

abbrev pub operator_expected : Parser → Bytes
operator_expected p =
    codes "SQL parse error: expected comparison operator, got '" ++ (p.current.value ++ codes "'")

unfoldable pub parse_operator : Reader CompOp
parse_operator p = elim (comp_op p.current.type) [
  | some op ↦ Results.◌>>=◌ (advance p) (λ (u, q). returned (op, q))
  | none ↦ raised (operator_expected p)
]

unfoldable pub parse_condition : Floats → Reader Condition
parse_condition floats = do
  col ← expect identifier
  op ← parse_operator
  value ← parse_value floats
  pure (record { column = col.value; op = op; value = value })

-- Past the connective, the condition that joins the clause.
unfoldable pub parse_joined : Floats → WhereClause → LogicOp → Reader WhereClause
parse_joined floats w op = do
  advance
  c ← parse_condition floats
  pure (record { conditions = w.conditions ++ (c ∷ []); logic_ops = w.logic_ops ++ (op ∷ []) })

-- The loop of `parse_where`, on one unit of fuel for each connective.
unfoldable pub parse_conditions : Floats → ℕ → WhereClause → Reader WhereClause
parse_conditions floats zero w = λ p. out_of_fuel
parse_conditions floats (suc f) w =
    when_matches kw_and (do v ← parse_joined floats w logic_and; parse_conditions floats f v)
      (when_matches kw_or (do v ← parse_joined floats w logic_or; parse_conditions floats f v)
        (pure w))

unfoldable pub parse_where : Floats → Reader WhereClause
parse_where floats = do
  expect kw_where
  c ← parse_condition floats
  λ p.
      parse_conditions floats (suc (remaining p)) (record { conditions = c ∷ []; logic_ops = [] }) p
