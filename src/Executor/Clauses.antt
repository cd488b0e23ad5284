-- ===== src/Executor/Clauses.antt =====
-- A parsed WHERE clause has one condition more than connectives, so its evaluation stays within them.
use nexus_db_main.Common.{
  suc, ◌≤◌, List, [], ◌∷◌, Bytes, Bool, true, ◌&&◌, ◌||◌, some, length, ◌≡◌, refl, subst, arith,
  inl, inr, ◌⊎◌,
}
use nexus_db_main.Common.Results.{returned}
use nexus_db_main.Types.{Value}
use nexus_db_main.Types.Floats.{Floats}
use nexus_db_main.Schema.{TableSchema}
use nexus_db_main.SqlParser.Syntax.{Statement, LogicOp, logic_and, logic_or, Condition}
use nexus_db_main.SqlParser.{parse}
use nexus_db_main.SqlParser.Balanced.{filter_of, ResultBalanced, parse-IsBalanced}
use nexus_db_main.Executor.Values.{evaluate_ops, evaluate_conditions, evaluate_where}

evaluate_ops-answers :
    (test : Condition → Bool) (result : Bool) (ops : List LogicOp) (cs : List Condition)
    → length ops ≤ length cs
    → (b : Bool) × (evaluate_ops test result ops cs ≡ some b)
unfolding evaluate_ops
evaluate_ops-answers test result [] cs h = (result, refl)
evaluate_ops-answers test result (op ∷ ops) [] h = absurd (omega arith)
evaluate_ops-answers test result (logic_and ∷ ops) (c ∷ cs) h =
    evaluate_ops-answers test (result && test c) ops cs (omega arith)
evaluate_ops-answers test result (logic_or ∷ ops) (c ∷ cs) h =
    evaluate_ops-answers test (result || test c) ops cs (omega arith)

evaluate_conditions-answers :
    (test : Condition → Bool) (ops : List LogicOp) (cs : List Condition)
    → (cs ≡ []) ⊎ (length cs ≡ suc (length ops))
    → (b : Bool) × (evaluate_conditions test ops cs ≡ some b)
unfolding evaluate_conditions
evaluate_conditions-answers test ops [] h = (true, refl)
evaluate_conditions-answers test ops (c ∷ cs) (inl e) = absurd (cc)
evaluate_conditions-answers test ops (c ∷ cs) (inr e) =
    evaluate_ops-answers test (test c) ops cs (omega arith)

-- On every row of every schema, the clause of a statement that the parser returned evaluates to true
-- or false: the loop over the connectives stays within the conditions.
pub evaluate_where_parsed :
    (floats : Floats) (sql : Bytes) (schema : TableSchema) (row : List Value) {stmt : Statement}
    → parse floats sql ≡ returned stmt
    → (b : Bool) × (evaluate_where floats (filter_of stmt) schema row ≡ some b)
unfolding evaluate_where
evaluate_where_parsed floats sql schema row {stmt} e =
    evaluate_conditions-answers _ (filter_of stmt).logic_ops (filter_of stmt).conditions
      (subst (ResultBalanced floats) e (parse-IsBalanced floats sql))
