-- ===== src/SqlParser/Progress/Loops.antt =====
-- The loops of the statements of src/sql/sql_parser.cpp end.
use nexus_db_main.Common.{
  ℕ, zero, suc, ◌≤◌, ◌<◌, [], ◌∷◌, ◌++◌, ◌||◌, refl, arith, Bool-cases, inl, inr,
}
use nexus_db_main.Types.Floats.{Floats}
use nexus_db_main.SqlTokenizer.Kinds.{type_code, comma, rparen, op_eq, identifier}
use nexus_db_main.SqlParser.Cursor.{
  Parser, Reader, ◌>>=◌, ◌>>◌, matches, at_end, advance, expect, when_matches, remaining,
}
use nexus_db_main.SqlParser.Values.{parse_value}
use nexus_db_main.SqlParser.Columns.{skip_comma}
use nexus_db_main.SqlParser.{
  parse_names, parse_values, parse_select_list, parse_assignment, parse_assignments,
}
use nexus_db_main.SqlParser.Progress.{
  Ended, Runs, stopped, Shrinks, Consumes, Runs-weaken, Runs-bind, Consumes-bind, Consumes-Shrinks,
  advance-Shrinks, round-Runs, expect-Consumes, pure-Shrinks, Shrinks-bind,
}
use nexus_db_main.SqlParser.Progress.Values.{parse_value-Consumes}
use nexus_db_main.SqlParser.Progress.Columns.{skip_comma-Shrinks, expect-Shrinks}

-- What a loop on `f` units of fuel does from a state.
abbrev pub LoopRuns : {A B : Type 0} → ℕ → (A → Reader B) → Type 0
LoopRuns {A} f loop =
    (a : A) (p : Parser) (n : ℕ) → Ended p → remaining p < n → n ≤ f → Runs n (loop a p)

-- A loop on fuel for the tokens that are left ends.
pub loop-Shrinks :
    {A B : Type 0} (loop : ℕ → A → Reader B)
    → ((f : ℕ) → LoopRuns f (loop f))
    → (a : A) → Shrinks (λ p. loop (suc (remaining p)) a p)
loop-Shrinks loop h a p n e l =
    Runs-weaken (h (suc (remaining p)) a p (suc (remaining p)) e (omega arith) (omega arith))
      (omega arith)

module _ {A B C : Type 0} (loop : C → Reader B) (f : ℕ) (ih : LoopRuns f loop) where
  -- An element, perhaps a comma, and the loop behind.
  pub element-Runs :
      (element : Reader A) (next : A → C) (p : Parser) (n : ℕ)
      → Consumes element
      → Ended p
      → remaining p < n
      → n ≤ suc f
      → Runs n ((element >>= λ a. skip_comma >> loop (next a)) p)
  element-Runs element next p n c e l m =
      round-Runs (element p) (λ a. skip_comma >> loop (next a)) (c p (remaining p) e (omega arith))
        (λ a q k e' l' m'.
          Runs-bind (skip_comma q) (λ u. loop (next a)) (skip_comma-Shrinks q k e' l')
            (λ u r e'' l''. ih (next a) r k e'' l'' m'))
        l m

  -- An element, and the loop behind a comma.
  pub separated-Runs :
      (element : Reader A) (next : A → C) (stop : A → Reader B) (p : Parser) (n : ℕ)
      → Consumes element
      → ((a : A) → Shrinks (stop a))
      → Ended p
      → remaining p < n
      → n ≤ suc f
      → Runs n ((element >>= λ a. when_matches comma (advance >> loop (next a)) (stop a)) p)
  separated-Runs element next stop p n c s e l m =
      round-Runs (element p) (λ a. when_matches comma (advance >> loop (next a)) (stop a))
        (c p (remaining p) e (omega arith))
        (λ a q k e' l' m'. elim (Bool-cases (matches comma q)) [
          | inl h ↦
              rw (h, when_matches)
                (Runs-bind (advance q) (λ u. loop (next a)) (advance-Shrinks q k e' l')
                  (λ u r e'' l''. ih (next a) r k e'' l'' m'))
          | inr h ↦ rw (h, when_matches) (s a q k e' l')
        ])
        l m

parse_names-Runs : (f : ℕ) → LoopRuns f (parse_names f)
unfolding parse_names type_code
parse_names-Runs zero names p n e l m = absurd (omega arith)
parse_names-Runs (suc f) names p n e l m = elim (Bool-cases (matches rparen p || at_end p)) [
  | inl h ↦ rw (h, parse_names) (stopped e l)
  | inr h ↦
      rw (h, parse_names)
        (element-Runs (parse_names f) f (parse_names-Runs f) (expect identifier)
          (λ col. names ++ (col.value ∷ [])) p n (expect-Consumes identifier refl) e l m)
]

parse_values-Runs : (floats : Floats) (f : ℕ) → LoopRuns f (parse_values floats f)
unfolding parse_values
parse_values-Runs floats zero values p n e l m = absurd (omega arith)
parse_values-Runs floats (suc f) values p n e l m =
    elim (Bool-cases (matches rparen p || at_end p)) [
      | inl h ↦ rw (h, parse_values) (stopped e l)
      | inr h ↦
          rw (h, parse_values)
            (element-Runs (parse_values floats f) f (parse_values-Runs floats f)
              (parse_value floats) (λ v. values ++ (v ∷ [])) p n (parse_value-Consumes floats) e l
              m)
    ]

parse_select_list-Runs : (f : ℕ) → LoopRuns f (parse_select_list f)
unfolding parse_select_list type_code
parse_select_list-Runs zero names p n e l m = absurd (omega arith)
parse_select_list-Runs (suc f) names p n e l m =
    separated-Runs (parse_select_list f) f (parse_select_list-Runs f) (expect identifier)
      (λ col. names ++ (col.value ∷ [])) _ p n (expect-Consumes identifier refl)
      (λ col. pure-Shrinks _) e l m

parse_assignment-Consumes : (floats : Floats) → Consumes (parse_assignment floats)
unfolding parse_assignment type_code
parse_assignment-Consumes floats =
    Consumes-bind (expect identifier) _ (expect-Consumes identifier refl) λ col.
      Shrinks-bind (expect op_eq) _ (expect-Shrinks op_eq refl) λ t.
        Shrinks-bind (parse_value floats) _
          (Consumes-Shrinks (parse_value floats) (parse_value-Consumes floats)) λ v. pure-Shrinks _

parse_assignments-Runs : (floats : Floats) (f : ℕ) → LoopRuns f (parse_assignments floats f)
unfolding parse_assignments
parse_assignments-Runs floats zero made p n e l m = absurd (omega arith)
parse_assignments-Runs floats (suc f) made p n e l m =
    separated-Runs (parse_assignments floats f) f (parse_assignments-Runs floats f)
      (parse_assignment floats) (λ assign. made ++ (assign ∷ [])) _ p n
      (parse_assignment-Consumes floats) (λ assign. pure-Shrinks _) e l m

pub parse_names-Shrinks : Shrinks (λ p. parse_names (suc (remaining p)) [] p)
parse_names-Shrinks = loop-Shrinks parse_names parse_names-Runs []

pub parse_values-Shrinks :
    (floats : Floats) → Shrinks (λ p. parse_values floats (suc (remaining p)) [] p)
parse_values-Shrinks floats = loop-Shrinks (parse_values floats) (parse_values-Runs floats) []

pub parse_select_list-Shrinks : Shrinks (λ p. parse_select_list (suc (remaining p)) [] p)
parse_select_list-Shrinks = loop-Shrinks parse_select_list parse_select_list-Runs []

pub parse_assignments-Shrinks :
    (floats : Floats) → Shrinks (λ p. parse_assignments floats (suc (remaining p)) [] p)
parse_assignments-Shrinks floats =
    loop-Shrinks (parse_assignments floats) (parse_assignments-Runs floats) []
