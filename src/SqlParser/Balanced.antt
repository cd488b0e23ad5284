-- ===== src/SqlParser/Balanced.antt =====
-- A parsed WHERE clause has one condition more than connectives.
mod Steps
use nexus_db_main.Common.{
  ℕ, zero, suc, List, [], ◌∷◌, Bytes, true, false, length, length-append, ◌≡◌, refl, arith,
  Bool-cases, inl, inr, ◌⊎◌,
}
use nexus_db_main.Common.Results
use nexus_db_main.Common.Results.{Result, returned, raised, out_of_fuel}
use nexus_db_main.Types.Floats.{Floats}
use nexus_db_main.SqlTokenizer.{Token, tokenize}
use nexus_db_main.SqlTokenizer.Kinds.{
  TokenType, kw_and, kw_or, kw_where, identifier, kw_create, kw_table, kw_drop, kw_insert, kw_into,
  kw_values, kw_select, kw_from, kw_update, kw_set, kw_delete, kw_if, kw_exists, kw_show, kw_tables,
  kw_describe, lparen, rparen,
}
use nexus_db_main.SqlParser.Syntax.{
  Statement, select, update, delete, WhereClause, no_where, LogicOp, logic_and, logic_or,
}
use nexus_db_main.SqlParser.Cursor.{
  Parser, Reader, pure, ◌>>=◌, ◌>>◌, matches, advance, expect, when_matches, remaining,
}
use nexus_db_main.SqlParser.Columns.{parse_columns}
use nexus_db_main.SqlParser.Values.{parse_condition, parse_joined, parse_conditions, parse_where}
use nexus_db_main.SqlParser.{
  parse_filter, parse_values, parse_column_list, parse_order, parse_limit, parse_selected,
  parse_assignments, parse_select, parse_update, parse_delete, parse_statement, parse, start,
  parse_create_table, parse_drop_table, parse_insert, parse_show_tables, parse_describe,
}
use nexus_db_main.SqlParser.Balanced.Steps.{
  Returns, gave, threw, spent, Always, Always-after, Always-bind, Always-when,
}

-- One condition more than connectives, or no clause.
abbrev pub IsBalanced : WhereClause → Type 0
IsBalanced w = (w.conditions ≡ []) ⊎ (length w.conditions ≡ suc (length w.logic_ops))

abbrev HasOneMore : WhereClause → Type 0
HasOneMore w = length w.conditions ≡ suc (length w.logic_ops)

-- The clause that the statement is executed with.
abbrev pub filter_of : Statement → WhereClause
filter_of (select s) = s.filter
filter_of (update s) = s.filter
filter_of (delete s) = s.filter
filter_of _ = no_where

abbrev pub HasBalanced : Statement → Type 0
HasBalanced stmt = IsBalanced (filter_of stmt)

module _ (floats : Floats) where
  parse_joined-HasOneMore :
      (w : WhereClause) (op : LogicOp) → HasOneMore w → Always HasOneMore (parse_joined floats w op)
  unfolding parse_joined
  parse_joined-HasOneMore w op h = Always-bind HasOneMore advance _ λ u.
      Always-bind HasOneMore (parse_condition floats) _ λ c p.
        gave (
          omega
            (arith, length-append w.conditions (c ∷ []), length-append w.logic_ops (op ∷ []), h))

  parse_conditions-HasOneMore :
      (f : ℕ) (w : WhereClause) → HasOneMore w → Always HasOneMore (parse_conditions floats f w)
  unfolding parse_conditions
  parse_conditions-HasOneMore zero w h = λ p. spent
  parse_conditions-HasOneMore (suc f) w h =
      Always-when HasOneMore kw_and _ _
        (Always-after HasOneMore HasOneMore (parse_joined floats w logic_and) _
          (parse_joined-HasOneMore w logic_and h) (parse_conditions-HasOneMore f))
        (Always-when HasOneMore kw_or _ (pure w)
          (Always-after HasOneMore HasOneMore (parse_joined floats w logic_or) _
            (parse_joined-HasOneMore w logic_or h) (parse_conditions-HasOneMore f))
          (λ p. gave h))

  parse_filter-IsBalanced : Always IsBalanced (parse_filter floats)
  unfolding parse_filter parse_where
  parse_filter-IsBalanced =
      Always-when IsBalanced kw_where _ (pure no_where)
        (Always-bind IsBalanced (expect kw_where) _ λ t.
          Always-bind IsBalanced (parse_condition floats) _
            λ c p. weaken _ (parse_conditions-HasOneMore (suc (remaining p)) _ refl p))
        (λ p. gave (inl refl))
    where
      weaken : (r : Result (WhereClause × Parser)) → Returns HasOneMore r → Returns IsBalanced r
      weaken (returned (w, p)) (gave h) = gave (inr h)
      weaken (raised e) h = threw
      weaken out_of_fuel h = spent

  parse_delete-HasBalanced : Always HasBalanced (parse_delete floats)
  unfolding parse_delete
  parse_delete-HasBalanced = Always-bind HasBalanced (expect kw_delete) _ λ t.
      Always-bind HasBalanced (expect kw_from) _ λ t.
        Always-bind HasBalanced (expect identifier) _ λ name.
          Always-after HasBalanced IsBalanced (parse_filter floats) _ parse_filter-IsBalanced
            λ filter h p. gave h

  parse_update-HasBalanced : Always HasBalanced (parse_update floats)
  unfolding parse_update
  parse_update-HasBalanced = Always-bind HasBalanced (expect kw_update) _ λ t.
      Always-bind HasBalanced (expect identifier) _ λ name.
        Always-bind HasBalanced (expect kw_set) _ λ t.
          Always-bind HasBalanced (λ p. parse_assignments floats (suc (remaining p)) [] p) _
            λ assignments.
              Always-after HasBalanced IsBalanced (parse_filter floats) _ parse_filter-IsBalanced
                λ filter h p. gave h

  parse_select-HasBalanced : Always HasBalanced (parse_select floats)
  unfolding parse_select
  parse_select-HasBalanced = Always-bind HasBalanced (expect kw_select) _ λ t.
      Always-bind HasBalanced parse_selected _ λ selected.
        Always-bind HasBalanced (expect kw_from) _ λ t.
          Always-bind HasBalanced (expect identifier) _ λ name.
            Always-after HasBalanced IsBalanced (parse_filter floats) _ parse_filter-IsBalanced
              λ filter h.
                Always-bind HasBalanced parse_order _
                  λ order. Always-bind HasBalanced parse_limit _ λ limit p. gave h

  parse_create_table-HasBalanced : Always HasBalanced parse_create_table
  unfolding parse_create_table
  parse_create_table-HasBalanced = Always-bind HasBalanced (expect kw_create) _ λ t.
      Always-bind HasBalanced (expect kw_table) _ λ t.
        Always-bind HasBalanced (expect identifier) _ λ name.
          Always-bind HasBalanced (expect lparen) _ λ t.
            Always-bind HasBalanced
              (λ p. parse_columns (suc (remaining p)) (record { columns = []; primary_key = [] }) p)
              _ λ made. Always-bind HasBalanced (expect rparen) _ λ t p. gave (inl refl)

  parse_drop_table-HasBalanced : Always HasBalanced parse_drop_table
  unfolding parse_drop_table
  parse_drop_table-HasBalanced = Always-bind HasBalanced (expect kw_drop) _ λ t.
      Always-bind HasBalanced (expect kw_table) _ λ t.
        Always-bind HasBalanced
          (when_matches kw_if (do advance; expect kw_exists; pure true) (pure false)) _
          λ b. Always-bind HasBalanced (expect identifier) _ λ name p. gave (inl refl)

  parse_insert-HasBalanced : Always HasBalanced (parse_insert floats)
  unfolding parse_insert
  parse_insert-HasBalanced = Always-bind HasBalanced (expect kw_insert) _ λ t.
      Always-bind HasBalanced (expect kw_into) _ λ t.
        Always-bind HasBalanced (expect identifier) _ λ name.
          Always-bind HasBalanced parse_column_list _ λ columns.
            Always-bind HasBalanced (expect kw_values) _ λ t.
              Always-bind HasBalanced (expect lparen) _ λ t.
                Always-bind HasBalanced (λ p. parse_values floats (suc (remaining p)) [] p) _
                  λ values. Always-bind HasBalanced (expect rparen) _ λ t p. gave (inl refl)

  parse_statement-HasBalanced : Always HasBalanced (parse_statement floats)
  unfolding parse_statement parse_show_tables parse_describe
  parse_statement-HasBalanced =
      Always-when HasBalanced kw_create parse_create_table _ parse_create_table-HasBalanced (
        Always-when HasBalanced kw_drop parse_drop_table _ parse_drop_table-HasBalanced (
          Always-when HasBalanced kw_insert (parse_insert floats) _ parse_insert-HasBalanced (
            Always-when HasBalanced kw_select (parse_select floats) _ parse_select-HasBalanced (
              Always-when HasBalanced kw_update (parse_update floats) _ parse_update-HasBalanced (
                Always-when HasBalanced kw_delete (parse_delete floats) _ parse_delete-HasBalanced (
                  Always-when HasBalanced kw_show parse_show_tables _
                    (Always-bind HasBalanced (expect kw_show) _
                      λ t. Always-bind HasBalanced (expect kw_tables) _ λ t p. gave (inl refl))
                    (Always-when HasBalanced kw_describe parse_describe _
                      (Always-bind HasBalanced (expect kw_describe) _ λ t.
                        Always-bind HasBalanced (expect identifier) _ λ name p. gave (inl refl))
                      (λ p. threw))))))))

  abbrev pub ResultBalanced : Result Statement → Type 0
  ResultBalanced (returned stmt) = HasBalanced stmt
  ResultBalanced _ = Unit

  pub parse-IsBalanced : (sql : Bytes) → ResultBalanced (parse floats sql)
  unfolding parse
  parse-IsBalanced sql = by_tokens (tokenize sql)
    where
      by_statement :
          (r : Result (Statement × Parser))
          → Returns HasBalanced r
          → ResultBalanced (Results.◌>>=◌ r λ (stmt, p). returned stmt)
      by_statement (returned (stmt, p)) (gave h) = h
      by_statement (raised e) h = tt
      by_statement out_of_fuel h = tt

      by_tokens :
          (r : Result (List Token))
          → ResultBalanced (
              Results.◌>>=◌ r λ tokens.
                Results.◌>>=◌ (parse_statement floats (start tokens)) λ (stmt, p). returned stmt)
      by_tokens (returned tokens) =
          by_statement (parse_statement floats (start tokens))
            (parse_statement-HasBalanced (start tokens))
      by_tokens (raised e) = tt
      by_tokens out_of_fuel = tt
