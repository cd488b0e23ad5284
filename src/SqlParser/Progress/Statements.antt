-- ===== src/SqlParser/Progress/Statements.antt =====
-- The parser ends on every text.
use nexus_db_main.Common.{
  ℕ, suc, ◌<◌, List, [], ◌∷◌, Bytes, true, false, ◌≡◌, ◌≢◌, refl, arith, length,
}
use nexus_db_main.Common.Ascii.{stoi}
use nexus_db_main.Common.Int.{ℤ, negsuc}
use nexus_db_main.Common.Results
use nexus_db_main.Common.Results.{
  Result, returned, raised, out_of_fuel, Ensures, Ensures-bind, Ensures-in_fuel,
}
use nexus_db_main.Types.Floats.{Floats}
use nexus_db_main.SqlTokenizer.{Token, tokenize}
use nexus_db_main.SqlTokenizer.Progress.Rounds.{Ascending, finish, more, tokenize-Ascending}
use nexus_db_main.SqlTokenizer.Kinds.{
  TokenType, same_type, type_code, end_of_input, kw_create, kw_table, kw_drop, kw_insert, kw_into,
  kw_values, kw_select, kw_from, kw_where, kw_update, kw_set, kw_delete, kw_if, kw_exists, kw_order,
  kw_by, kw_asc, kw_desc, kw_limit, kw_show, kw_tables, kw_describe, identifier, lparen, rparen,
  star,
}
use nexus_db_main.SqlParser.Syntax.{Statement, no_where}
use nexus_db_main.SqlParser.Cursor.{
  Parser, Reader, pure, ◌>>=◌, ◌>>◌, advance, expect, when_matches, remaining,
}
use nexus_db_main.SqlParser.Values.{parse_where}
use nexus_db_main.SqlParser.Columns.{parse_columns}
use nexus_db_main.SqlParser.{
  parse_create_table, parse_drop_table, parse_names, parse_column_list, parse_values, parse_insert,
  parse_select_list, parse_filter, parse_order, parse_limit, parse_selected, parse_select,
  parse_assignments, parse_update, parse_delete, parse_show_tables, parse_describe, parse_statement,
  start, parse,
}
use nexus_db_main.SqlParser.Progress.{
  Ended, EndsWith, Runs, stopped, thrown, Shrinks, Consumes-Shrinks, advance-Shrinks, pure-Shrinks,
  Shrinks-bind, when_matches-Shrinks,
}
use nexus_db_main.SqlParser.Progress.Values.{Decides, read_signed-Decides, parse_where-Consumes}
use nexus_db_main.SqlParser.Progress.Columns.{expect-Shrinks, parse_columns-Shrinks}
use nexus_db_main.SqlParser.Progress.Loops.{
  parse_names-Shrinks, parse_values-Shrinks, parse_select_list-Shrinks, parse_assignments-Shrinks,
}

-- A token that must come, and what follows it.
expect_then :
    {A : Type 0} (t : TokenType) (f : Token → Reader A)
    → same_type t end_of_input ≡ false
    → ((tok : Token) → Shrinks (f tok))
    → Shrinks (expect t >>= f)
expect_then t f ne h = Shrinks-bind (expect t) f (expect-Shrinks t ne) h

-- A token that may come, and what follows it.
optional :
    {A : Type 0} (t : TokenType) (here other : Reader A)
    → Shrinks here
    → Shrinks other
    → Shrinks (when_matches t (advance >> here) other)
optional t here other h k =
    when_matches-Shrinks t (advance >> here) other
      (Shrinks-bind advance (λ u. here) advance-Shrinks (λ u. h)) k

parse_create_table-Shrinks : Shrinks parse_create_table
unfolding parse_create_table type_code
parse_create_table-Shrinks = expect_then kw_create _ refl λ t. expect_then kw_table _ refl λ t.
    expect_then identifier _ refl λ name. expect_then lparen _ refl λ t.
      Shrinks-bind
        (λ p. parse_columns (suc (remaining p)) (record { columns = []; primary_key = [] }) p) _
        (parse_columns-Shrinks (record { columns = []; primary_key = [] }))
        λ made. expect_then rparen _ refl λ t. pure-Shrinks _

parse_drop_table-Shrinks : Shrinks parse_drop_table
unfolding parse_drop_table type_code
parse_drop_table-Shrinks = expect_then kw_drop _ refl λ t. expect_then kw_table _ refl λ t.
    Shrinks-bind (when_matches kw_if (do advance; expect kw_exists; pure true) (pure false)) _
      (optional kw_if (expect kw_exists >> pure true) (pure false)
        (expect_then kw_exists _ refl λ t. pure-Shrinks true) (pure-Shrinks false))
      λ b. expect_then identifier _ refl λ name. pure-Shrinks _

parse_column_list-Shrinks : Shrinks parse_column_list
unfolding parse_column_list type_code
parse_column_list-Shrinks =
    optional lparen _ (pure [])
      (Shrinks-bind (λ p. parse_names (suc (remaining p)) [] p) _ parse_names-Shrinks
        λ names. expect_then rparen _ refl λ t. pure-Shrinks names)
      (pure-Shrinks [])

parse_insert-Shrinks : (floats : Floats) → Shrinks (parse_insert floats)
unfolding parse_insert type_code
parse_insert-Shrinks floats = expect_then kw_insert _ refl λ t. expect_then kw_into _ refl λ t.
    expect_then identifier _ refl λ name.
      Shrinks-bind parse_column_list _ parse_column_list-Shrinks λ columns.
        expect_then kw_values _ refl λ t. expect_then lparen _ refl λ t.
          Shrinks-bind (λ p. parse_values floats (suc (remaining p)) [] p) _
            (parse_values-Shrinks floats) λ values. expect_then rparen _ refl λ t. pure-Shrinks _

parse_filter-Shrinks : (floats : Floats) → Shrinks (parse_filter floats)
unfolding parse_filter
parse_filter-Shrinks floats =
    when_matches-Shrinks kw_where (parse_where floats) (pure no_where)
      (Consumes-Shrinks (parse_where floats) (parse_where-Consumes floats)) (pure-Shrinks no_where)

parse_order-Shrinks : Shrinks parse_order
unfolding parse_order type_code
parse_order-Shrinks =
    optional kw_order _ (pure ([], false))
      (expect_then kw_by _ refl λ t. expect_then identifier _ refl λ col.
        optional kw_desc (pure (col.value, true)) _ (pure-Shrinks _) (
          optional kw_asc (pure (col.value, false)) (pure (col.value, false)) (pure-Shrinks _)
            (pure-Shrinks _)))
      (pure-Shrinks _)

read_limit-Runs :
    (r : Result ℤ) (p : Parser) (n : ℕ)
    → Decides r
    → Ended p
    → remaining p < n
    → Runs n (Results.◌>>=◌ r λ v. returned (v, p))
read_limit-Runs (returned v) p n d e l = stopped e l
read_limit-Runs (raised x) p n d e l = thrown
read_limit-Runs out_of_fuel p n d e l = elim d [ ]

parse_limit-Shrinks : Shrinks parse_limit
unfolding parse_limit type_code
parse_limit-Shrinks =
    optional kw_limit _ (pure (negsuc 0))
      (Shrinks-bind (λ p. Results.◌>>=◌ (stoi p.current.value) (λ n. returned (n, p))) _
        (λ p n e l.
          read_limit-Runs (stoi p.current.value) p n (read_signed-Decides _ _ p.current.value) e l)
        λ v. Shrinks-bind advance _ advance-Shrinks λ u. pure-Shrinks v)
      (pure-Shrinks _)

parse_selected-Shrinks : Shrinks parse_selected
unfolding parse_selected
parse_selected-Shrinks = optional star (pure (true, [])) _ (pure-Shrinks _) (
    Shrinks-bind (λ p. parse_select_list (suc (remaining p)) [] p) _ parse_select_list-Shrinks
      λ names. pure-Shrinks _)

parse_select-Shrinks : (floats : Floats) → Shrinks (parse_select floats)
unfolding parse_select type_code
parse_select-Shrinks floats = expect_then kw_select _ refl λ t.
    Shrinks-bind parse_selected _ parse_selected-Shrinks λ selected. expect_then kw_from _ refl λ t.
      expect_then identifier _ refl λ name.
        Shrinks-bind (parse_filter floats) _ (parse_filter-Shrinks floats) λ filter.
          Shrinks-bind parse_order _ parse_order-Shrinks
            λ order. Shrinks-bind parse_limit _ parse_limit-Shrinks λ limit. pure-Shrinks _

parse_update-Shrinks : (floats : Floats) → Shrinks (parse_update floats)
unfolding parse_update type_code
parse_update-Shrinks floats = expect_then kw_update _ refl λ t.
    expect_then identifier _ refl λ name. expect_then kw_set _ refl λ t.
      Shrinks-bind (λ p. parse_assignments floats (suc (remaining p)) [] p) _
        (parse_assignments-Shrinks floats)
        λ assignments.
          Shrinks-bind (parse_filter floats) _ (parse_filter-Shrinks floats)
            λ filter. pure-Shrinks _

parse_delete-Shrinks : (floats : Floats) → Shrinks (parse_delete floats)
unfolding parse_delete type_code
parse_delete-Shrinks floats = expect_then kw_delete _ refl λ t. expect_then kw_from _ refl λ t.
    expect_then identifier _ refl λ name.
      Shrinks-bind (parse_filter floats) _ (parse_filter-Shrinks floats) λ filter. pure-Shrinks _

parse_show_tables-Shrinks : Shrinks parse_show_tables
unfolding parse_show_tables type_code
parse_show_tables-Shrinks =
    expect_then kw_show _ refl λ t. expect_then kw_tables _ refl λ t. pure-Shrinks _

parse_describe-Shrinks : Shrinks parse_describe
unfolding parse_describe type_code
parse_describe-Shrinks =
    expect_then kw_describe _ refl λ t. expect_then identifier _ refl λ name. pure-Shrinks _

parse_statement-Shrinks : (floats : Floats) → Shrinks (parse_statement floats)
unfolding parse_statement
parse_statement-Shrinks floats =
    when_matches-Shrinks kw_create parse_create_table _ parse_create_table-Shrinks (
      when_matches-Shrinks kw_drop parse_drop_table _ parse_drop_table-Shrinks (
        when_matches-Shrinks kw_insert (parse_insert floats) _ (parse_insert-Shrinks floats) (
          when_matches-Shrinks kw_select (parse_select floats) _ (parse_select-Shrinks floats) (
            when_matches-Shrinks kw_update (parse_update floats) _ (parse_update-Shrinks floats) (
              when_matches-Shrinks kw_delete (parse_delete floats) _ (parse_delete-Shrinks floats) (
                when_matches-Shrinks kw_show parse_show_tables _ parse_show_tables-Shrinks (
                  when_matches-Shrinks kw_describe parse_describe _ parse_describe-Shrinks
                    λ p n e l. thrown)))))))

Ascending-EndsWith :
    {high low : ℕ} {t : Token} {ts : List Token} → Ascending high low (t ∷ ts) → EndsWith t ts
unfolding type_code
Ascending-EndsWith (finish e h) = rw e refl
Ascending-EndsWith {ts = []} (more h k l a) = elim a [ ]
Ascending-EndsWith {ts = u ∷ us} (more h k l a) = Ascending-EndsWith a

parse_tokens :
    (floats : Floats) (sql : Bytes) (tokens : List Token)
    → Ascending (length sql) 0 tokens
    → Results.◌>>=◌ (parse_statement floats (start tokens)) (λ (stmt, p). returned stmt)
      ≢ out_of_fuel
parse_tokens floats sql [] a = elim a [ ]
parse_tokens floats sql (t ∷ ts) a = go _ (
    parse_statement-Shrinks floats (start (t ∷ ts)) (suc (length ts)) (Ascending-EndsWith a)
      (omega arith))
  where
    go :
        {n : ℕ} (r : Result (Statement × Parser))
        → Runs n r
        → Results.◌>>=◌ r (λ (stmt, p). returned stmt) ≢ out_of_fuel
    go (returned s) h = λ e. cc
    go (raised x) h = λ e. cc
    go out_of_fuel h = elim h [ ]

-- The parser ends on every text: it returns a statement or throws.
pub parse_ends : (floats : Floats) (sql : Bytes) → parse floats sql ≢ out_of_fuel
unfolding parse
parse_ends floats sql = go (tokenize sql) (tokenize-Ascending sql)
  where
    go :
        (r : Result (List Token))
        → Ensures (Ascending (length sql) 0) r
        → Results.◌>>=◌ r (λ tokens.
          Results.◌>>=◌ (parse_statement floats (start tokens)) λ (stmt, p). returned stmt)
          ≢ out_of_fuel
    go (returned tokens) a = parse_tokens floats sql tokens a
    go (raised x) a = λ e. cc
    go out_of_fuel a = elim a [ ]
