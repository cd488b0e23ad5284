-- ===== src/SqlParser.antt =====
-- `class SQLParser`: include/mosaicdb/sql_parser.h and src/sql/sql_parser.cpp.
pub mod Syntax
pub mod Cursor
pub mod Values
pub mod Columns
pub mod Balanced
pub mod Progress
mod Tests
use nexus_db_main.Common.{ℕ, zero, suc, List, [], ◌∷◌, ◌++◌, Bytes, Bool, true, false, ◌||◌, codes}
use nexus_db_main.Common.Ascii.{stoi}
use nexus_db_main.Common.Int.{ℤ, negsuc}
use nexus_db_main.Common.Results
use nexus_db_main.Common.Results.{Result, returned, raised, out_of_fuel}
use nexus_db_main.Types.{Value}
use nexus_db_main.Types.Floats.{Floats}
use nexus_db_main.SqlTokenizer.{Token, tokenize, end_token}
use nexus_db_main.SqlTokenizer.Kinds.{
  TokenType, kw_create, kw_table, kw_drop, kw_insert, kw_into, kw_values, kw_select, kw_from,
  kw_where, kw_update, kw_set, kw_delete, kw_if, kw_exists, kw_order, kw_by, kw_asc, kw_desc,
  kw_limit, kw_show, kw_tables, kw_describe, identifier, op_eq, comma, lparen, rparen, star,
  end_of_input,
}
use nexus_db_main.SqlParser.Syntax.{
  Statement, WhereClause, no_where, Assignment, create_table, drop_table, insert, select, update,
  delete, show_tables, describe,
}
use nexus_db_main.SqlParser.Cursor.{
  Parser, Reader, pure, ◌>>=◌, ◌>>◌, matches, at_end, advance, expect, when_matches, remaining,
  move,
}
use nexus_db_main.SqlParser.Values.{parse_value, parse_where}
use nexus_db_main.SqlParser.Columns.{Created, parse_columns, marked, skip_comma}

unfoldable pub parse_create_table : Reader Statement
parse_create_table = do
  expect kw_create
  expect kw_table
  name ← expect identifier
  expect lparen
  made ← λ p. parse_columns (suc (remaining p)) (record { columns = []; primary_key = [] }) p
  expect rparen
  pure (
      create_table
        (record { table_name = name.value; columns = marked made; primary_key = made.primary_key }))

unfoldable pub parse_drop_table : Reader Statement
parse_drop_table = do
  expect kw_drop
  expect kw_table
  if_exists ← when_matches kw_if (do advance; expect kw_exists; pure true) (pure false)
  name ← expect identifier
  pure (drop_table (record { table_name = name.value; if_exists = if_exists }))

-- The loops of `parse_insert`, up to the closing parenthesis, on one unit of fuel for each element.
unfoldable pub parse_names : ℕ → List Bytes → Reader (List Bytes)
parse_names zero names = λ p. out_of_fuel
parse_names (suc f) names = λ p. elim (matches rparen p || at_end p) [
  | true ↦ pure names p
  | false ↦ (do col ← expect identifier; skip_comma; parse_names f (names ++ (col.value ∷ []))) p
]

unfoldable pub parse_values : Floats → ℕ → List Value → Reader (List Value)
parse_values floats zero values = λ p. out_of_fuel
parse_values floats (suc f) values = λ p. elim (matches rparen p || at_end p) [
  | true ↦ pure values p
  | false ↦ (do v ← parse_value floats; skip_comma; parse_values floats f (values ++ (v ∷ []))) p
]

unfoldable pub parse_column_list : Reader (List Bytes)
parse_column_list =
    when_matches lparen
      (do advance; names ← λ p. parse_names (suc (remaining p)) [] p; expect rparen; pure names)
      (pure [])

unfoldable pub parse_insert : Floats → Reader Statement
parse_insert floats = do
  expect kw_insert
  expect kw_into
  name ← expect identifier
  columns ← parse_column_list
  expect kw_values
  expect lparen
  values ← λ p. parse_values floats (suc (remaining p)) [] p
  expect rparen
  pure (insert (record { table_name = name.value; columns = columns; values = values }))

-- The loop over the columns of SELECT, which a comma continues.
unfoldable pub parse_select_list : ℕ → List Bytes → Reader (List Bytes)
parse_select_list zero names = λ p. out_of_fuel
parse_select_list (suc f) names = do
  col ← expect identifier
  when_matches comma (do advance; parse_select_list f (names ++ (col.value ∷ [])))
      (pure (names ++ (col.value ∷ [])))

unfoldable pub parse_filter : Floats → Reader WhereClause
parse_filter floats = when_matches kw_where (parse_where floats) (pure no_where)

unfoldable pub parse_order : Reader (Bytes × Bool)
parse_order =
    when_matches kw_order
      (do
        advance
        expect kw_by
        col ← expect identifier
        when_matches kw_desc (do advance; pure (col.value, true))
            (when_matches kw_asc (do advance; pure (col.value, false)) (pure (col.value, false))))
      (pure ([], false))

-- Whatever the token is, `std::stoi` reads its text.
unfoldable pub parse_limit : Reader ℤ
parse_limit =
    when_matches kw_limit
      (do
        advance
        limit ← λ p. Results.◌>>=◌ (stoi p.current.value) (λ n. returned (n, p))
        advance
        pure limit)
      (pure (negsuc 0))

unfoldable pub parse_selected : Reader (Bool × List Bytes)
parse_selected =
    when_matches star (do advance; pure (true, []))
      (do names ← λ p. parse_select_list (suc (remaining p)) [] p; pure (false, names))

unfoldable pub parse_select : Floats → Reader Statement
parse_select floats = do
  expect kw_select
  selected ← parse_selected
  expect kw_from
  name ← expect identifier
  filter ← parse_filter floats
  order ← parse_order
  limit ← parse_limit
  pure (
      select (record {
        table_name = name.value;
        columns = selected.1;
        select_all = selected.0;
        filter = filter;
        order_by = order.0;
        order_desc = order.1;
        limit = limit;
      }))

unfoldable pub parse_assignment : Floats → Reader Assignment
parse_assignment floats = do
  col ← expect identifier
  expect op_eq
  value ← parse_value floats
  pure (record { column = col.value; value = value })

-- The loop of `parse_update`, which a comma continues.
unfoldable pub parse_assignments : Floats → ℕ → List Assignment → Reader (List Assignment)
parse_assignments floats zero made = λ p. out_of_fuel
parse_assignments floats (suc f) made = do
  assign ← parse_assignment floats
  when_matches comma (do advance; parse_assignments floats f (made ++ (assign ∷ [])))
      (pure (made ++ (assign ∷ [])))

unfoldable pub parse_update : Floats → Reader Statement
parse_update floats = do
  expect kw_update
  name ← expect identifier
  expect kw_set
  assignments ← λ p. parse_assignments floats (suc (remaining p)) [] p
  filter ← parse_filter floats
  pure (update (record { table_name = name.value; assignments = assignments; filter = filter }))

unfoldable pub parse_delete : Floats → Reader Statement
parse_delete floats = do
  expect kw_delete
  expect kw_from
  name ← expect identifier
  filter ← parse_filter floats
  pure (delete (record { table_name = name.value; filter = filter }))

unfoldable pub parse_show_tables : Reader Statement
parse_show_tables = do expect kw_show; expect kw_tables; pure show_tables

unfoldable pub parse_describe : Reader Statement
parse_describe = do
  expect kw_describe
  name ← expect identifier
  pure (describe (record { table_name = name.value }))

unfoldable pub parse_statement : Floats → Reader Statement
parse_statement floats = when_matches kw_create parse_create_table (
    when_matches kw_drop parse_drop_table (
      when_matches kw_insert (parse_insert floats) (
        when_matches kw_select (parse_select floats) (
          when_matches kw_update (parse_update floats) (
            when_matches kw_delete (parse_delete floats) (
              when_matches kw_show parse_show_tables (
                when_matches kw_describe parse_describe λ p. raised (
                  codes "SQL parse error: unexpected token '"
                  ++ (p.current.value ++ codes "'")))))))))

-- The parser at the first of `tokens`, which are never empty.
abbrev pub start : List Token → Parser
start tokens =
    let none_read : Token = record { type = end_of_input; value = []; position = 0 } in
    move none_read none_read tokens

unfoldable pub parse : Floats → Bytes → Result Statement
parse floats sql =
    Results.◌>>=◌ (tokenize sql)
      λ tokens. Results.◌>>=◌ (parse_statement floats (start tokens)) λ (stmt, p). returned stmt
