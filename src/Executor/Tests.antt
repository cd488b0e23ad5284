-- ===== src/Executor/Tests.antt =====
-- The executor on fixed inputs.
use nexus_db_main.SqlTokenizer.{
  tokenize, tokenize_loop, tokenize_round, skip_whitespace, scan_token, read_word,
  read_identifier_or_keyword, read_number, read_number_loop, read_string, less, greater, bang,
}
use nexus_db_main.SqlTokenizer.Kinds.{keyword_type, first_keyword, keywords, type_code}
use nexus_db_main.Text.{str_compare}
use nexus_db_main.Common.Ascii.{digits, in_range, read_digits, read_signed, read_unsigned}
use nexus_db_main.SqlParser.Cursor.{advance, expect}
use nexus_db_main.SqlParser.Values.{
  parse_value, comp_op, parse_operator, parse_condition, parse_joined, parse_conditions,
  parse_where,
}
use nexus_db_main.SqlParser.Columns.{
  skip_length, column_type, parse_column_type, parse_constraints, parse_primary_key, parse_column,
  parse_columns, mark_primary_key, marked,
}
use nexus_db_main.SqlParser.{
  parse, parse_statement, parse_create_table, parse_drop_table, parse_names, parse_values,
  parse_column_list, parse_insert, parse_select_list, parse_filter, parse_order, parse_limit,
  parse_selected, parse_select, parse_assignment, parse_assignments, parse_update, parse_delete,
  parse_show_tables, parse_describe,
}
use nexus_db_main.Common.{ℕ, [], ◌∷◌, Bool, true, false, some, none, codes, ◌≡◌, ◌≢◌, refl}
use nexus_db_main.Common.Int.{pos, negsuc}
use nexus_db_main.Text.{str_lt}
use nexus_db_main.Types.{int, text, make_int, make_text, make_null, compare_eq, byte_of_type}
use nexus_db_main.Types.Floats.{Floats}
use nexus_db_main.Schema.{TableSchema, find_column}
use nexus_db_main.Engine.{Answers}
use nexus_db_main.MemTable as MemTable
use nexus_db_main.Catalog.{Catalog}
use nexus_db_main.SqlParser.Syntax.{InsertStmt, Condition, comp_eq, comp_ne, logic_or, logic_and}
use nexus_db_main.Executor.Values.{
  padded, evaluate_where, evaluate_condition, evaluate_conditions, evaluate_ops, evaluate_cell,
  compare_op, coerce_value,
}
use nexus_db_main.Executor.Insert.{QueryResult, insert_row, is_error}
use nexus_db_main.Executor.Shape.{IsRectangular}
use nexus_db_main.Executor.Shape.Statements.{execute_sql-IsRectangular}
use nexus_db_main.Executor.Clauses.{evaluate_where_parsed}
use nexus_db_main.Executor.Keys.{insert_row_keyless}
use nexus_db_main.Executor.{exec_show_tables, execute, execute_sql}

abbrev no_floats : Floats
no_floats = record { stod = λ s. none; of_int = λ i. 0; to_int = λ x. pos 0; to_text = λ x. [] }

abbrev all_good : Answers
all_good = record {
  append_io = record { writes = 9 ∷ 100 ∷ []; synced = true };
  flush_opened = true;
  compact_opened = true;
  truncated = true;
}

abbrev id_name : TableSchema
id_name = record {
  table_name = codes "t";
  columns =
      record { name = codes "id"; type = int; not_null = true; is_primary_key = true }
      ∷ record { name = codes "name"; type = text; not_null = false; is_primary_key = false }
      ∷ [];
  primary_key = codes "id";
}

abbrev one_table : Catalog
one_table = record {
  engine = record { log = []; memtable = MemTable.empty 1000; sstables = []; next_seq = 0 };
  cache = (codes "t", id_name) ∷ [];
}

abbrev insert_name : InsertStmt
insert_name = record {
  table_name = codes "t";
  columns = codes "name" ∷ [];
  values = make_text (codes "x") ∷ [];
}

insert_row_keyless_example :
    (r : QueryResult) × (insert_row no_floats (λ i. all_good) insert_name id_name one_table
      ≡ some (r, one_table))
    × (is_error r ≡ true)
unfolding find_column str_compare
insert_row_keyless_example =
    insert_row_keyless no_floats (λ i. all_good) insert_name id_name one_table 0 refl refl refl
      (name_ne_id, tt)
  where
    name_ne_id : codes "name" ≢ codes "id"
    name_ne_id e = cc

-- The padding sorts numbers that are not negative, and not those that are: -2 comes after -1.
padded_positive : str_lt (padded (pos 9)) (padded (pos 10)) ≡ true
unfolding padded str_compare digits
padded_positive = refl

padded_negative : str_lt (padded (negsuc 0)) (padded (negsuc 1)) ≡ true
unfolding padded str_compare digits
padded_negative = refl

-- `<>` holds of NULL.
null_differs : compare_op comp_ne (make_null int) (make_int (pos 1)) ≡ true
unfolding compare_op compare_eq
null_differs = refl

-- `a = 1 OR a = 1 AND a = 2` is read from the left: it is false where `a` is 1.
abbrev is_a : ℕ → Condition
is_a n = record { column = codes "id"; op = comp_eq; value = make_int (pos n) }

connectives_from_left :
    evaluate_where no_floats
      (record { conditions = is_a 1 ∷ is_a 1 ∷ is_a 2 ∷ []; logic_ops = logic_or ∷ logic_and ∷ [] })
      id_name
      (make_int (pos 1) ∷ make_text (codes "x") ∷ [])
    ≡ some false
unfolding evaluate_where evaluate_conditions evaluate_ops evaluate_condition evaluate_cell
    compare_op compare_eq coerce_value find_column str_compare byte_of_type
connectives_from_left = refl

evaluate_where_parsed_example :
    (b : Bool) × (evaluate_where no_floats
        (record {
          conditions =
              record { column = codes "a"; op = comp_eq; value = make_int (pos 1) }
              ∷ record { column = codes "b"; op = comp_ne; value = make_text (codes "x") }
              ∷ [];
          logic_ops = logic_or ∷ [];
        })
        id_name
        (make_int (pos 1) ∷ [])
      ≡ some b)
unfolding tokenize tokenize_loop tokenize_round skip_whitespace scan_token read_word
    read_identifier_or_keyword read_number read_number_loop read_string less greater bang
    keyword_type first_keyword keywords type_code str_compare digits in_range read_digits
    read_signed read_unsigned advance expect parse_value comp_op parse_operator parse_condition
    parse_joined parse_conditions parse_where skip_length column_type parse_column_type
    parse_constraints parse_primary_key parse_column parse_columns mark_primary_key marked parse
    parse_statement parse_create_table parse_drop_table parse_names parse_values parse_column_list
    parse_insert parse_select_list parse_filter parse_order parse_limit parse_selected parse_select
    parse_assignment parse_assignments parse_update parse_delete parse_show_tables parse_describe
evaluate_where_parsed_example =
    evaluate_where_parsed no_floats (codes "DELETE FROM t WHERE a = 1 OR b <> 'x'") id_name
      (make_int (pos 1) ∷ []) refl

execute_sql-IsRectangular_example : IsRectangular (exec_show_tables one_table)
unfolding tokenize tokenize_loop tokenize_round skip_whitespace scan_token read_word
    read_identifier_or_keyword read_number read_number_loop read_string less greater bang
    keyword_type first_keyword keywords type_code str_compare digits in_range read_digits
    read_signed read_unsigned advance expect parse_value comp_op parse_operator parse_condition
    parse_joined parse_conditions parse_where skip_length column_type parse_column_type
    parse_constraints parse_primary_key parse_column parse_columns mark_primary_key marked parse
    parse_statement parse_create_table parse_drop_table parse_names parse_values parse_column_list
    parse_insert parse_select_list parse_filter parse_order parse_limit parse_selected parse_select
    parse_assignment parse_assignments parse_update parse_delete parse_show_tables parse_describe
    execute_sql execute
execute_sql-IsRectangular_example =
    execute_sql-IsRectangular no_floats (λ before rows. rows) (λ i. all_good) (codes "SHOW TABLES")
      one_table (λ P before rows h. h) refl
