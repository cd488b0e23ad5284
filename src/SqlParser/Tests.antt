-- ===== src/SqlParser/Tests.antt =====
-- The parser of SQL on fixed inputs.
use nexus_db_main.SqlTokenizer.{
  tokenize, tokenize_loop, tokenize_round, skip_whitespace, scan_token, read_word,
  read_identifier_or_keyword, read_number, read_number_loop, read_string, less, greater, bang,
}
use nexus_db_main.SqlTokenizer.Kinds.{keyword_type, first_keyword, keywords, type_code}
use nexus_db_main.Text.{str_compare}
use nexus_db_main.Common.Ascii.{digits, in_range, read_digits, read_signed, read_unsigned}
use nexus_db_main.SqlParser.Cursor.{advance, expect}
use nexus_db_main.SqlParser.Values.{
  parse_value, comp_op, parse_operator, parse_condition, parse_joined, parse_conditions,
  parse_where,
}
use nexus_db_main.SqlParser.Columns.{
  skip_length, column_type, parse_column_type, parse_constraints, parse_primary_key, parse_column,
  parse_columns, mark_primary_key, marked,
}
use nexus_db_main.SqlParser.{
  parse, parse_statement, parse_create_table, parse_drop_table, parse_names, parse_values,
  parse_column_list, parse_insert, parse_select_list, parse_filter, parse_order, parse_limit,
  parse_selected, parse_select, parse_assignment, parse_assignments, parse_update, parse_delete,
  parse_show_tables, parse_describe,
}
use nexus_db_main.Common.{[], ◌∷◌, codes, ◌≢◌, ◌≡◌, refl, true, false, none}
use nexus_db_main.Common.Int.{pos, negsuc}
use nexus_db_main.SqlParser.Progress.Statements.{parse_ends}
use nexus_db_main.Common.Results.{returned, out_of_fuel}
use nexus_db_main.Types.{int, text, make_int, make_text}
use nexus_db_main.Types.Floats.{Floats}
use nexus_db_main.SqlParser.Syntax.{
  delete, no_where, select, create_table, comp_ge, comp_ne, logic_or,
}

abbrev no_floats : Floats
no_floats = record { stod = λ s. none; of_int = λ i. 0; to_int = λ x. pos 0; to_text = λ x. [] }

parse_text_of_select :
    parse no_floats
      (codes "SELECT a, b FROM t WHERE a >= -3 OR b <> 'x' ORDER BY a DESC LIMIT 2 junk")
    ≡ returned (
        select (record {
          table_name = codes "t";
          columns = codes "a" ∷ codes "b" ∷ [];
          select_all = false;
          filter = record {
            conditions =
                record { column = codes "a"; op = comp_ge; value = make_int (negsuc 2) }
                ∷ record { column = codes "b"; op = comp_ne; value = make_text (codes "x") }
                ∷ [];
            logic_ops = logic_or ∷ [];
          };
          order_by = codes "a";
          order_desc = true;
          limit = pos 2;
        }))
unfolding tokenize tokenize_loop tokenize_round skip_whitespace scan_token read_word
    read_identifier_or_keyword read_number read_number_loop read_string less greater bang
    keyword_type first_keyword keywords type_code str_compare digits in_range read_digits
    read_signed read_unsigned advance expect parse_value comp_op parse_operator parse_condition
    parse_joined parse_conditions parse_where skip_length column_type parse_column_type
    parse_constraints parse_primary_key parse_column parse_columns mark_primary_key marked parse
    parse_statement parse_create_table parse_drop_table parse_names parse_values parse_column_list
    parse_insert parse_select_list parse_filter parse_order parse_limit parse_selected parse_select
    parse_assignment parse_assignments parse_update parse_delete parse_show_tables parse_describe
parse_text_of_select = refl

parse_text_of_create :
    parse no_floats (codes "create table t (id INT primary key, name VARCHAR(20) not null)")
    ≡ returned (
        create_table (record {
          table_name = codes "t";
          columns =
              record { name = codes "id"; type = int; not_null = true; is_primary_key = true }
              ∷ record { name = codes "name"; type = text; not_null = true; is_primary_key = false }
              ∷ [];
          primary_key = codes "id";
        }))
unfolding tokenize tokenize_loop tokenize_round skip_whitespace scan_token read_word
    read_identifier_or_keyword read_number read_number_loop read_string less greater bang
    keyword_type first_keyword keywords type_code str_compare digits in_range read_digits
    read_signed read_unsigned advance expect parse_value comp_op parse_operator parse_condition
    parse_joined parse_conditions parse_where skip_length column_type parse_column_type
    parse_constraints parse_primary_key parse_column parse_columns mark_primary_key marked parse
    parse_statement parse_create_table parse_drop_table parse_names parse_values parse_column_list
    parse_insert parse_select_list parse_filter parse_order parse_limit parse_selected parse_select
    parse_assignment parse_assignments parse_update parse_delete parse_show_tables parse_describe
parse_text_of_create = refl

parse_ends_example : parse no_floats (codes "SELECT a FROM") ≢ out_of_fuel
parse_ends_example = parse_ends no_floats (codes "SELECT a FROM")

-- What follows a whole statement is not looked at: a misspelt WHERE deletes every row.
parse_text_of_misspelt :
    parse no_floats (codes "DELETE FROM t wehre id = 1")
    ≡ returned (delete (record { table_name = codes "t"; filter = no_where }))
unfolding tokenize tokenize_loop tokenize_round skip_whitespace scan_token read_word
    read_identifier_or_keyword read_number read_number_loop read_string less greater bang
    keyword_type first_keyword keywords type_code str_compare digits in_range read_digits
    read_signed read_unsigned advance expect parse_value comp_op parse_operator parse_condition
    parse_joined parse_conditions parse_where skip_length column_type parse_column_type
    parse_constraints parse_primary_key parse_column parse_columns mark_primary_key marked parse
    parse_statement parse_create_table parse_drop_table parse_names parse_values parse_column_list
    parse_insert parse_select_list parse_filter parse_order parse_limit parse_selected parse_select
    parse_assignment parse_assignments parse_update parse_delete parse_show_tables parse_describe
parse_text_of_misspelt = refl
