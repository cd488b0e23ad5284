-- ===== src/Cli/Tests.antt =====
-- A session with the command line.
use nexus_db_main.SqlTokenizer.{
  tokenize, tokenize_loop, tokenize_round, skip_whitespace, scan_token, read_word,
  read_identifier_or_keyword, read_number, read_number_loop, read_string, less, greater, bang,
}
use nexus_db_main.SqlTokenizer.Kinds.{keyword_type, first_keyword, keywords, type_code}
use nexus_db_main.Text.{str_compare}
use nexus_db_main.Common.Ascii.{
  digits, to_string_ℤ, in_range, read_digits, read_signed, read_unsigned,
}
use nexus_db_main.SqlParser.Cursor.{advance, expect}
use nexus_db_main.SqlParser.Values.{
  parse_value, comp_op, parse_operator, parse_condition, parse_joined, parse_conditions,
  parse_where,
}
use nexus_db_main.SqlParser.Columns.{
  skip_length, column_type, parse_column_type, parse_constraints, parse_primary_key, parse_column,
  parse_columns, mark_primary_key, marked,
}
use nexus_db_main.SqlParser.{
  parse, parse_statement, parse_create_table, parse_drop_table, parse_names, parse_values,
  parse_column_list, parse_insert, parse_select_list, parse_filter, parse_order, parse_limit,
  parse_selected, parse_select, parse_assignment, parse_assignments, parse_update, parse_delete,
  parse_show_tables, parse_describe,
}
use nexus_db_main.Common.{suc, [], ◌∷◌, none, true, some, codes, All, ◌≡◌, refl, arith}
use nexus_db_main.Common.Int.{pos}
use nexus_db_main.Types.{make_int, make_text}
use nexus_db_main.Types.Floats.{Floats}
use nexus_db_main.Schema.{TableSchema}
use nexus_db_main.Engine.{Answers}
use nexus_db_main.MemTable as MemTable
use nexus_db_main.Catalog.{Catalog, list_tables, names_of}
use nexus_db_main.Executor.{
  exec_show_tables, execute, execute_sql, sort_names, insert_name, name_rows,
}
use nexus_db_main.Types.Print.{value_text, typed_text}
use nexus_db_main.Cli.{
  widen, widen_all, column_widths, separator_cells, header_cells, row_cells, row_lines, print_table,
  session,
}
use nexus_db_main.Cli.Aligned.{IsInt, HasLength, cells_width, print_table-IsAligned}

abbrev no_floats : Floats
no_floats = record { stod = λ s. none; of_int = λ i. 0; to_int = λ x. pos 0; to_text = λ x. [] }

abbrev answers : Answers
answers = record {
  append_io = record { writes = 9 ∷ 100 ∷ []; synced = true };
  flush_opened = true;
  compact_opened = true;
  truncated = true;
}

abbrev long_name : TableSchema
long_name = record { table_name = codes "a_long_name"; columns = []; primary_key = codes "id" }

abbrev catalog : Catalog
catalog = record {
  engine = record { log = []; memtable = MemTable.empty 1000; sstables = []; next_seq = 0 };
  cache = (codes "a_long_name", long_name) ∷ [];
}

table_of_rows :
    print_table no_floats
      (codes "id" ∷ codes "n" ∷ [])
      ((make_int (pos 7) ∷ make_text (codes "xyz") ∷ []) ∷ [])
    ≡ codes "+----+-----+"
      ∷ codes "| id | n   |"
      ∷ codes "+----+-----+"
      ∷ codes "| 7  | xyz |"
      ∷ codes "+----+-----+"
      ∷ []
unfolding print_table widen_all widen separator_cells header_cells row_lines row_cells value_text
    typed_text to_string_ℤ digits
table_of_rows = refl

widths-IsInt : All IsInt (
    column_widths no_floats (exec_show_tables catalog).column_names (exec_show_tables catalog).rows)
unfolding exec_show_tables name_rows sort_names insert_name list_tables names_of widen_all widen
    value_text typed_text
widths-IsInt = (omega arith, tt)

print_table-IsAligned_example :
    All
      (HasLength (
        suc (
          cells_width (
            column_widths no_floats
              (exec_show_tables catalog).column_names
              (exec_show_tables catalog).rows))))
      (print_table no_floats
        (exec_show_tables catalog).column_names
        (exec_show_tables catalog).rows)
unfolding tokenize tokenize_loop tokenize_round skip_whitespace scan_token read_word
    read_identifier_or_keyword read_number read_number_loop read_string less greater bang
    keyword_type first_keyword keywords type_code str_compare digits in_range read_digits
    read_signed read_unsigned advance expect parse_value comp_op parse_operator parse_condition
    parse_joined parse_conditions parse_where skip_length column_type parse_column_type
    parse_constraints parse_primary_key parse_column parse_columns mark_primary_key marked parse
    parse_statement parse_create_table parse_drop_table parse_names parse_values parse_column_list
    parse_insert parse_select_list parse_filter parse_order parse_limit parse_selected parse_select
    parse_assignment parse_assignments parse_update parse_delete parse_show_tables parse_describe
    execute_sql execute
print_table-IsAligned_example =
    print_table-IsAligned no_floats (λ before rows. rows) (λ i. answers) (codes "SHOW TABLES")
      catalog catalog (exec_show_tables catalog) (λ P before rows h. h) refl widths-IsInt

-- The lines behind `quit` are not read.
session_quits :
    session no_floats
      (λ before rows. rows)
      (λ i j. answers)
      0
      ([] ∷ codes "quit" ∷ codes "DROP TABLE t" ∷ [])
      catalog
    ≡ some (codes "MosaicSQL> MosaicSQL> ", catalog)
unfolding session str_compare
session_quits = refl
