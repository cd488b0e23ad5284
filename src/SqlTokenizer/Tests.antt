-- ===== src/SqlTokenizer/Tests.antt =====
-- The scanner of SQL on fixed inputs.
use nexus_db_main.Common.{[], ◌∷◌, codes, length, ◌≡◌, refl}
use nexus_db_main.SqlTokenizer.Progress.Rounds.{Ascending, tokenize-Ascending}
use nexus_db_main.Common.Results.{returned, raised, Ensures}
use nexus_db_main.SqlTokenizer.Kinds.{
  kw_select, star, kw_from, identifier, kw_where, op_le, float_lit, string_lit, integer_lit,
  semicolon, end_of_input, keyword_type, type_code,
}
use nexus_db_main.Common.Ascii.{digits}
use nexus_db_main.Text.{str_compare}
use nexus_db_main.SqlTokenizer.{
  tokenize, tokenize_loop, tokenize_round, skip_whitespace, scan_token, read_word,
  read_identifier_or_keyword, less, bang, read_number, read_number_loop, read_string,
}

tokenize_select :
    tokenize (codes "select * FROM t1 where x<=-1.5 it 'it''s' 12;")
    ≡ returned (
        record { type = kw_select; value = codes "SELECT"; position = 0 }
        ∷ record { type = star; value = codes "*"; position = 7 }
        ∷ record { type = kw_from; value = codes "FROM"; position = 9 }
        ∷ record { type = identifier; value = codes "t1"; position = 14 }
        ∷ record { type = kw_where; value = codes "WHERE"; position = 17 }
        ∷ record { type = identifier; value = codes "x"; position = 23 }
        ∷ record { type = op_le; value = codes "<="; position = 24 }
        ∷ record { type = float_lit; value = codes "-1.5"; position = 26 }
        ∷ record { type = identifier; value = codes "it"; position = 31 }
        ∷ record { type = string_lit; value = codes "it's"; position = 34 }
        ∷ record { type = integer_lit; value = codes "12"; position = 42 }
        ∷ record { type = semicolon; value = codes ";"; position = 44 }
        ∷ record { type = end_of_input; value = []; position = 45 }
        ∷ [])
unfolding tokenize tokenize_loop tokenize_round skip_whitespace scan_token read_word
    read_identifier_or_keyword keyword_type type_code str_compare less bang digits read_number
    read_number_loop read_string
tokenize_select = refl

tokenize_bang : tokenize (codes "a !b") ≡ raised (codes "Unexpected character '!' at position 2")
unfolding tokenize tokenize_loop tokenize_round skip_whitespace scan_token read_word
    read_identifier_or_keyword keyword_type type_code str_compare less bang digits read_number
    read_number_loop read_string
tokenize_bang = refl

tokenize-Ascending_example :
    Ensures (Ascending (length (codes "a <= 'it''s'")) 0) (tokenize (codes "a <= 'it''s'"))
tokenize-Ascending_example = tokenize-Ascending (codes "a <= 'it''s'")
