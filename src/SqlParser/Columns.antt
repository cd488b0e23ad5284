-- ===== src/SqlParser/Columns.antt =====
-- `parse_column_type` and the loops of `parse_create_table` of src/sql/sql_parser.cpp.
use nexus_db_main.Common.{
  ℕ, zero, suc, List, [], ◌∷◌, ◌++◌, Bytes, true, false, ◌||◌, codes, if◌then◌else◌, is_empty,
}
use nexus_db_main.Common.Results.{raised, out_of_fuel}
use nexus_db_main.Types.{ColumnType, int, float, text, bool}
use nexus_db_main.Text.{str_eq}
use nexus_db_main.Schema.{ColumnDef}
use nexus_db_main.SqlTokenizer.Kinds.{
  TokenType, kw_int, kw_integer, kw_float, kw_real, kw_double, kw_text, kw_string, kw_varchar,
  kw_bool, kw_boolean, lparen, rparen, kw_primary, kw_key, kw_not, kw_null, comma, identifier,
}
use nexus_db_main.SqlParser.Cursor.{
  Reader, pure, ◌>>=◌, ◌>>◌, matches, at_end, advance, expect, when_matches, remaining,
}

-- The optional `(N)`.
unfoldable pub skip_length : Reader ColumnType
skip_length = when_matches lparen (do advance; advance; expect rparen; pure text) (pure text)

unfoldable pub column_type : TokenType → Reader ColumnType
unfolding skip_length
column_type kw_int = pure int
column_type kw_integer = pure int
column_type kw_float = pure float
column_type kw_real = pure float
column_type kw_double = pure float
column_type kw_text = skip_length
column_type kw_string = skip_length
column_type kw_varchar = skip_length
column_type kw_bool = pure bool
column_type kw_boolean = pure bool
column_type _ = λ p.
    raised (codes "SQL parse error: expected column type, got '" ++ (p.previous.value ++ codes "'"))

unfoldable pub parse_column_type : Reader ColumnType
parse_column_type p = (advance >> column_type p.current.type) p

-- The fields that the loops of `parse_create_table` set.
pub record Created : Type 0 where
  pub columns : List ColumnDef
  pub primary_key : Bytes

-- The column's constraints, and the primary key of the statement.
unfoldable pub parse_constraints : ℕ → ColumnDef → Bytes → Reader (ColumnDef × Bytes)
parse_constraints zero col pk = λ p. out_of_fuel
parse_constraints (suc f) col pk = λ p. elim (matches comma p || matches rparen p || at_end p) [
  | true ↦ pure (col, pk) p
  | false ↦
      when_matches kw_primary
        (do
          advance
          expect kw_key
          parse_constraints f (record col { is_primary_key = true }) col.name)
        (when_matches kw_not
          (do advance; expect kw_null; parse_constraints f (record col { not_null = true }) pk)
          (pure (col, pk)))
        p
]

unfoldable pub parse_primary_key : Created → Reader Created
parse_primary_key made = do
  advance
  expect kw_key
  expect lparen
  pk ← expect identifier
  expect rparen
  pure (record made { primary_key = pk.value })

unfoldable pub parse_column : Created → Reader Created
parse_column made = do
  name ← expect identifier
  t ← parse_column_type
  constrained ← λ p.
      parse_constraints (suc (remaining p))
        (record { name = name.value; type = t; not_null = false; is_primary_key = false })
        made.primary_key p
  pure (record { columns = made.columns ++ (constrained.0 ∷ []); primary_key = constrained.1 })

abbrev pub skip_comma : Reader (Unit {0})
skip_comma = when_matches comma advance (pure tt)

-- The loop over the columns, on one unit of fuel for each.
unfoldable pub parse_columns : ℕ → Created → Reader Created
parse_columns zero made = λ p. out_of_fuel
parse_columns (suc f) made = λ p. elim (matches rparen p || at_end p) [
  | true ↦ pure made p
  | false ↦
      (do
        next ← when_matches kw_primary (parse_primary_key made) (parse_column made)
        skip_comma
        parse_columns f next)
        p
]

unfoldable pub mark_primary_key : Bytes → List ColumnDef → List ColumnDef
mark_primary_key pk [] = []
mark_primary_key pk (col ∷ cols) =
    (if str_eq col.name pk then record col { is_primary_key = true; not_null = true } else col)
    ∷ mark_primary_key pk cols

unfoldable pub marked : Created → List ColumnDef
unfolding mark_primary_key
marked made =
    if is_empty made.primary_key
    then made.columns
    else mark_primary_key made.primary_key made.columns
