-- ===== src/SqlTokenizer.antt =====
-- `class SQLTokenizer`: include/mosaicdb/sql_tokenizer.h and src/sql/sql_tokenizer.cpp. The cursor
-- `pos_` of `input_` is the pair of what is left of the input and the position.
pub mod Kinds
pub mod Progress
mod Tests
use nexus_db_main.Common.{
  ℕ, zero, suc, ◌+◌, List, [], ◌∷◌, ◌++◌, Bool, true, false, not, ◌&&◌, ◌||◌, Option, none, some,
  Bytes, codes, length, map, ◌==◌, if◌then◌else◌,
}
use nexus_db_main.Common.Ascii.{is_space, is_digit, is_alpha, to_upper, to_string}
use nexus_db_main.Common.Results.{Result, returned, raised, out_of_fuel, ◌>>=◌}
use nexus_db_main.SqlTokenizer.Kinds.{
  TokenType, integer_lit, float_lit, string_lit, identifier, op_eq, op_ne, op_lt, op_gt, op_le,
  op_ge, comma, lparen, rparen, semicolon, star, dot, end_of_input, keyword_type, same_type,
}

pub record Token : Type 0 where
  pub type : TokenType
  pub value : Bytes
  pub position : ℕ

pub record Cursor : Type 0 where
  pub rest : Bytes
  pub pos : ℕ

-- The end reads as a zero byte.
abbrev pub peek : Bytes → ℕ
peek [] = 0
peek (c ∷ cs) = c

unfoldable pub skip_whitespace : Bytes → ℕ → Cursor
skip_whitespace [] p = record { rest = []; pos = p }
skip_whitespace (c ∷ cs) p = elim (is_space c) [
  | true ↦ skip_whitespace cs (p + 1)
  | false ↦ record { rest = c ∷ cs; pos = p }
]

-- A token's text and the cursor behind it.
pub record Scanned : Type 0 where
  pub type : TokenType
  pub value : Bytes
  pub rest : Bytes
  pub pos : ℕ

abbrev pub cons_value : ℕ → Scanned → Scanned
cons_value c s = record s { value = c ∷ s.value }

unfoldable pub read_number_loop : Bool → Bytes → ℕ → Scanned
read_number_loop has_dot [] p = record {
  type = if has_dot then float_lit else integer_lit;
  value = [];
  rest = [];
  pos = p;
}
read_number_loop has_dot (c ∷ cs) p =
    let stop : Scanned = record {
      type = if has_dot then float_lit else integer_lit;
      value = [];
      rest = c ∷ cs;
      pos = p;
    } in
    elim (c == b'.') [
      | true ↦ elim has_dot [
        | true ↦ stop
        | false ↦ cons_value c (read_number_loop true cs (p + 1))
      ]
      | false ↦ elim (is_digit c) [
        | true ↦ cons_value c (read_number_loop has_dot cs (p + 1))
        | false ↦ stop
      ]
    ]

unfoldable pub read_number : Bytes → ℕ → Scanned
read_number [] p = read_number_loop false [] p
read_number (c ∷ cs) p =
    if c == b'-'
    then cons_value c (read_number_loop false cs (p + 1))
    else read_number_loop false (c ∷ cs) p

abbrev pub string_token : Bytes → ℕ → Scanned
string_token cs p = record { type = string_lit; value = []; rest = cs; pos = p }

-- The loop behind the opening quote. The end of the input closes the literal.
unfoldable pub read_string : ℕ → Bytes → ℕ → Scanned
read_string quote [] p = string_token [] p
read_string quote (c ∷ []) p =
    if c == quote then string_token [] (p + 1) else cons_value c (string_token [] (p + 1))
read_string quote (c ∷ d ∷ cs) p = elim (c == quote) [
  | true ↦ elim (d == quote) [
    | true ↦ cons_value quote (read_string quote cs (p + 2))
    | false ↦ string_token (d ∷ cs) (p + 1)
  ]
  | false ↦ cons_value c (read_string quote (d ∷ cs) (p + 1))
]

abbrev pub is_word : ℕ → Bool
is_word c = is_alpha c || is_digit c || c == b'_'

-- The word at the front, as an identifier.
unfoldable pub read_word : Bytes → ℕ → Scanned
read_word [] p = record { type = identifier; value = []; rest = []; pos = p }
read_word (c ∷ cs) p = elim (is_word c) [
  | true ↦ cons_value c (read_word cs (p + 1))
  | false ↦ record { type = identifier; value = []; rest = c ∷ cs; pos = p }
]

-- The original case for identifiers, upper case for keywords.
unfoldable pub read_identifier_or_keyword : Bytes → ℕ → Scanned
read_identifier_or_keyword cs p =
    let word = read_word cs p in
    let t = keyword_type word.value in
    if same_type t identifier
    then word
    else record word { type = t; value = map to_upper word.value }

abbrev pub unexpected : ℕ → ℕ → Bytes
unexpected c start =
    codes "Unexpected character '" ++ (c ∷ (codes "' at position " ++ to_string start))

abbrev pub symbol : TokenType → Bytes → Bytes → ℕ → Result Scanned
symbol t text cs p = returned (record { type = t; value = text; rest = cs; pos = p + length text })

-- `<` and what may follow it.
unfoldable pub less : Bytes → ℕ → Result Scanned
less [] p = symbol op_lt (codes "<") [] p
less (d ∷ cs) p =
    if d == b'='
    then symbol op_le (codes "<=") cs p
    else if d == b'>'
    then symbol op_ne (codes "<>") cs p
    else symbol op_lt (codes "<") (d ∷ cs) p

unfoldable pub greater : Bytes → ℕ → Result Scanned
greater [] p = symbol op_gt (codes ">") [] p
greater (d ∷ cs) p =
    if d == b'=' then symbol op_ge (codes ">=") cs p else symbol op_gt (codes ">") (d ∷ cs) p

unfoldable pub bang : Bytes → ℕ → Result Scanned
bang [] p = raised (unexpected b'!' p)
bang (d ∷ cs) p = if d == b'=' then symbol op_ne (codes "!=") cs p else raised (unexpected b'!' p)

-- The token that starts at the byte `c`, in front of `cs`.
unfoldable pub scan_token : ℕ → Bytes → ℕ → Result Scanned
scan_token c cs p =
    if is_alpha c || c == b'_'
    then returned (read_identifier_or_keyword (c ∷ cs) p)
    else if is_digit c || (c == b'-' && is_digit (peek cs))
    then returned (read_number (c ∷ cs) p)
    else if c == b'\'' || c == b'"'
    then returned (read_string c cs (p + 1))
    else if c == b'('
    then symbol lparen (codes "(") cs p
    else if c == b')'
    then symbol rparen (codes ")") cs p
    else if c == b','
    then symbol comma (codes ",") cs p
    else if c == b';'
    then symbol semicolon (codes ";") cs p
    else if c == b'*'
    then symbol star (codes "*") cs p
    else if c == b'.'
    then symbol dot (codes ".") cs p
    else if c == b'='
    then symbol op_eq (codes "=") cs p
    else if c == b'<'
    then less cs p
    else if c == b'>'
    then greater cs p
    else if c == b'!'
    then bang cs p
    else raised (unexpected c p)

abbrev pub token_at : ℕ → Scanned → Token
token_at start s = record { type = s.type; value = s.value; position = start }

abbrev pub end_token : ℕ → List Token
end_token p = record { type = end_of_input; value = []; position = p } ∷ []

-- One round of the loop of `tokenize`, behind the white space.
unfoldable pub tokenize_round : (Cursor → Result (List Token)) → Bytes → ℕ → Result (List Token)
tokenize_round next [] p = returned (end_token p)
tokenize_round next (c ∷ cs) p = do
  s ← scan_token c cs p
  tokens ← next (record { rest = s.rest; pos = s.pos })
  returned (token_at p s ∷ tokens)

-- One unit of fuel for each token.
unfoldable pub tokenize_loop : ℕ → Cursor → Result (List Token)
tokenize_loop zero at = out_of_fuel
tokenize_loop (suc f) at =
    let next = skip_whitespace at.rest at.pos in
    tokenize_round (λ later. tokenize_loop f later) next.rest next.pos

unfoldable pub tokenize : Bytes → Result (List Token)
tokenize input = tokenize_loop (suc (length input)) (record { rest = input; pos = 0 })
