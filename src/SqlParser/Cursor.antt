-- ===== src/SqlParser/Cursor.antt =====
-- `tokens_` and `pos_` of the parser of src/sql/sql_parser.cpp: the token at `pos_`, the one before
-- it and those behind it. The last token is never left.
use nexus_db_main.Common.{
  ℕ, List, [], ◌∷◌, ◌++◌, Bytes, Bool, true, false, ◌||◌, codes, length, if◌then◌else◌,
}
use nexus_db_main.Common.Ascii.{to_string}
use nexus_db_main.Common.Results
use nexus_db_main.Common.Results.{Result, returned, raised, out_of_fuel}
use nexus_db_main.SqlTokenizer.{Token}
use nexus_db_main.SqlTokenizer.Kinds.{TokenType, same_type, type_code, end_of_input, semicolon}

pub record Parser : Type 0 where
  pub previous : Token
  pub current : Token
  pub following : List Token

abbrev pub remaining : Parser → ℕ
remaining p = length p.following

-- A step of the parser on its cursor.
abbrev pub Reader {ℓ} : Type ℓ → Type ℓ
Reader A = Parser → Result (A × Parser)

abbrev pub pure {ℓ} : {A : Type ℓ} → A → Reader A
pure a p = returned (a, p)

module _ {ℓ κ} {A : Type ℓ} {B : Type κ} where
  infixl 5 ◌>>=◌ ◌>>◌
  abbrev pub ◌>>=◌ : Reader A → (A → Reader B) → Reader B
  m >>= f = λ p. Results.◌>>=◌ (m p) λ (a, q). f a q

  abbrev pub ◌>>◌ : Reader A → Reader B → Reader B
  m >> k = m >>= λ a. k

-- The parser at a list of tokens, behind `previous`; `current` serves where there is none.
abbrev pub move : Token → Token → List Token → Parser
move previous current [] = record { previous = previous; current = current; following = [] }
move previous current (t ∷ ts) = record { previous = current; current = t; following = ts }

abbrev pub matches : TokenType → Parser → Bool
matches t p = same_type p.current.type t

abbrev pub at_end : Parser → Bool
at_end p = matches end_of_input p || matches semicolon p

unfoldable pub peek_next : Parser → Token
peek_next p = elim p.following [ [] ↦ p.current | ◌∷◌ t ts ↦ t ]

unfoldable pub advance : Reader (Unit {0})
advance p = returned (tt, move p.previous p.current p.following)

abbrev pub expected : TokenType → Token → Bytes
expected t got =
    codes "SQL parse error: expected token type "
    ++ (to_string (type_code t)
        ++ (codes " but got '"
            ++ (got.value ++ (codes "' at position " ++ to_string got.position))))

unfoldable pub expect : TokenType → Reader Token
unfolding advance
expect t p =
    if matches t p
    then Results.◌>>=◌ (advance p) (λ (u, q). returned (p.current, q))
    else raised (expected t p.current)

-- `if (match(t)) yes else no`.
abbrev pub when_matches {ℓ} : {A : Type ℓ} → TokenType → Reader A → Reader A → Reader A
when_matches t here other = λ p. elim (matches t p) [ true ↦ here p | false ↦ other p ]
