-- ===== src/SqlTokenizer/Kinds.antt =====
-- The kinds of token and the keyword table of src/sql/sql_tokenizer.cpp.
use nexus_db_main.Common.{ℕ, List, [], ◌∷◌, Bool, Bytes, codes, map, ◌==◌, if◌then◌else◌}
use nexus_db_main.Common.Ascii.{to_upper}
use nexus_db_main.Text.{str_eq}

pub data TokenType : Type 0 where
  kw_create kw_table kw_drop kw_insert kw_into kw_values : TokenType
  kw_select kw_from kw_where kw_update kw_set kw_delete : TokenType
  kw_and kw_or kw_not kw_null kw_primary kw_key : TokenType
  kw_int kw_float kw_text kw_bool kw_integer kw_real : TokenType
  kw_varchar kw_boolean kw_string kw_double : TokenType
  kw_not_null kw_true kw_false kw_if kw_exists : TokenType
  kw_order kw_by kw_asc kw_desc kw_limit : TokenType
  kw_show kw_tables kw_describe : TokenType
  integer_lit float_lit string_lit : TokenType
  identifier : TokenType
  op_eq op_ne op_lt op_gt op_le op_ge : TokenType
  comma lparen rparen semicolon star dot : TokenType
  end_of_input : TokenType

-- The value of the enumerator, as the messages of the parser print it.
unfoldable pub type_code : TokenType → ℕ
type_code kw_create = 0
type_code kw_table = 1
type_code kw_drop = 2
type_code kw_insert = 3
type_code kw_into = 4
type_code kw_values = 5
type_code kw_select = 6
type_code kw_from = 7
type_code kw_where = 8
type_code kw_update = 9
type_code kw_set = 10
type_code kw_delete = 11
type_code kw_and = 12
type_code kw_or = 13
type_code kw_not = 14
type_code kw_null = 15
type_code kw_primary = 16
type_code kw_key = 17
type_code kw_int = 18
type_code kw_float = 19
type_code kw_text = 20
type_code kw_bool = 21
type_code kw_integer = 22
type_code kw_real = 23
type_code kw_varchar = 24
type_code kw_boolean = 25
type_code kw_string = 26
type_code kw_double = 27
type_code kw_not_null = 28
type_code kw_true = 29
type_code kw_false = 30
type_code kw_if = 31
type_code kw_exists = 32
type_code kw_order = 33
type_code kw_by = 34
type_code kw_asc = 35
type_code kw_desc = 36
type_code kw_limit = 37
type_code kw_show = 38
type_code kw_tables = 39
type_code kw_describe = 40
type_code integer_lit = 41
type_code float_lit = 42
type_code string_lit = 43
type_code identifier = 44
type_code op_eq = 45
type_code op_ne = 46
type_code op_lt = 47
type_code op_gt = 48
type_code op_le = 49
type_code op_ge = 50
type_code comma = 51
type_code lparen = 52
type_code rparen = 53
type_code semicolon = 54
type_code star = 55
type_code dot = 56
type_code end_of_input = 57

-- `==` on the enumeration.
abbrev pub same_type : TokenType → TokenType → Bool
same_type a b = type_code a == type_code b

pub record Keyword : Type 0 where
  pub word : Bytes
  pub kind : TokenType

abbrev pub keyword : Bytes → TokenType → Keyword
keyword w t = record { word = w; kind = t }

-- The comparisons of `keyword_type`, in their order.
unfoldable pub keywords : List Keyword
keywords =
    keyword (codes "CREATE") kw_create
    ∷ keyword (codes "TABLE") kw_table
    ∷ keyword (codes "DROP") kw_drop
    ∷ keyword (codes "INSERT") kw_insert
    ∷ keyword (codes "INTO") kw_into
    ∷ keyword (codes "VALUES") kw_values
    ∷ keyword (codes "SELECT") kw_select
    ∷ keyword (codes "FROM") kw_from
    ∷ keyword (codes "WHERE") kw_where
    ∷ keyword (codes "UPDATE") kw_update
    ∷ keyword (codes "SET") kw_set
    ∷ keyword (codes "DELETE") kw_delete
    ∷ keyword (codes "AND") kw_and
    ∷ keyword (codes "OR") kw_or
    ∷ keyword (codes "NOT") kw_not
    ∷ keyword (codes "NULL") kw_null
    ∷ keyword (codes "PRIMARY") kw_primary
    ∷ keyword (codes "KEY") kw_key
    ∷ keyword (codes "INT") kw_int
    ∷ keyword (codes "INTEGER") kw_integer
    ∷ keyword (codes "FLOAT") kw_float
    ∷ keyword (codes "REAL") kw_real
    ∷ keyword (codes "DOUBLE") kw_double
    ∷ keyword (codes "TEXT") kw_text
    ∷ keyword (codes "STRING") kw_string
    ∷ keyword (codes "VARCHAR") kw_varchar
    ∷ keyword (codes "BOOL") kw_bool
    ∷ keyword (codes "BOOLEAN") kw_boolean
    ∷ keyword (codes "TRUE") kw_true
    ∷ keyword (codes "FALSE") kw_false
    ∷ keyword (codes "IF") kw_if
    ∷ keyword (codes "EXISTS") kw_exists
    ∷ keyword (codes "ORDER") kw_order
    ∷ keyword (codes "BY") kw_by
    ∷ keyword (codes "ASC") kw_asc
    ∷ keyword (codes "DESC") kw_desc
    ∷ keyword (codes "LIMIT") kw_limit
    ∷ keyword (codes "SHOW") kw_show
    ∷ keyword (codes "TABLES") kw_tables
    ∷ keyword (codes "DESCRIBE") kw_describe
    ∷ []

unfoldable pub first_keyword : List Keyword → Bytes → TokenType
first_keyword [] upper = identifier
first_keyword (k ∷ ks) upper = if str_eq upper k.word then k.kind else first_keyword ks upper

unfoldable pub keyword_type : Bytes → TokenType
unfolding keywords first_keyword
keyword_type word = first_keyword keywords (map to_upper word)
