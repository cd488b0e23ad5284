-- ===== src/Types.antt =====
-- include/mosaicdb/types.h: the column types and the values of the relational layer. A `double` is
-- its 64-bit pattern of IEEE 754.
pub mod Compare
pub mod Floats
pub mod Print
mod Tests
use nexus_db_main.Common.{
  ℕ, ◌+◌, ◌-◌, ◌*◌, ◌/◌, ◌%◌, ◌^◌, [], ◌∷◌, Bool, true, false, not, ◌&&◌, ◌||◌, Bytes, Option, none,
  some, codes, ltb, ◌==◌, if◌then◌else◌,
}
use nexus_db_main.Common.Int.{ℤ, pos, negsuc, eq_ℤ, ltb_ℤ}
use nexus_db_main.Text.{str_eq, str_lt}

-- The enumeration holds any byte: a cast from a byte that names no enumerator keeps it.
pub data ColumnType : Type 0 where
  int float text bool : ColumnType
  other : ℕ → ColumnType

unfoldable pub byte_of_type : ColumnType → ℕ
byte_of_type int = 0x01
byte_of_type float = 0x02
byte_of_type text = 0x03
byte_of_type bool = 0x04
byte_of_type (other b) = b

unfoldable pub type_of_byte : ℕ → ColumnType
type_of_byte b =
    if b == 0x01
    then int
    else if b == 0x02
    then float
    else if b == 0x03
    then text
    else if b == 0x04
    then bool
    else other b

unfoldable pub column_type_to_string : ColumnType → Bytes
column_type_to_string int = codes "INT"
column_type_to_string float = codes "FLOAT"
column_type_to_string text = codes "TEXT"
column_type_to_string bool = codes "BOOL"
column_type_to_string (other b) = codes "UNKNOWN"

-- `none` is the exception for an unknown name.
unfoldable pub string_to_column_type : Bytes → Option ColumnType
string_to_column_type s =
    if str_eq s (codes "INT") || str_eq s (codes "INTEGER")
    then some int
    else if str_eq s (codes "FLOAT") || str_eq s (codes "DOUBLE") || str_eq s (codes "REAL")
    then some float
    else if str_eq s (codes "TEXT") || str_eq s (codes "STRING") || str_eq s (codes "VARCHAR")
    then some text
    else if str_eq s (codes "BOOL") || str_eq s (codes "BOOLEAN")
    then some bool
    else none

pub record Value : Type 0 where
  pub type : ColumnType
  pub is_null : Bool
  pub int_val : ℤ
  pub float_val : ℕ
  pub text_val : Bytes
  pub bool_val : Bool

-- A `Value` with its default members.
abbrev pub default_value : ColumnType → Value
default_value t = record {
  type = t;
  is_null = false;
  int_val = pos 0;
  float_val = 0;
  text_val = [];
  bool_val = false;
}

abbrev pub make_int : ℤ → Value
make_int v = record (default_value int) { int_val = v }

abbrev pub make_float : ℕ → Value
make_float v = record (default_value float) { float_val = v }

abbrev pub make_text : Bytes → Value
make_text v = record (default_value text) { text_val = v }

abbrev pub make_bool : Bool → Value
make_bool v = record (default_value bool) { bool_val = v }

abbrev pub make_null : ColumnType → Value
make_null t = record (default_value t) { is_null = true }

-- The magnitude of a `double` orders it within its sign; a NaN lies past the infinities.
abbrev magnitude : ℕ → ℕ
magnitude x = x % 2 ^ 63

abbrev is_nan : ℕ → Bool
is_nan x = ltb (0x7FF * 2 ^ 52) (magnitude x)

abbrev is_negative : ℕ → Bool
is_negative x = not (x / 2 ^ 63 % 2 == 0)

-- `==` and `<` of C++ on `double`.
unfoldable pub double_eq : ℕ → ℕ → Bool
double_eq x y =
    not (is_nan x) && not (is_nan y) && (x == y || (magnitude x == 0 && magnitude y == 0))

abbrev signed_lt : Bool → Bool → ℕ → ℕ → Bool
signed_lt false false m n = ltb m n
signed_lt false true m n = false
signed_lt true false m n = not (m == 0 && n == 0)
signed_lt true true m n = ltb n m

unfoldable pub double_lt : ℕ → ℕ → Bool
double_lt x y =
    not (is_nan x)
    && not (is_nan y)
    && signed_lt (is_negative x) (is_negative y) (magnitude x) (magnitude y)

abbrev same_bool : Bool → Bool → Bool
same_bool true b = b
same_bool false b = not b

same_typed_eq : ColumnType → Value → Value → Bool
same_typed_eq int v w = eq_ℤ v.int_val w.int_val
same_typed_eq float v w = double_eq v.float_val w.float_val
same_typed_eq text v w = str_eq v.text_val w.text_val
same_typed_eq bool v w = same_bool v.bool_val w.bool_val
same_typed_eq (other b) v w = false

same_typed_lt : ColumnType → Value → Value → Bool
same_typed_lt int v w = ltb_ℤ v.int_val w.int_val
same_typed_lt float v w = double_lt v.float_val w.float_val
same_typed_lt text v w = str_lt v.text_val w.text_val
same_typed_lt bool v w = false
same_typed_lt (other b) v w = false

same_typed_gt : ColumnType → Value → Value → Bool
same_typed_gt int v w = ltb_ℤ w.int_val v.int_val
same_typed_gt float v w = double_lt w.float_val v.float_val
same_typed_gt text v w = str_lt w.text_val v.text_val
same_typed_gt bool v w = false
same_typed_gt (other b) v w = false

-- The comparisons switch on the type of the left value alone.
unfoldable pub compare_eq : Value → Value → Bool
unfolding same_typed_eq
compare_eq v w = if v.is_null || w.is_null then false else same_typed_eq v.type v w

unfoldable pub compare_lt : Value → Value → Bool
unfolding same_typed_lt
compare_lt v w = if v.is_null || w.is_null then false else same_typed_lt v.type v w

unfoldable pub compare_gt : Value → Value → Bool
unfolding same_typed_gt
compare_gt v w = if v.is_null || w.is_null then false else same_typed_gt v.type v w
