-- ===== src/Schema.antt =====
-- include/mosaicdb/schema.h: column definitions, table schemas and their byte form.
pub mod RoundTrip
pub mod Columns
mod Tests
use nexus_db_main.Common.{
  ℕ, zero, suc, ◌+◌, List, [], ◌∷◌, ◌++◌, Bool, true, false, not, Bytes, Option, none, some, length,
  u32, ◌==◌, if◌then◌else◌, ◌>>=◌,
}
use nexus_db_main.Text.{str_eq}
use nexus_db_main.Encoding.{encode_u32_le}
use nexus_db_main.Encoding.Reads.{read_byte, read_u32, read_string}
use nexus_db_main.Types.{ColumnType, byte_of_type, type_of_byte}

pub record ColumnDef : Type 0 where
  pub name : Bytes
  pub type : ColumnType
  pub not_null : Bool
  pub is_primary_key : Bool

pub record TableSchema : Type 0 where
  pub table_name : Bytes
  pub columns : List ColumnDef
  pub primary_key : Bytes

find_from : ℕ → Bytes → List ColumnDef → Option ℕ
find_from i name [] = none
find_from i name (col ∷ cols) = if str_eq col.name name then some i else find_from (i + 1) name cols

-- `none` is the result -1.
unfoldable pub find_column : TableSchema → Bytes → Option ℕ
unfolding find_from
find_column schema name = find_from 0 name schema.columns

abbrev pub flag : Bool → ℕ
flag true = 1
flag false = 0

-- A length and the bytes.
unfoldable pub sized : Bytes → Bytes
sized s = encode_u32_le (u32 (length s)) ++ s

unfoldable pub column_bytes : ColumnDef → Bytes
column_bytes col =
    sized col.name ++ (byte_of_type col.type ∷ flag col.not_null ∷ flag col.is_primary_key ∷ [])

unfoldable pub columns_bytes : List ColumnDef → Bytes
columns_bytes [] = []
columns_bytes (col ∷ cols) = column_bytes col ++ columns_bytes cols

unfoldable pub serialize : TableSchema → Bytes
serialize schema =
    sized schema.table_name
    ++ (sized schema.primary_key
        ++ (encode_u32_le (u32 (length schema.columns)) ++ columns_bytes schema.columns))

unfoldable pub read_sized : Bytes → Option (Bytes × Bytes)
read_sized bytes = do (len, rest) ← read_u32 bytes; read_string len rest

unfoldable pub read_column : Bytes → Option (ColumnDef × Bytes)
read_column bytes = do
  (name, rest) ← read_sized bytes
  (type, rest₁) ← read_byte rest
  (not_null, rest₂) ← read_byte rest₁
  (is_pk, rest₃) ← read_byte rest₂
  some (
    record {
      name = name;
      type = type_of_byte type;
      not_null = not (not_null == 0);
      is_primary_key = not (is_pk == 0);
    },
    rest₃,
  )

unfoldable pub read_columns : ℕ → Bytes → Option (List ColumnDef × Bytes)
read_columns zero bytes = some ([], bytes)
read_columns (suc n) bytes = do
  (col, rest) ← read_column bytes
  (cols, rest₁) ← read_columns n rest
  some (col ∷ cols, rest₁)

-- No bound is checked: `none` is a read past the end.
unfoldable pub deserialize : Bytes → Option TableSchema
deserialize bytes = do
  (table_name, rest) ← read_sized bytes
  (primary_key, rest₁) ← read_sized rest
  (col_count, rest₂) ← read_u32 rest₁
  (columns, rest₃) ← read_columns col_count rest₂
  some (record { table_name = table_name; columns = columns; primary_key = primary_key })
