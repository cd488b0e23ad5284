-- ===== src/Schema/RoundTrip.antt =====
-- `deserialize` undoes `serialize`.
use nexus_db_main.Common.{
  ◌^◌, ◌<◌, List, [], ◌∷◌, ◌++◌, Bool, true, false, not, Bytes, some, length, u32, ◌==◌, ◌≡◌, refl,
  append_assoc, All,
}
use native.Mathlib.Nat.{mod-eq_of_lt}
use nexus_db_main.Encoding.{encode_u32_le}
use nexus_db_main.Encoding.Reads.{read_byte, read_u32-encode, read_string-append}
use nexus_db_main.Types.{ColumnType, int, float, text, bool, other, byte_of_type, type_of_byte}
use nexus_db_main.Schema.{
  ColumnDef, TableSchema, sized, column_bytes, columns_bytes, serialize, read_sized, read_column,
  read_columns, deserialize, flag,
}

-- The type names an enumerator.
abbrev pub IsNamed : ColumnType → Type 0
IsNamed (other b) = ⊥
IsNamed _ = Unit {0}

pub type_of_byte-byte_of_type : (t : ColumnType) → IsNamed t → type_of_byte (byte_of_type t) ≡ t
unfolding type_of_byte byte_of_type
type_of_byte-byte_of_type int h = refl
type_of_byte-byte_of_type float h = refl
type_of_byte-byte_of_type text h = refl
type_of_byte-byte_of_type bool h = refl
type_of_byte-byte_of_type (other b) h = absurd h

pub not-flag : (b : Bool) → not (flag b == 0) ≡ b
not-flag true = refl
not-flag false = refl

pub read_sized-sized :
    (s rest : Bytes) → length s < 2 ^ 32 → read_sized (sized s ++ rest) ≡ some (s, rest)
unfolding read_sized sized
read_sized-sized s rest h =
    rw
      (
        mod-eq_of_lt h,
        append_assoc (encode_u32_le (length s)) s rest,
        read_u32-encode (length s) (s ++ rest) h,
      )
      (read_string-append s rest)

-- The columns and schemas whose lengths fit their fields.
pub record FitsColumn (col : ColumnDef) : Type 0 where
  pub name_fits : length col.name < 2 ^ 32
  pub named : IsNamed col.type

pub record Fits (schema : TableSchema) : Type 0 where
  pub name_fits : length schema.table_name < 2 ^ 32
  pub key_fits : length schema.primary_key < 2 ^ 32
  pub count_fits : length schema.columns < 2 ^ 32
  pub columns_fit : All FitsColumn schema.columns

read_column-column_bytes :
    (col : ColumnDef) (rest : Bytes)
    → FitsColumn col
    → read_column (column_bytes col ++ rest) ≡ some (col, rest)
unfolding read_column column_bytes read_byte
read_column-column_bytes col rest h = rw (
  append_assoc,
  read_sized-sized col.name _ h.name_fits,
  type_of_byte-byte_of_type col.type h.named,
  not-flag col.not_null,
  not-flag col.is_primary_key,
)

read_columns-columns_bytes :
    (cols : List ColumnDef) (rest : Bytes)
    → All FitsColumn cols
    → read_columns (length cols) (columns_bytes cols ++ rest) ≡ some (cols, rest)
unfolding read_columns columns_bytes
read_columns-columns_bytes [] rest h = refl
read_columns-columns_bytes (col ∷ cols) rest h = rw (
  append_assoc (column_bytes col) (columns_bytes cols) rest,
  read_column-column_bytes col (columns_bytes cols ++ rest) h.0,
  read_columns-columns_bytes cols rest h.1,
)

-- A schema whose lengths fit 32 bits and whose types are INT, FLOAT, TEXT or BOOL is read back as
-- it was written, whatever bytes follow it.
pub schema_round_trip :
    (schema : TableSchema) (rest : Bytes)
    → Fits schema
    → deserialize (serialize schema ++ rest) ≡ some schema
unfolding deserialize serialize
schema_round_trip schema rest h = rw (
  append_assoc (sized schema.table_name) _ rest,
  append_assoc (sized schema.primary_key) _ rest,
  append_assoc (encode_u32_le (u32 (length schema.columns))) _ rest,
  read_sized-sized schema.table_name _ h.name_fits,
  read_sized-sized schema.primary_key _ h.key_fits,
  mod-eq_of_lt h.count_fits,
  read_u32-encode (length schema.columns) _ h.count_fits,
  read_columns-columns_bytes schema.columns rest h.columns_fit,
)
