-- ===== src/Row.antt =====
-- `class RowSerializer`: include/mosaicdb/row.h and src/relational/row.cpp. The schema argument of
-- both methods is not used by the source, and left out.
pub mod RoundTrip
mod Tests
use nexus_db_main.Common.{
  ℕ, zero, suc, List, [], ◌∷◌, ◌++◌, Bool, true, false, not, Bytes, Option, none, some, length, u32,
  ◌==◌, if◌then◌else◌, ◌>>=◌,
}
use nexus_db_main.Common.Int.{u64_of_i64, i64_of_u64}
use nexus_db_main.Encoding.{encode_u32_le, encode_u64_le}
use nexus_db_main.Encoding.Reads.{read_byte, read_u32, read_u64, read_string}
use nexus_db_main.Types.{
  ColumnType, int, float, text, bool, other, Value, byte_of_type, type_of_byte, make_int,
  make_float, make_text, make_bool, make_null,
}
use nexus_db_main.Schema.{flag, sized}

-- The switch on the type of a value that is not NULL.
unfoldable pub payload_bytes : ColumnType → Value → Bytes
payload_bytes int v = encode_u32_le 8 ++ encode_u64_le (u64_of_i64 v.int_val)
payload_bytes float v = encode_u32_le 8 ++ encode_u64_le v.float_val
payload_bytes text v = sized v.text_val
payload_bytes bool v = encode_u32_le 1 ++ (flag v.bool_val ∷ [])
payload_bytes (other b) v = []

unfoldable pub value_bytes : Value → Bytes
value_bytes v =
    byte_of_type v.type
    ∷ flag v.is_null
    ∷ (if v.is_null then encode_u32_le 0 else payload_bytes v.type v)

unfoldable pub values_bytes : List Value → Bytes
values_bytes [] = []
values_bytes (v ∷ vs) = value_bytes v ++ values_bytes vs

unfoldable pub serialize : List Value → Bytes
serialize values = encode_u32_le (u32 (length values)) ++ values_bytes values

-- The switch of `deserialize`. A type that names no enumerator pushes no value.
unfoldable pub read_payload : ColumnType → ℕ → Bytes → Option (List Value × Bytes)
read_payload int val_len bytes = do
  (raw, rest) ← read_u64 bytes
  some (make_int (i64_of_u64 raw) ∷ [], rest)
read_payload float val_len bytes = do (raw, rest) ← read_u64 bytes; some (make_float raw ∷ [], rest)
read_payload text val_len bytes = do
  (v, rest) ← read_string val_len bytes
  some (make_text v ∷ [], rest)
read_payload bool val_len bytes = do
  (b, rest) ← read_byte bytes
  some (make_bool (not (b == 0)) ∷ [], rest)
read_payload (other b) val_len bytes = some ([], bytes)

-- One round of the loop: the values pushed and the bytes left.
unfoldable pub read_value : Bytes → Option (List Value × Bytes)
read_value bytes = do
  (type, rest) ← read_byte bytes
  (is_null, rest₁) ← read_byte rest
  (val_len, rest₂) ← read_u32 rest₁
  if is_null == 0
      then read_payload (type_of_byte type) val_len rest₂
      else some (make_null (type_of_byte type) ∷ [], rest₂)

unfoldable pub read_values : ℕ → Bytes → Option (List Value × Bytes)
read_values zero bytes = some ([], bytes)
read_values (suc n) bytes = do
  (pushed, rest) ← read_value bytes
  (vs, rest₁) ← read_values n rest
  some (pushed ++ vs, rest₁)

-- No bound is checked: `none` is a read past the end.
unfoldable pub deserialize : Bytes → Option (List Value)
deserialize bytes = do
  (col_count, rest) ← read_u32 bytes
  (values, rest₁) ← read_values col_count rest
  some values
