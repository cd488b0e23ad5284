-- ===== src/Row/RoundTrip.antt =====
-- `deserialize` undoes `serialize` on the values that the program makes.
use nexus_db_main.Common.{
  ℕ, ◌^◌, ◌<◌, List, [], ◌∷◌, ◌++◌, Bool, Bytes, some, length, u32, ◌≡◌, refl, append_assoc, All,
  arith,
}
use native.Mathlib.Nat.{mod-eq_of_lt}
use nexus_db_main.Common.Int.{ℤ, IsI64, u64_of_i64, i64_of_u64-u64_of_i64, u64_of_i64-lt}
use nexus_db_main.Encoding.{encode_u32_le, encode_u64_le}
use nexus_db_main.Encoding.Reads.{read_byte, read_u32-encode, read_u64-encode, read_string-append}
use nexus_db_main.Types.{
  ColumnType, Value, byte_of_type, type_of_byte, make_int, make_float, make_text, make_bool,
  make_null,
}
use nexus_db_main.Schema.{flag, sized}
use nexus_db_main.Schema.RoundTrip.{IsNamed, type_of_byte-byte_of_type, not-flag}
use nexus_db_main.Row.{
  payload_bytes, value_bytes, values_bytes, serialize, read_payload, read_value, read_values,
  deserialize,
}

-- The values that the five factories make, with integers, floats and texts that fit.
pub data Made (v : Value) : Type 0 where
  an_int : (i : ℤ) → IsI64 i → v ≡ make_int i → Made v
  a_float : (x : ℕ) → x < 2 ^ 64 → v ≡ make_float x → Made v
  a_text : (s : Bytes) → length s < 2 ^ 32 → v ≡ make_text s → Made v
  a_bool : (b : Bool) → v ≡ make_bool b → Made v
  a_null : (t : ColumnType) → IsNamed t → v ≡ make_null t → Made v

read_int :
    (i : ℤ) (rest : Bytes)
    → IsI64 i
    → read_value (value_bytes (make_int i) ++ rest) ≡ some (make_int i ∷ [], rest)
unfolding read_value value_bytes payload_bytes read_payload read_byte byte_of_type type_of_byte
read_int i rest h = rw (
  append_assoc (encode_u32_le 8) (encode_u64_le (u64_of_i64 i)) rest,
  read_u32-encode 8 (encode_u64_le (u64_of_i64 i) ++ rest) (omega arith),
  read_u64-encode (u64_of_i64 i) rest (u64_of_i64-lt i),
  i64_of_u64-u64_of_i64 i h,
)

read_float :
    (x : ℕ) (rest : Bytes)
    → x < 2 ^ 64
    → read_value (value_bytes (make_float x) ++ rest) ≡ some (make_float x ∷ [], rest)
unfolding read_value value_bytes payload_bytes read_payload read_byte byte_of_type type_of_byte
read_float x rest h = rw (
  append_assoc (encode_u32_le 8) (encode_u64_le x) rest,
  read_u32-encode 8 (encode_u64_le x ++ rest) (omega arith),
  read_u64-encode x rest h,
)

read_bool :
    (b : Bool) (rest : Bytes)
    → read_value (value_bytes (make_bool b) ++ rest) ≡ some (make_bool b ∷ [], rest)
unfolding read_value value_bytes payload_bytes read_payload read_byte byte_of_type type_of_byte
read_bool b rest = rw (
  append_assoc (encode_u32_le 1) (flag b ∷ []) rest,
  read_u32-encode 1 (flag b ∷ rest) (omega arith),
  not-flag b,
)

read_null :
    (t : ColumnType) (rest : Bytes)
    → IsNamed t
    → read_value (value_bytes (make_null t) ++ rest) ≡ some (make_null t ∷ [], rest)
unfolding read_value value_bytes read_byte
read_null t rest h = rw (read_u32-encode 0 rest (omega arith), type_of_byte-byte_of_type t h)

read_text :
    (s rest : Bytes)
    → length s < 2 ^ 32
    → read_value (value_bytes (make_text s) ++ rest) ≡ some (make_text s ∷ [], rest)
unfolding read_value value_bytes payload_bytes read_payload read_byte byte_of_type type_of_byte
    sized
read_text s rest h = rw (
  mod-eq_of_lt h,
  append_assoc (encode_u32_le (length s)) s rest,
  read_u32-encode (length s) (s ++ rest) h,
  read_string-append s rest,
)

read_value-value_bytes :
    (v : Value) (rest : Bytes) → Made v → read_value (value_bytes v ++ rest) ≡ some (v ∷ [], rest)
read_value-value_bytes v rest (an_int i h e) = rw e (read_int i rest h)
read_value-value_bytes v rest (a_float x h e) = rw e (read_float x rest h)
read_value-value_bytes v rest (a_text s h e) = rw e (read_text s rest h)
read_value-value_bytes v rest (a_bool b e) = rw e (read_bool b rest)
read_value-value_bytes v rest (a_null t h e) = rw e (read_null t rest h)

read_values-values_bytes :
    (vs : List Value) (rest : Bytes)
    → All Made vs
    → read_values (length vs) (values_bytes vs ++ rest) ≡ some (vs, rest)
unfolding read_values values_bytes
read_values-values_bytes [] rest h = refl
read_values-values_bytes (v ∷ vs) rest h = rw (
  append_assoc (value_bytes v) (values_bytes vs) rest,
  read_value-value_bytes v (values_bytes vs ++ rest) h.0,
  read_values-values_bytes vs rest h.1,
)

-- A row of values that the program can make, fewer than 2^32 of them, is read back as it was
-- written, whatever bytes follow it.
pub row_round_trip :
    (vs : List Value) (rest : Bytes)
    → length vs < 2 ^ 32
    → All Made vs
    → deserialize (serialize vs ++ rest) ≡ some vs
unfolding deserialize serialize
row_round_trip vs rest n h = rw (
  append_assoc (encode_u32_le (u32 (length vs))) (values_bytes vs) rest,
  mod-eq_of_lt n,
  read_u32-encode (length vs) (values_bytes vs ++ rest) n,
  read_values-values_bytes vs rest h,
)
