-- ===== src/Server/Messages.antt =====
-- The messages that src/network/server.cpp receives and sends.
use nexus_db_main.Common.{ℕ, List, [], ◌∷◌, ◌++◌, Bytes, length, u32}
use nexus_db_main.Encoding.{encode_u32_le}
use nexus_db_main.Types.{Value}
use nexus_db_main.Types.Floats.{Floats}
use nexus_db_main.Types.Print.{value_text}
use nexus_db_main.Executor.Insert.{QueryResult}

pub record Request : Type 0 where
  pub type : ℕ
  pub key : Bytes
  pub value : Bytes

pub record Reply : Type 0 where
  pub status : ℕ
  pub value : Bytes

-- A length and the bytes.
unfoldable pub text_bytes : Bytes → Bytes
text_bytes s = encode_u32_le (u32 (length s)) ++ s

unfoldable pub entries_bytes : List (Bytes × Bytes) → Bytes
entries_bytes [] = []
entries_bytes ((k, v) ∷ entries) =
    encode_u32_le (u32 (length k))
    ++ (encode_u32_le (u32 (length v)) ++ (k ++ (v ++ entries_bytes entries)))

unfoldable pub scan_bytes : List (Bytes × Bytes) → Bytes
scan_bytes entries = encode_u32_le (u32 (length entries)) ++ entries_bytes entries

unfoldable pub texts_bytes : List Bytes → Bytes
texts_bytes [] = []
texts_bytes (s ∷ texts) = text_bytes s ++ texts_bytes texts

unfoldable pub row_texts : Floats → List Value → List Bytes
row_texts floats [] = []
row_texts floats (v ∷ row) = value_text floats v ∷ row_texts floats row

unfoldable pub rows_bytes : Floats → List (List Value) → Bytes
rows_bytes floats [] = []
rows_bytes floats (row ∷ rows) = texts_bytes (row_texts floats row) ++ rows_bytes floats rows

-- The answer to a statement of SQL.
unfoldable pub result_bytes : Floats → QueryResult → Bytes
result_bytes floats r =
    text_bytes r.message
    ++ (encode_u32_le (u32 (length r.column_names))
        ++ (texts_bytes r.column_names
            ++ (encode_u32_le (u32 (length r.rows)) ++ rows_bytes floats r.rows)))

unfoldable pub reply_header : Reply → Bytes
reply_header r = r.status ∷ encode_u32_le (u32 (length r.value))
