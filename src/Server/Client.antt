-- ===== src/Server/Client.antt =====
-- client/mosaic_client.py: the requests it writes and how it reads the answers. The texts are kept as
-- the bytes of their encoding. `none` is an exception, for a read past the end.
use nexus_db_main.Common.{
  ℕ, zero, suc, List, [], ◌∷◌, ◌++◌, Bytes, Option, some, length, take, drop, ltb, if◌then◌else◌,
  ◌>>=◌,
}
use nexus_db_main.Encoding.{encode_u32_le}
use nexus_db_main.Encoding.Reads.{read_u32}
use nexus_db_main.Server.Messages.{Request}

-- `struct.pack("<BII", ...)` throws for a size that 32 bits do not hold: the requests here are smaller.
unfoldable pub request_bytes : Request → Bytes
request_bytes r =
    r.type
    ∷ (encode_u32_le (length r.key) ++ (encode_u32_le (length r.value) ++ (r.key ++ r.value)))

-- A slice past the end is shorter.
unfoldable pub read_entries : ℕ → Bytes → Option (List (Bytes × Bytes))
read_entries zero bytes = some []
read_entries (suc n) bytes = if ltb (length bytes) 8 then some [] else (do
  (ks, rest) ← read_u32 bytes
  (vs, rest₁) ← read_u32 rest
  let later = drop vs (drop ks rest₁)
  entries ← read_entries n later
  some ((take ks rest₁, take vs (drop ks rest₁)) ∷ entries))

unfoldable pub read_scan : Bytes → Option (List (Bytes × Bytes))
read_scan value =
    if ltb (length value) 4
    then some []
    else (do (count, rest) ← read_u32 value; read_entries count rest)

unfoldable pub read_texts : ℕ → Bytes → Option (List Bytes × Bytes)
read_texts zero bytes = some ([], bytes)
read_texts (suc n) bytes = do
  (len, rest) ← read_u32 bytes
  (texts, rest₁) ← read_texts n (drop len rest)
  some (take len rest ∷ texts, rest₁)

unfoldable pub read_rows : ℕ → ℕ → Bytes → Option (List (List Bytes) × Bytes)
read_rows zero col_count bytes = some ([], bytes)
read_rows (suc n) col_count bytes = do
  (row, rest) ← read_texts col_count bytes
  (rows, rest₁) ← read_rows n col_count rest
  some (row ∷ rows, rest₁)

-- What `execute_sql` returns beside `ok`.
pub record Answer : Type 0 where
  pub message : Bytes
  pub columns : List Bytes
  pub rows : List (List Bytes)

unfoldable pub read_result : Bytes → Option Answer
read_result value = do
  (msg_len, rest) ← read_u32 value
  let message = take msg_len rest
  (col_count, rest₁) ← read_u32 (drop msg_len rest)
  (columns, rest₂) ← read_texts col_count rest₁
  (row_count, rest₃) ← read_u32 rest₂
  (rows, rest₄) ← read_rows row_count col_count rest₃
  some (record { message = message; columns = columns; rows = rows })
