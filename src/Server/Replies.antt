-- ===== src/Server/Replies.antt =====
-- The client of client/mosaic_client.py reads back what the server wrote.
use nexus_db_main.Common.{
  ℕ, ◌<◌, ◌^◌, List, [], ◌∷◌, ◌++◌, Bytes, some, length, All, u32, ◌≡◌, arith,
}
use nexus_db_main.Encoding.{encode_u32_le}
use nexus_db_main.Encoding.Reads.{read_u32, read_u32-encode}
use nexus_db_main.Types.{Value}
use nexus_db_main.Types.Floats.{Floats}
use nexus_db_main.Server.Messages.{row_texts}

-- Texts whose lengths 32 bits hold.
abbrev pub IsShort : Bytes → Type 0
IsShort s = length s < 2 ^ 32

abbrev pub IsShortEntry : Bytes × Bytes → Type 0
IsShortEntry (k, v) = IsShort k × IsShort v

u32-short : (n : ℕ) → n < 2 ^ 32 → u32 n ≡ n
u32-short n h = omega arith

read_sized :
    (n : ℕ) (rest : Bytes) → n < 2 ^ 32 → read_u32 (encode_u32_le (u32 n) ++ rest) ≡ some (n, rest)
read_sized n rest h = rw (u32-short n h) (read_u32-encode n rest h)

-- A row of `n` values whose texts are short.
abbrev pub IsShortRow : Floats → ℕ → List Value → Type 0
IsShortRow floats n row = (length row ≡ n) × All IsShort (row_texts floats row)

unfoldable pub all_texts : Floats → List (List Value) → List (List Bytes)
all_texts floats [] = []
all_texts floats (row ∷ rows) = row_texts floats row ∷ all_texts floats rows
