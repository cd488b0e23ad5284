-- ===== src/Encoding/Reads.antt =====
-- Reads at a moving position in a byte string, as the deserialisers make them. They check no bound:
-- `none` is a read past the end.
use nexus_db_main.Common.{
  ℕ, ◌^◌, ◌<◌, ◌≡◌, refl, [], ◌∷◌, ◌++◌, Option, none, some, Bytes, ◌>>=◌, length,
}
use nexus_db_main.Common.Reads.{read_exactly, read_exactly-append}
use nexus_db_main.Encoding.{encode_u32_le, decode_u32_le, encode_u64_le, decode_u64_le}
use nexus_db_main.Encoding.RoundTrip.{
  decode_u32_le-encode_self, decode_u64_le-encode_self, length-encode_u32_le, length-encode_u64_le,
}

-- p[pos++]
unfoldable pub read_byte : Bytes → Option (ℕ × Bytes)
read_byte [] = none
read_byte (b ∷ rest) = some (b, rest)

unfoldable pub read_u32 : Bytes → Option (ℕ × Bytes)
read_u32 bytes = do (buf, rest) ← read_exactly 4 bytes; some (decode_u32_le buf, rest)

unfoldable pub read_u64 : Bytes → Option (ℕ × Bytes)
read_u64 bytes = do (buf, rest) ← read_exactly 8 bytes; some (decode_u64_le buf, rest)

unfoldable pub read_string : ℕ → Bytes → Option (Bytes × Bytes)
read_string len bytes = read_exactly len bytes

pub read_byte-cons : (b : ℕ) (rest : Bytes) → read_byte (b ∷ rest) ≡ some (b, rest)
unfolding read_byte
read_byte-cons b rest = refl

pub read_u32-encode :
    (n : ℕ) (rest : Bytes) → n < 2 ^ 32 → read_u32 (encode_u32_le n ++ rest) ≡ some (n, rest)
unfolding read_u32
read_u32-encode n rest h = rw (
  read_exactly-append 4 (encode_u32_le n) rest (length-encode_u32_le n),
  decode_u32_le-encode_self n h,
)

pub read_u64-encode :
    (n : ℕ) (rest : Bytes) → n < 2 ^ 64 → read_u64 (encode_u64_le n ++ rest) ≡ some (n, rest)
unfolding read_u64
read_u64-encode n rest h = rw (
  read_exactly-append 8 (encode_u64_le n) rest (length-encode_u64_le n),
  decode_u64_le-encode_self n h,
)

pub read_string-append : (s rest : Bytes) → read_string (length s) (s ++ rest) ≡ some (s, rest)
unfolding read_string
read_string-append s rest = read_exactly-append (length s) s rest refl
