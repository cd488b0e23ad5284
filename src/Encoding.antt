-- ===== src/Encoding.antt =====
-- The status codes, record types and little-endian integers of include/mosaicdb/common.h.
pub mod RoundTrip
pub mod Crc
pub mod Reads
mod Tests
use nexus_db_main.Common.{
  ℕ, zero, suc, ◌+◌, ◌*◌, ◌<◌, bit_or, List, [], ◌∷◌, Bool, true, false, Bytes, u8, u32, u64, ◌<<<◌,
  ◌>>>◌, get_or, ◌==◌, if◌then◌else◌,
}

pub data Status : Type 0 where
  ok not_found corruption io_error invalid_argument : Status

abbrev pub is_ok : Status → Bool
is_ok ok = true
is_ok _ = false

-- An `enum class OpType : uint8_t` holds any byte: a cast from a byte that names no enumerator
-- keeps it.
pub data OpType : Type 0 where
  put delete : OpType
  other : ℕ → OpType

pub record Record : Type 0 where
  pub type : OpType
  pub key : Bytes
  pub value : Bytes

unfoldable pub byte_of_op : OpType → ℕ
byte_of_op put = 0x01
byte_of_op delete = 0x02
byte_of_op (other b) = b

unfoldable pub op_of_byte : ℕ → OpType
op_of_byte b = if b == 0x01 then put else if b == 0x02 then delete else other b

unfoldable pub encode_u32_le : ℕ → Bytes
encode_u32_le val = u8 val ∷ u8 (val >>> 8) ∷ u8 (val >>> 16) ∷ u8 (val >>> 24) ∷ []

-- The callers hand a buffer of four bytes at least.
unfoldable pub decode_u32_le : Bytes → ℕ
decode_u32_le buf =
    bit_or
      (bit_or (bit_or (get_or buf 0 0) (u32 (get_or buf 1 0 <<< 8))) (u32 (get_or buf 2 0 <<< 16)))
      (u32 (get_or buf 3 0 <<< 24))

-- `for (int i = 0; i < 8; ++i) buf[i] = val >> (i * 8)`, with the rounds left.
encode_u64_loop : ℕ → ℕ → ℕ → Bytes
encode_u64_loop zero i val = []
encode_u64_loop (suc rounds) i val = u8 (val >>> (i * 8)) ∷ encode_u64_loop rounds (i + 1) val

unfoldable pub encode_u64_le : ℕ → Bytes
unfolding encode_u64_loop
encode_u64_le val = encode_u64_loop 8 0 val

decode_u64_loop : ℕ → ℕ → Bytes → ℕ → ℕ
decode_u64_loop zero i buf val = val
decode_u64_loop (suc rounds) i buf val =
    decode_u64_loop rounds (i + 1) buf (bit_or val (u64 (get_or buf i 0 <<< (i * 8))))

unfoldable pub decode_u64_le : Bytes → ℕ
unfolding decode_u64_loop
decode_u64_le buf = decode_u64_loop 8 0 buf 0
