-- ===== src/Encoding/RoundTrip.antt =====
-- Decoding undoes encoding, for the integers of 32 and 64 bits.
use nexus_db_main.Common.{
  append-nil, [], ℕ, ◌+◌, ◌*◌, ◌%◌, ◌^◌, ◌<◌, bit_or, ◌≡◌, ◌≢◌, ◌∙◌, refl, ◌∷◌, ◌++◌, arith, Bytes,
  IsByte, u8, length, All, u64, ◌<<<◌, ◌>>>◌,
}
use native.Mathlib.Nat.{mod-eq_of_lt}
use nexus_db_main.Common.Bits.{bit_or_fields}
use nexus_db_main.Encoding.{
  encode_u32_le, decode_u32_le, encode_u64_le, decode_u64_le, OpType, put, delete, other,
  byte_of_op, op_of_byte,
}

-- One `|` of a byte into the place above the bytes read so far.
or_byte :
    (w k acc b : ℕ)
    → acc < 2 ^ k
    → b * 2 ^ k < 2 ^ w
    → bit_or acc ((b <<< k) % 2 ^ w) ≡ acc + b * 2 ^ k
or_byte w k acc b h fits = rw (mod-eq_of_lt fits) (bit_or_fields k acc b h)

-- Four bytes read as their sum.
decode_u32_le-sum :
    (a b c d : ℕ) (rest : Bytes)
    → IsByte a
    → IsByte b
    → IsByte c
    → IsByte d
    → decode_u32_le (a ∷ b ∷ c ∷ d ∷ rest) ≡ a + b * 2 ^ 8 + c * 2 ^ 16 + d * 2 ^ 24
unfolding decode_u32_le
decode_u32_le-sum a b c d rest ha hb hc hd = rw (
  or_byte 32 8 a b (omega arith) (omega arith),
  or_byte 32 16 (a + b * 2 ^ 8) c (omega arith) (omega arith),
  or_byte 32 24 (a + b * 2 ^ 8 + c * 2 ^ 16) d (omega arith) (omega arith),
)

-- `decode_u32_le` reads back the 32-bit integer that `encode_u32_le` wrote, whatever follows it.
pub decode_u32_le-encode_u32_le :
    (val : ℕ) (rest : Bytes) → val < 2 ^ 32 → decode_u32_le (encode_u32_le val ++ rest) ≡ val
unfolding encode_u32_le
decode_u32_le-encode_u32_le val rest h =
    rw
      (decode_u32_le-sum (u8 val) (u8 (val >>> 8)) (u8 (val >>> 16)) (u8 (val >>> 24)) rest
        (omega arith) (omega arith) (omega arith) (omega arith))
      (omega arith)

-- The `|` of the next byte at a place `k`, where the sum of the two parts is what is meant.
next_byte :
    (k acc b sum : ℕ)
    → acc < 2 ^ k
    → b * 2 ^ k < 2 ^ 64
    → acc + b * 2 ^ k ≡ sum
    → bit_or acc (u64 (b <<< k)) ≡ sum
next_byte k acc b sum h fits e = or_byte 64 k acc b h fits ∙ e

-- `decode_u64_le` reads back the 64-bit integer that `encode_u64_le` wrote, whatever follows it.
pub decode_u64_le-encode_u64_le :
    (val : ℕ) (rest : Bytes) → val < 2 ^ 64 → decode_u64_le (encode_u64_le val ++ rest) ≡ val
unfolding encode_u64_le decode_u64_le
decode_u64_le-encode_u64_le val rest h =
    rw
      (
        next_byte 0 0 (u8 (val >>> 0)) (val % 2 ^ 8) (omega arith) (omega arith) (omega arith),
        next_byte 8 (val % 2 ^ 8) (u8 (val >>> 8)) (val % 2 ^ 16) (omega arith) (omega arith)
            (omega arith),
        next_byte 16 (val % 2 ^ 16) (u8 (val >>> 16)) (val % 2 ^ 24) (omega arith) (omega arith)
            (omega arith),
        next_byte 24 (val % 2 ^ 24) (u8 (val >>> 24)) (val % 2 ^ 32) (omega arith) (omega arith)
            (omega arith),
        next_byte 32 (val % 2 ^ 32) (u8 (val >>> 32)) (val % 2 ^ 40) (omega arith) (omega arith)
            (omega arith),
        next_byte 40 (val % 2 ^ 40) (u8 (val >>> 40)) (val % 2 ^ 48) (omega arith) (omega arith)
            (omega arith),
        next_byte 48 (val % 2 ^ 48) (u8 (val >>> 48)) (val % 2 ^ 56) (omega arith) (omega arith)
            (omega arith),
        next_byte 56 (val % 2 ^ 56) (u8 (val >>> 56)) (val % 2 ^ 64) (omega arith) (omega arith)
            (omega arith),
      )
      (omega arith)

pub decode_u32_le-encode_self : (val : ℕ) → val < 2 ^ 32 → decode_u32_le (encode_u32_le val) ≡ val
decode_u32_le-encode_self val h =
    rw (append-nil (encode_u32_le val)) at (decode_u32_le-encode_u32_le val [] h)

pub decode_u64_le-encode_self : (val : ℕ) → val < 2 ^ 64 → decode_u64_le (encode_u64_le val) ≡ val
decode_u64_le-encode_self val h =
    rw (append-nil (encode_u64_le val)) at (decode_u64_le-encode_u64_le val [] h)

pub length-encode_u32_le : (val : ℕ) → length (encode_u32_le val) ≡ 4
unfolding encode_u32_le
length-encode_u32_le val = refl

pub length-encode_u64_le : (val : ℕ) → length (encode_u64_le val) ≡ 8
unfolding encode_u64_le
length-encode_u64_le val = refl

pub encode_u32_le-IsByte : (val : ℕ) → All IsByte (encode_u32_le val)
unfolding encode_u32_le
encode_u32_le-IsByte val = omega arith

pub encode_u64_le-IsByte : (val : ℕ) → All IsByte (encode_u64_le val)
unfolding encode_u64_le
encode_u64_le-IsByte val = omega arith

-- The operations that are written out by one byte only.
abbrev pub IsCanonical : OpType → Type 0
IsCanonical (other b) = (b ≢ 0x01) × (b ≢ 0x02) × IsByte b
IsCanonical _ = Unit {0}

pub op_of_byte-byte_of_op : (t : OpType) → IsCanonical t → op_of_byte (byte_of_op t) ≡ t
unfolding op_of_byte byte_of_op
op_of_byte-byte_of_op put h = refl
op_of_byte-byte_of_op delete h = refl
op_of_byte-byte_of_op (other b) h = ground arith
