-- ===== src/Encoding/Crc.antt =====
-- `class CRC32` of include/mosaicdb/common.h.
use nexus_db_main.Common.{
  ℕ, zero, suc, ◌+◌, ◌^◌, ◌<◌, bit_and, bit_xor, ◌≡◌, refl, [], ◌∷◌, arith, Bytes, List, u8, codes,
  get_or, ◌==◌, if◌then◌else◌, ◌>>>◌, All,
}
use nexus_db_main.Common.Bits.{bit_xor-lt}

-- One of the eight rounds on a table entry: `c & 1` selects the polynomial.
table_round : ℕ → ℕ
table_round c = if bit_and c 1 == 0 then c >>> 1 else bit_xor (c >>> 1) 0xEDB88320

table_entry : ℕ → ℕ → ℕ
table_entry zero c = c
table_entry (suc rounds) c = table_entry rounds (table_round c)

-- The entries `i`, `i + 1`, … for the rounds left.
table_from : ℕ → ℕ → List ℕ
table_from zero i = []
table_from (suc rounds) i = table_entry 8 i ∷ table_from rounds (i + 1)

build_table : List ℕ
unfolding table_round table_entry table_from
build_table = table_from 256 0

crc_loop : List ℕ → ℕ → Bytes → ℕ
crc_loop tbl crc [] = crc
crc_loop tbl crc (b ∷ data') =
    crc_loop tbl (bit_xor (crc >>> 8) (get_or tbl (u8 (bit_xor crc b)) 0)) data'

unfoldable pub compute : Bytes → ℕ
unfolding build_table crc_loop
compute bytes = bit_xor (crc_loop build_table 0xFFFFFFFF bytes) 0xFFFFFFFF

abbrev IsU32 : ℕ → Type 0
IsU32 n = n < 2 ^ 32

table_round-lt : (c : ℕ) → c < 2 ^ 32 → table_round c < 2 ^ 32
unfolding table_round
table_round-lt c h = ground (arith, bit_xor-lt 32 (c >>> 1) 0xEDB88320)

table_entry-lt : (rounds c : ℕ) → c < 2 ^ 32 → table_entry rounds c < 2 ^ 32
unfolding table_entry
table_entry-lt zero c h = h
table_entry-lt (suc rounds) c h = table_entry-lt rounds (table_round c) (table_round-lt c h)

table_from-IsU32 : (rounds i : ℕ) → rounds + i < 2 ^ 32 → All IsU32 (table_from rounds i)
unfolding table_from
table_from-IsU32 zero i h = tt
table_from-IsU32 (suc rounds) i h =
    (table_entry-lt 8 i (omega arith), table_from-IsU32 rounds (i + 1) (omega arith))

get_or-IsU32 : (tbl : List ℕ) (i : ℕ) → All IsU32 tbl → get_or tbl i 0 < 2 ^ 32
get_or-IsU32 [] i h = omega arith
get_or-IsU32 (x ∷ tbl) zero h = h.0
get_or-IsU32 (x ∷ tbl) (suc i) h = get_or-IsU32 tbl i h.1

crc_loop-lt :
    (tbl : List ℕ) (crc : ℕ) (bytes : Bytes)
    → All IsU32 tbl
    → crc < 2 ^ 32
    → crc_loop tbl crc bytes < 2 ^ 32
unfolding crc_loop
crc_loop-lt tbl crc [] ht h = h
crc_loop-lt tbl crc (b ∷ bytes) ht h =
    crc_loop-lt tbl (bit_xor (crc >>> 8) (get_or tbl (u8 (bit_xor crc b)) 0)) bytes ht (
      bit_xor-lt 32 (crc >>> 8) (get_or tbl (u8 (bit_xor crc b)) 0) (omega arith)
        (get_or-IsU32 tbl (u8 (bit_xor crc b)) ht))

pub compute-lt : (bytes : Bytes) → compute bytes < 2 ^ 32
unfolding compute
compute-lt bytes =
    bit_xor-lt 32 _ 0xFFFFFFFF
      (crc_loop-lt build_table 0xFFFFFFFF bytes (table_from-IsU32 256 0 (omega arith))
        (omega arith))
      (omega arith)

-- The check value of the CRC-32 catalogue.
compute_check : compute (codes "123456789") ≡ 0xCBF43926
unfolding compute
compute_check = refl
