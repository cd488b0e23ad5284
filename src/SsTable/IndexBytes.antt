-- ===== src/SsTable/IndexBytes.antt =====
-- The reader finds the filter and the index that were written.
use nexus_db_main.Common.{
  ℕ, suc, ◌+◌, ◌-◌, ◌^◌, ◌<◌, ◌%◌, List, [], ◌∷◌, ◌++◌, Bytes, false, some, ◌≡◌, refl, sym, length,
  take_all, drop, u32, arith, append_assoc, ◌==◌, Bool-cases, inl, inr, All,
}
use native.Mathlib.Nat.{mod-eq_of_lt}
use nexus_db_main.Common.Reads.{read_exactly-append}
use nexus_db_main.Encoding.{encode_u32_le, encode_u64_le, decode_u32_le, decode_u64_le}
use nexus_db_main.Encoding.RoundTrip.{decode_u32_le-encode_u32_le, decode_u64_le-encode_self}
use nexus_db_main.BloomFilter.{BloomFilter, from_data}
use nexus_db_main.BloomFilter.Shape.{Small}
use nexus_db_main.SsTable.{DataEntry, IndexEntry, sparse_index_interval}
use nexus_db_main.SsTable.Writer.{bloom_bytes, index_entry_bytes, index_bytes}
use nexus_db_main.SsTable.Reader.{Footer, read_bloom, read_index_entry, read_index_loop}
use nexus_db_main.SsTable.Data.{
  entry_size, FitsEntry, data_size, sizes, length-sizes, first_size, second_size,
}
use nexus_db_main.SsTable.Layout.{index_of}
use nexus_db_main.SsTable.FooterBytes.{seek-append}

bloom_parts :
    (b : BloomFilter) (rest : Bytes)
    → bloom_bytes b ++ rest ≡ sizes b.num_bits b.num_hashes ++ (b.bits ++ rest)
unfolding bloom_bytes sizes
bloom_parts b rest = rw (
  append_assoc (encode_u32_le b.num_bits) (encode_u32_le b.num_hashes ++ b.bits) rest,
  append_assoc (encode_u32_le b.num_hashes) b.bits rest,
  append_assoc (encode_u32_le b.num_bits) (encode_u32_le b.num_hashes) (b.bits ++ rest),
)

bloom_data_size : (n : ℕ) → 8 + n < 2 ^ 32 → u32 (8 + n + (2 ^ 32 - 8)) ≡ n
bloom_data_size n h = omega arith

not_zero : (n : ℕ) → (8 + n == 0) ≡ false
not_zero n = ground arith

pub read_bloom-bloom_bytes :
    (f : Footer) (b : BloomFilter) (front rest : Bytes)
    → Small b
    → f.bloom_offset ≡ length front
    → f.bloom_size ≡ 8 + length b.bits
    → length front < 2 ^ 63
    → read_bloom f (front ++ (bloom_bytes b ++ rest)) ≡ some (some b)
unfolding read_bloom from_data
read_bloom-bloom_bytes f b front rest s eo es h = rw (
  es,
  not_zero (length b.bits),
  seek-append f.bloom_offset front (bloom_bytes b ++ rest) (sym eo) (omega arith),
  bloom_parts b rest,
  read_exactly-append 8 (sizes b.num_bits b.num_hashes) (b.bits ++ rest) (length-sizes _ _),
  bloom_data_size (length b.bits) s.bytes_fit,
  read_exactly-append (length b.bits) b.bits rest refl,
  first_size b.num_bits b.num_hashes s.bits_fit,
  second_size b.num_bits b.num_hashes s.hashes_fit,
)

abbrev FitsIndex : IndexEntry → Type 0
FitsIndex (key, offset) = (length key < 2 ^ 32) × (offset < 2 ^ 64)

pub index_of-Fits :
    (i offset : ℕ) (es : List DataEntry)
    → All FitsEntry es
    → offset + data_size es < 2 ^ 64
    → All FitsIndex (index_of i offset es)
index_of-Fits i offset [] h b = tt
index_of-Fits i offset ((key, val) ∷ es) h b =
    let rest = index_of-Fits (suc i) (offset + entry_size (key, val)) es h.1 (omega arith) in
    elim (Bool-cases (i % sparse_index_interval == 0)) [
      | inl c ↦ rw c ((omega arith, omega arith), rest)
      | inr c ↦ rw c rest
    ]

index_header : ℕ → ℕ → Bytes
index_header size offset = encode_u32_le size ++ encode_u64_le offset

length-index_header : (size offset : ℕ) → length (index_header size offset) ≡ 12
unfolding index_header encode_u32_le encode_u64_le
length-index_header size offset = refl

index_size_there :
    (size offset : ℕ) → size < 2 ^ 32 → decode_u32_le (index_header size offset) ≡ size
unfolding index_header
index_size_there size offset h = decode_u32_le-encode_u32_le size (encode_u64_le offset) h

index_position_there :
    (size offset : ℕ) → offset < 2 ^ 64 → decode_u64_le (drop 4 (index_header size offset)) ≡ offset
unfolding index_header encode_u32_le
index_position_there size offset h = decode_u64_le-encode_self offset h

index_entry_parts :
    (key : Bytes) (offset : ℕ) (rest : Bytes)
    → (encode_u32_le (length key) ++ (encode_u64_le offset ++ key)) ++ rest
      ≡ index_header (length key) offset ++ (key ++ rest)
unfolding index_header
index_entry_parts key offset rest = rw (
  append_assoc (encode_u32_le (length key)) (encode_u64_le offset ++ key) rest,
  append_assoc (encode_u64_le offset) key rest,
  append_assoc (encode_u32_le (length key)) (encode_u64_le offset) (key ++ rest),
)

read_index_entry-bytes :
    (key : Bytes) (offset : ℕ) (rest : Bytes)
    → FitsIndex (key, offset)
    → read_index_entry (index_entry_bytes (key, offset) ++ rest) ≡ some ((key, offset), rest)
unfolding read_index_entry index_entry_bytes
read_index_entry-bytes key offset rest h = rw (
  mod-eq_of_lt {n = length key} {m = 2 ^ 32} h.0,
  take_all key,
  index_entry_parts key offset rest,
  read_exactly-append 12 (index_header (length key) offset) (key ++ rest)
      (length-index_header (length key) offset),
  index_size_there (length key) offset h.0,
  index_position_there (length key) offset h.1,
  read_exactly-append (length key) key rest refl,
)

pub read_index_loop-index_bytes :
    (index : List IndexEntry) (rest : Bytes)
    → All FitsIndex index
    → read_index_loop (length index) (index_bytes index ++ rest) ≡ some index
unfolding read_index_loop index_bytes
read_index_loop-index_bytes [] rest h = refl
read_index_loop-index_bytes ((key, offset) ∷ index) rest h = rw (
  append_assoc (index_entry_bytes (key, offset)) (index_bytes index) rest,
  read_index_entry-bytes key offset (index_bytes index ++ rest) h.0,
  read_index_loop-index_bytes index rest h.1,
)
