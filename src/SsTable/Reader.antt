-- ===== src/SsTable/Reader.antt =====
-- The constructor of `SSTableReader` and `validate`, of src/storage/sstable.cpp.
use nexus_db_main.Common.{
  ℕ, zero, suc, ◌+◌, ◌-◌, ◌^◌, List, [], ◌∷◌, ◌++◌, Bytes, Bool, true, false, Option, none, some,
  length, take, drop, replicate, ltb, u32, add_u64, ◌==◌, if◌then◌else◌, ◌>>=◌,
}
use nexus_db_main.Common.Reads.{read_exactly}
use nexus_db_main.Encoding.{decode_u32_le, decode_u64_le}
use nexus_db_main.BloomFilter.{BloomFilter, from_data}
use nexus_db_main.SsTable.{IndexEntry, sstable_magic, sstable_footer_size, seek, actual_size}

pub record Footer : Type 0 where
  pub bloom_offset : ℕ
  pub bloom_size : ℕ
  pub index_offset : ℕ
  pub num_idx : ℕ
  pub num_entries : ℕ

-- `file` is what is read from, at any offset.
pub record SsTableReader : Type 0 where
  pub file : Bytes
  pub index : List IndexEntry
  pub bloom : Option BloomFilter
  pub footer : Footer
  pub min_key : Bytes
  pub max_key : Bytes

footer_of : Bytes → Footer
footer_of footer = record {
  bloom_offset = decode_u64_le footer;
  bloom_size = decode_u32_le (drop 8 footer);
  index_offset = decode_u64_le (drop 12 footer);
  num_idx = decode_u32_le (drop 20 footer);
  num_entries = decode_u32_le (drop 24 footer);
}

-- The last 32 bytes; `none` if the file is shorter.
unfoldable pub last_bytes : Bytes → Option Bytes
last_bytes file =
    if ltb (length file) sstable_footer_size
    then none
    else some (drop (length file - sstable_footer_size) file)

unfoldable pub read_footer : Bytes → Option Footer
unfolding footer_of
read_footer file = do
  footer ← last_bytes file
  if decode_u32_le (drop 28 footer) == sstable_magic then some (footer_of footer) else none

-- `none` is a failure; a size of zero leaves the reader without a filter.
unfoldable pub read_bloom : Footer → Bytes → Option (Option BloomFilter)
read_bloom f file = if f.bloom_size == 0 then some none else (do
  bytes ← seek f.bloom_offset file
  (bhdr, rest) ← read_exactly 8 bytes
  (bdata, _) ← read_exactly (u32 (f.bloom_size + (2 ^ 32 - 8))) rest
  some (some (from_data bdata (decode_u32_le bhdr) (decode_u32_le (drop 4 bhdr)))))

unfoldable pub read_index_entry : Bytes → Option (IndexEntry × Bytes)
read_index_entry bytes = do
  (buf, rest) ← read_exactly 12 bytes
  (key, rest₁) ← read_exactly (decode_u32_le buf) rest
  some ((key, decode_u64_le (drop 4 buf)), rest₁)

unfoldable pub read_index_loop : ℕ → Bytes → Option (List IndexEntry)
read_index_loop zero bytes = some []
read_index_loop (suc n) bytes = do
  (ie, rest) ← read_index_entry bytes
  index ← read_index_loop n rest
  some (ie ∷ index)

-- The capacity that `reserve(num_idx)` gives an empty vector is `num_idx`.
unfoldable pub read_index : Footer → Bytes → Option (List IndexEntry)
read_index f file = do bytes ← seek f.index_offset file; read_index_loop f.num_idx bytes

-- `last_key` after `resize(ksz)` and a read that finds only `left`.
cut_key : ℕ → Bytes → Bytes → Bytes
cut_key ksz left last_key =
    left ++ drop (length left) (take ksz last_key ++ replicate (ksz - length last_key) 0)

-- The loop that looks for the last key; `none` means that the fuel ran out.
unfoldable pub max_key_loop : ℕ → ℕ → ℕ → Bytes → Bytes → Option Bytes
unfolding cut_key
max_key_loop zero end pos last_key bytes = none
max_key_loop (suc fuel) end pos last_key bytes = elim (ltb pos end) [
  | false ↦ some last_key
  | true ↦ elim (read_exactly 8 bytes) [
    | none ↦ some last_key
    | some (hdr, rest) ↦
        let ksz = decode_u32_le hdr in
        let skip = actual_size (decode_u32_le (drop 4 hdr)) in
        elim (read_exactly ksz rest) [
          | none ↦ some (cut_key ksz rest last_key)
          | some (key, rest₁) ↦
              max_key_loop fuel end (add_u64 pos (u32 (8 + ksz) + skip)) key (drop skip rest₁)
        ]
  ]
]

unfoldable pub key_range : Footer → List IndexEntry → Bytes → Option (Bytes × Bytes)
key_range f [] file = some ([], [])
key_range f ((key, _) ∷ index) file = do
  max_key ← max_key_loop (suc (length file)) f.bloom_offset 0 [] file
  some (key, max_key)

-- `none` is an exception: the file is corrupt.
unfoldable pub open_file : Bytes → Option SsTableReader
open_file file = do
  footer ← read_footer file
  bloom ← read_bloom footer file
  index ← read_index footer file
  (min_key, max_key) ← key_range footer index file
  some (record {
    file = file;
    index = index;
    bloom = bloom;
    footer = footer;
    min_key = min_key;
    max_key = max_key;
  })

unfoldable pub validate : Bytes → Bool
validate file = elim (last_bytes file) [
  | none ↦ false
  | some footer ↦ decode_u32_le (drop 28 footer) == sstable_magic
]
