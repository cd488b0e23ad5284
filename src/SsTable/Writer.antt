-- ===== src/SsTable/Writer.antt =====
-- `SSTableWriter::build` of src/storage/sstable.cpp. The answers of `fwrite` are not looked at by
-- the source: here each writes what it is given.
use nexus_db_main.Common.{
  ℕ, suc, ◌+◌, ◌%◌, List, [], ◌∷◌, ◌++◌, Bytes, Bool, not, Option, none, some, length, take, u32,
  add_u64, ◌==◌, if◌then◌else◌, is_empty,
}
use nexus_db_main.Encoding.{Status, ok, io_error, invalid_argument, encode_u32_le, encode_u64_le}
use nexus_db_main.BloomFilter.{BloomFilter, add, create_for_entries}
use nexus_db_main.SsTable.{
  DataEntry, IndexEntry, sstable_magic, tombstone_val_size, sparse_index_interval,
}

abbrev pub val_size : Option Bytes → ℕ
val_size none = tombstone_val_size
val_size (some v) = u32 (length v)

abbrev pub val_data : Option Bytes → Bytes
val_data none = []
val_data (some v) = v

unfoldable pub entry_bytes : DataEntry → Bytes
entry_bytes (key, val) =
    encode_u32_le (u32 (length key))
    ++ (encode_u32_le (val_size val) ++ (take (u32 (length key)) key ++ val_data val))

-- The variables of the loop over the entries, and the bytes written.
pub record Writing : Type 0 where
  pub out : Bytes
  pub index : List IndexEntry
  pub bloom : BloomFilter
  pub offset : ℕ

unfoldable pub write_entry : ℕ → DataEntry → Writing → Writing
write_entry i (key, val) w = record {
  out = w.out ++ entry_bytes (key, val);
  index = if i % sparse_index_interval == 0 then w.index ++ ((key, w.offset) ∷ []) else w.index;
  bloom = add key w.bloom;
  offset = add_u64 w.offset (add_u64 (u32 (8 + u32 (length key))) (length (val_data val)));
}

unfoldable pub write_entries : ℕ → List DataEntry → Writing → Writing
write_entries i [] w = w
write_entries i (e ∷ entries) w = write_entries (suc i) entries (write_entry i e w)

unfoldable pub bloom_bytes : BloomFilter → Bytes
bloom_bytes b = encode_u32_le b.num_bits ++ (encode_u32_le b.num_hashes ++ b.bits)

unfoldable pub index_entry_bytes : IndexEntry → Bytes
index_entry_bytes (key, offset) =
    encode_u32_le (u32 (length key)) ++ (encode_u64_le offset ++ take (u32 (length key)) key)

unfoldable pub index_bytes : List IndexEntry → Bytes
index_bytes [] = []
index_bytes (ie ∷ index) = index_entry_bytes ie ++ index_bytes index

unfoldable pub footer_bytes : ℕ → ℕ → ℕ → ℕ → ℕ → Bytes
footer_bytes bloom_offset bloom_total_size index_offset index_count entry_count =
    encode_u64_le bloom_offset
    ++ (encode_u32_le bloom_total_size
        ++ (encode_u64_le index_offset
            ++ (encode_u32_le (u32 index_count)
                ++ (encode_u32_le (u32 entry_count) ++ encode_u32_le sstable_magic))))

-- Behind the loop over the entries.
unfoldable pub finish : ℕ → Writing → Bytes
finish entry_count w =
    let bloom_total_size = u32 (8 + length w.bloom.bits) in
    w.out
    ++ (bloom_bytes w.bloom
        ++ (index_bytes w.index
            ++ footer_bytes w.offset bloom_total_size (add_u64 w.offset bloom_total_size)
                (length w.index) entry_count))

unfoldable pub start : ℕ → Writing
start entry_count = record {
  out = [];
  index = [];
  bloom = create_for_entries (u32 entry_count);
  offset = 0;
}

-- Whether `fopen` succeeds is the argument; `none` is no file written.
unfoldable pub build : Bool → List DataEntry → Status × Option Bytes
build opened entries =
    if is_empty entries
    then (invalid_argument, none)
    else if not opened
    then (io_error, none)
    else (ok, some (finish (length entries) (write_entries 0 entries (start (length entries)))))
