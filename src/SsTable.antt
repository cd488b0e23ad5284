-- ===== src/SsTable.antt =====
-- The constants, entries and results of include/mosaicdb/sstable.h, and what the reader's loops
-- share. A file is its bytes.
pub mod Writer
pub mod Reader
pub mod Queries
pub mod Data
pub mod Loops
pub mod Ranges
pub mod Layout
pub mod FooterBytes
pub mod IndexBytes
pub mod Opening
pub mod Search
pub mod Blocks
pub mod Ascending
pub mod Sections
pub mod Reopen
pub mod Answers
mod Tests
use nexus_db_main.Common.{
  ℕ, ◌+◌, ◌^◌, List, Bytes, Bool, true, false, Option, none, some, ltb, length, drop, u32, ◌==◌,
  if◌then◌else◌, ◌>>=◌,
}
use nexus_db_main.Common.Reads.{read_exactly}
use nexus_db_main.Encoding.{decode_u32_le}
use nexus_db_main.StdMap.{Map}

abbrev pub sstable_magic : ℕ
sstable_magic = 0x4D534454

abbrev pub tombstone_val_size : ℕ
tombstone_val_size = 0xFFFFFFFF

abbrev pub sparse_index_interval : ℕ
sparse_index_interval = 16

abbrev pub sstable_footer_size : ℕ
sstable_footer_size = 32

-- A key and its value, where `none` is a tombstone.
abbrev pub DataEntry : Type 0
DataEntry = Bytes × Option Bytes

-- A key and the offset of its entry.
abbrev pub IndexEntry : Type 0
IndexEntry = Bytes × ℕ

pub record LookupResult : Type 0 where
  pub found : Bool
  pub is_tombstone : Bool
  pub value : Bytes

-- What follows `fseek(file, offset, SEEK_SET)`. The offset is cast to `long`: `none` is a negative
-- one, which `fseek` refuses.
unfoldable pub seek : ℕ → Bytes → Option Bytes
seek offset file = if ltb offset (2 ^ 63) then some (drop offset file) else none

-- The two reads at the start of a round, of the sizes and of the key: the key, the size of the value
-- as stored, and what follows. `none` is a `break`.
unfoldable pub read_key : Bytes → Option (Bytes × ℕ × Bytes)
read_key bytes = do
  (hdr, rest) ← read_exactly 8 bytes
  (key, rest₁) ← read_exactly (decode_u32_le hdr) rest
  some (key, decode_u32_le (drop 4 hdr), rest₁)

abbrev pub actual_size : ℕ → ℕ
actual_size vsz = if vsz == tombstone_val_size then 0 else vsz

-- What a round adds to the position, in 32 bits.
abbrev pub entry_step : Bytes → ℕ → ℕ
entry_step key vsz = u32 (8 + length key + actual_size vsz)
