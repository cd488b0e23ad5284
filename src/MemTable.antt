-- ===== src/MemTable.antt =====
-- `class MemTable`: include/mosaicdb/memtable.h and src/storage/memtable.cpp. Each method holds the
-- lock throughout, so a method is one step; the lock itself is not modelled.
pub mod Lookup
pub mod Size
pub mod Scan
mod Tests
use nexus_db_main.Common.{
  ℕ, ◌+◌, ◌*◌, List, [], ◌∷◌, Bool, true, false, not, Bytes, Option, none, some, leb, length,
  add_u64, sub_u64,
}
use nexus_db_main.StdMap.{Map, find, assign, lower_bound, upper_bound, walk}

abbrev pub default_memtable_threshold : ℕ
default_memtable_threshold = 4 * 1024 * 1024

-- A value of `std::nullopt` is a tombstone.
pub record MemTable : Type 0 where
  pub entries : Map (Option Bytes)
  pub current_size : ℕ
  pub flush_threshold : ℕ

pub record LookupResult : Type 0 where
  pub found : Bool
  pub is_tombstone : Bool
  pub value : Bytes

unfoldable pub empty : ℕ → MemTable
empty flush_threshold = record { entries = []; current_size = 0; flush_threshold = flush_threshold }

-- What `put` and `remove` subtract for an entry that is there.
without_old : Bytes → Option (Option Bytes) → ℕ → ℕ
without_old key none size = size
without_old key (some none) size = sub_u64 size (length key)
without_old key (some (some old)) size = sub_u64 (sub_u64 size (length key)) (length old)

unfoldable pub put : Bytes → Bytes → MemTable → MemTable
unfolding without_old
put key value m = record m {
  entries = assign key (some value) m.entries;
  current_size =
      add_u64 (without_old key (find key m.entries) m.current_size)
        (add_u64 (length key) (length value));
}

unfoldable pub remove : Bytes → MemTable → MemTable
unfolding without_old
remove key m = record m {
  entries = assign key none m.entries;
  current_size = add_u64 (without_old key (find key m.entries) m.current_size) (length key);
}

unfoldable pub lookup_result : Option (Option Bytes) → LookupResult
lookup_result none = record { found = false; is_tombstone = false; value = [] }
lookup_result (some none) = record { found = true; is_tombstone = true; value = [] }
lookup_result (some (some v)) = record { found = true; is_tombstone = false; value = v }

unfoldable pub get : Bytes → MemTable → LookupResult
unfolding lookup_result
get key m = lookup_result (find key m.entries)

-- `none` stands for a walk past the end of the map.
unfoldable pub scan : Bytes → Bytes → MemTable → Option (Map (Option Bytes))
scan start_key end_key m =
    walk (lower_bound start_key m.entries) (length (upper_bound end_key m.entries))

unfoldable pub contains : Bytes → MemTable → Bool
contains key m = elim (find key m.entries) [ none ↦ false | some _ ↦ true ]

unfoldable pub should_flush : MemTable → Bool
should_flush m = leb m.flush_threshold m.current_size

unfoldable pub dump_sorted : MemTable → Map (Option Bytes)
dump_sorted m = m.entries

unfoldable pub clear : MemTable → MemTable
clear m = record m { entries = []; current_size = 0 }

unfoldable pub size_bytes : MemTable → ℕ
size_bytes m = m.current_size

unfoldable pub entry_count : MemTable → ℕ
entry_count m = length m.entries
