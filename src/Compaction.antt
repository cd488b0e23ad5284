-- ===== src/Compaction.antt =====
-- `CompactionEngine::compact`: include/mosaicdb/compaction.h and src/compaction/compaction.cpp. The
-- inputs are in the order of the engine: the newest comes first.
pub mod Merge
mod Tests
use nexus_db_main.Common.{
  List, [], ◌∷◌, Bytes, Bool, Option, none, some, ◌>>=◌, codes, is_empty, if◌then◌else◌,
}
use nexus_db_main.Encoding.{Status, invalid_argument}
use nexus_db_main.StdMap.{Map, assign}
use nexus_db_main.SsTable.{DataEntry}
use nexus_db_main.SsTable.Writer.{build}
use nexus_db_main.SsTable.Reader.{SsTableReader}
use nexus_db_main.SsTable.Queries.{read_all_entries}

-- `merged[key] = value` for each entry.
unfoldable pub assign_all : List DataEntry → Map (Option Bytes) → Map (Option Bytes)
assign_all [] merged = merged
assign_all ((key, val) ∷ entries) merged = assign_all entries (assign key val merged)

-- The loop from the last input to the first.
unfoldable pub merge : List (List DataEntry) → Map (Option Bytes)
merge [] = []
merge (entries ∷ older) = assign_all entries (merge older)

-- The entries that are no tombstones.
unfoldable pub live_entries : Map (Option Bytes) → List DataEntry
live_entries [] = []
live_entries ((key, none) ∷ m) = live_entries m
live_entries ((key, some v) ∷ m) = (key, some v) ∷ live_entries m

abbrev pub filler : DataEntry
filler = (codes "__empty__", some [])

unfoldable pub result_entries : List (List DataEntry) → List DataEntry
result_entries inputs =
    let result = live_entries (merge inputs) in if is_empty result then filler ∷ [] else result

unfoldable pub read_inputs : List SsTableReader → Option (List (List DataEntry))
read_inputs [] = some []
read_inputs (r ∷ inputs) = do
  entries ← read_all_entries r
  more ← read_inputs inputs
  some (entries ∷ more)

-- Whether `fopen` succeeds is the first argument, as for `build`.
unfoldable pub compact : Bool → List SsTableReader → Option (Status × Option Bytes)
compact opened inputs =
    if is_empty inputs
    then some (invalid_argument, none)
    else (do lists ← read_inputs inputs; some (build opened (result_entries lists)))
