-- ===== src/SsTable/Queries.antt =====
-- `get`, `scan` and `read_all_entries` of `SSTableReader`, of src/storage/sstable.cpp. A result
-- `none` means that the fuel ran out, or that `fseek` refused an offset.
use nexus_db_main.Common.{
  ℕ, zero, suc, ◌+◌, ◌-◌, ◌/◌, List, [], ◌∷◌, Bytes, Bool, true, false, not, ◌||◌, lt, eq, gt,
  Option, none, some, length, drop, get_or, ltb, leb, add_u64, ◌==◌, if◌then◌else◌, ◌>>=◌, is_empty,
}
use nexus_db_main.Common.Reads.{read_exactly}
use nexus_db_main.Text.{str_compare, str_le, str_lt}
use nexus_db_main.BloomFilter.{BloomFilter, possibly_contains}
use nexus_db_main.SsTable.{
  DataEntry, IndexEntry, LookupResult, tombstone_val_size, seek, read_key, actual_size, entry_step,
}
use nexus_db_main.SsTable.Reader.{SsTableReader}

abbrev pub not_found : LookupResult
not_found = record { found = false; is_tombstone = false; value = [] }

abbrev pub key_at : List IndexEntry → ℕ → Bytes
key_at index i = (get_or index i ([], 0)).0

abbrev pub offset_at : List IndexEntry → ℕ → ℕ
offset_at index i = (get_or index i ([], 0)).1

-- The binary search of `get` and `scan`.
unfoldable pub search : ℕ → List IndexEntry → Bytes → ℕ → ℕ → ℕ → Option ℕ
search zero index key lo hi idx = none
search (suc fuel) index key lo hi idx =
    let mid = lo + (hi - lo) / 2 in
    elim (leb lo hi) [
      | false ↦ some idx
      | true ↦ elim (str_le (key_at index mid) key) [
        | true ↦ elim (mid == hi) [
          | true ↦ some mid
          | false ↦ search fuel index key (suc mid) hi mid
        ]
        | false ↦ elim (mid == 0) [
          | true ↦ some idx
          | false ↦ search fuel index key lo (mid - 1) idx
        ]
      ]
    ]

-- The value of an entry as stored: `none` is a `break`.
unfoldable pub read_val : ℕ → Bytes → Option (Option Bytes × Bytes)
read_val vsz bytes =
    if vsz == tombstone_val_size
    then some (none, bytes)
    else (do (v, rest) ← read_exactly vsz bytes; some (some v, rest))

-- The result of `scan_from` at an entry with the key.
unfoldable pub hit : ℕ → Bytes → LookupResult
hit vsz bytes = elim (read_val vsz bytes) [
  | none ↦ not_found
  | some (none, _) ↦ record { found = true; is_tombstone = true; value = [] }
  | some (some v, _) ↦ record { found = true; is_tombstone = false; value = v }
]

unfoldable pub scan_from : ℕ → ℕ → ℕ → Bytes → Bytes → Option LookupResult
scan_from zero end pos key bytes = none
scan_from (suc fuel) end pos key bytes = elim (ltb pos end) [
  | false ↦ some not_found
  | true ↦ elim (read_key bytes) [
    | none ↦ some not_found
    | some (entry_key, vsz, rest) ↦ elim (str_compare entry_key key) [
      | eq ↦ some (hit vsz rest)
      | gt ↦ some not_found
      | lt ↦
          scan_from fuel end (add_u64 pos (entry_step entry_key vsz)) key
            (drop (actual_size vsz) rest)
    ]
  ]
]

-- Where the scan for a key ends.
abbrev pub end_at : ℕ → List IndexEntry → ℕ → ℕ
end_at bloom_offset index idx =
    if ltb (suc idx) (length index) then offset_at index (suc idx) else bloom_offset

abbrev pub might_hold : Bytes → Option BloomFilter → Bool
might_hold key none = true
might_hold key (some b) = possibly_contains key b

unfoldable pub get_in_block : Bytes → SsTableReader → Option LookupResult
get_in_block key r = do
  idx ← search (suc (length r.index)) r.index key 0 (length r.index - 1) 0
  bytes ← seek (offset_at r.index idx) r.file
  scan_from (suc (length bytes)) (end_at r.footer.bloom_offset r.index idx) (offset_at r.index idx)
      key bytes

unfoldable pub get : Bytes → SsTableReader → Option LookupResult
get key r =
    if is_empty r.index
    then some not_found
    else if str_lt key r.min_key || str_lt r.max_key key
    then some not_found
    else if not (might_hold key r.bloom)
    then some not_found
    else get_in_block key r

unfoldable pub scan_loop : ℕ → ℕ → ℕ → Bytes → Bytes → Bytes → Option (List DataEntry)
scan_loop zero end pos lo hi bytes = none
scan_loop (suc fuel) end pos lo hi bytes = elim (ltb pos end) [
  | false ↦ some []
  | true ↦ elim (read_key bytes) [
    | none ↦ some []
    | some (entry_key, vsz, rest) ↦
        let next = add_u64 pos (entry_step entry_key vsz) in
        elim (str_le entry_key hi) [
          | false ↦ some []
          | true ↦ elim (str_le lo entry_key) [
            | false ↦ scan_loop fuel end next lo hi (drop (actual_size vsz) rest)
            | true ↦ elim (read_val vsz rest) [
              | none ↦ some []
              | some (val, rest₁) ↦
                  scan_loop fuel end next lo hi rest₁ >>= λ es. some ((entry_key, val) ∷ es)
            ]
          ]
        ]
  ]
]

unfoldable pub scan_blocks : Bytes → Bytes → SsTableReader → Option (List DataEntry)
scan_blocks lo hi r = do
  idx ← search (suc (length r.index)) r.index lo 0 (length r.index - 1) 0
  bytes ← seek (offset_at r.index idx) r.file
  scan_loop (suc (length bytes)) r.footer.bloom_offset (offset_at r.index idx) lo hi bytes

unfoldable pub scan : Bytes → Bytes → SsTableReader → Option (List DataEntry)
scan lo hi r =
    if is_empty r.index
    then some []
    else if str_lt hi r.min_key || str_lt r.max_key lo
    then some []
    else scan_blocks lo hi r

unfoldable pub entries_loop : ℕ → ℕ → ℕ → Bytes → Option (List DataEntry)
entries_loop zero end pos bytes = none
entries_loop (suc fuel) end pos bytes = elim (ltb pos end) [
  | false ↦ some []
  | true ↦ elim (read_key bytes) [
    | none ↦ some []
    | some (key, vsz, rest) ↦ elim (read_val vsz rest) [
      | none ↦ some []
      | some (val, rest₁) ↦ entries_loop fuel end (add_u64 pos (entry_step key vsz)) rest₁ >>= λ es.
          some ((key, val) ∷ es)
    ]
  ]
]

unfoldable pub read_all_entries : SsTableReader → Option (List DataEntry)
read_all_entries r = entries_loop (suc (length r.file)) r.footer.bloom_offset 0 r.file
