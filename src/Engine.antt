-- ===== src/Engine.antt =====
-- `class StorageEngine`: include/mosaicdb/storage_engine.h and src/engine/storage_engine.cpp. The
-- state is the bytes of the log, the table in memory and the open sorted files, the newest first; a
-- reader has the bytes of its file. The lock of the writers is held by each of them throughout, and
-- not modelled. The messages on the error stream are left out. A result `none` is one that the
-- components do not give: a copy past a buffer, or an offset that `fseek` refuses.
pub mod View
pub mod Keeps
pub mod Writes
pub mod Removals
pub mod Scans
pub mod Loading
pub mod Logged
pub mod Restart
mod Tests
use nexus_db_main.Common.{
  ℕ, suc, List, [], ◌∷◌, Bytes, Bool, true, false, not, Option, none, some, length, ltb, add_u64,
  if◌then◌else◌, ◌>>=◌, is_empty,
}
use nexus_db_main.Text.{str_lt}
use nexus_db_main.Encoding.{
  Status, ok, not_found, io_error, invalid_argument, is_ok, OpType, Record,
}
use nexus_db_main.StdMap.{Map}
use nexus_db_main.MemTable.{MemTable}
use nexus_db_main.MemTable as MemTable
use nexus_db_main.Wal.{Io}
use nexus_db_main.Wal as Wal
use nexus_db_main.SsTable.{DataEntry}
use nexus_db_main.SsTable as SsTable
use nexus_db_main.SsTable.Writer.{build}
use nexus_db_main.SsTable.Reader.{SsTableReader, open_file}
use nexus_db_main.SsTable.Queries as Queries
use nexus_db_main.Compaction.{compact, assign_all, live_entries}

abbrev pub compaction_threshold : ℕ
compaction_threshold = 4

pub record Engine : Type 0 where
  pub log : Bytes
  pub memtable : MemTable
  pub sstables : List SsTableReader
  pub next_seq : ℕ

-- How the operating system answers one call of `put` or `remove`: the append to the log, the
-- `fopen` of a flush and of a compaction, and the truncation of the log.
pub record Answers : Type 0 where
  pub append_io : Io
  pub flush_opened : Bool
  pub compact_opened : Bool
  pub truncated : Bool

-- The flush behind `build`.
install : Answers → Bytes → Engine → Status × Engine
install answers file e = elim (open_file file) [
  | none ↦ (io_error, e)
  | some reader ↦ (
    ok,
    record {
      log = (Wal.clear answers.truncated e.log).1;
      memtable = MemTable.clear e.memtable;
      sstables = reader ∷ e.sstables;
      next_seq = add_u64 e.next_seq 1;
    },
  )
]

flush_built : Answers → Status × Option Bytes → Engine → Status × Engine
flush_built answers (status, none) e = (status, e)
flush_built answers (status, some file) e = install answers file e

flush_entries : Answers → List DataEntry → Engine → Status × Engine
unfolding flush_built install
flush_entries answers entries e =
    if is_empty entries then (ok, e) else flush_built answers (build answers.flush_opened entries) e

unfoldable pub flush_memtable : Answers → Engine → Status × Engine
unfolding flush_entries
flush_memtable answers e = flush_entries answers (MemTable.dump_sorted e.memtable) e

-- `maybe_compact` behind the compaction: the old readers are closed before the new one is opened.
replace_tables : Bytes → Engine → Status × Engine
replace_tables file e = elim (open_file file) [
  | none ↦ (io_error, record e { sstables = [] })
  | some reader ↦ (ok, record e { sstables = reader ∷ []; next_seq = add_u64 e.next_seq 1 })
]

compacted : Status × Option Bytes → Engine → Status × Engine
compacted (status, none) e = (status, e)
compacted (status, some file) e = replace_tables file e

unfoldable pub maybe_compact : Answers → Engine → Option (Status × Engine)
unfolding compacted replace_tables
maybe_compact answers e =
    if ltb (length e.sstables) compaction_threshold
    then some (ok, e)
    else (do out ← compact answers.compact_opened e.sstables; some (compacted out e))

-- The status of a failed compaction is not looked at.
put_flushed : Answers → Status × Engine → Option (Status × Engine)
put_flushed answers (status, e) =
    if not (is_ok status)
    then some (ok, e)
    else (do (_, e₁) ← maybe_compact answers e; some (ok, e₁))

unfoldable pub after_put : Answers → Engine → Option (Status × Engine)
unfolding put_flushed
after_put answers e =
    if MemTable.should_flush e.memtable
    then put_flushed answers (flush_memtable answers e)
    else some (ok, e)

unfoldable pub put : Answers → Bytes → Bytes → Engine → Option (Status × Engine)
put answers key value e = if is_empty key then some (invalid_argument, e) else (do
  (status, log) ← Wal.append answers.append_io OpType.put key value e.log
  if not (is_ok status)
      then some (status, record e { log = log })
      else after_put answers (record e { log = log; memtable = MemTable.put key value e.memtable }))

-- A removal does not compact.
unfoldable pub after_remove : Answers → Engine → Status × Engine
after_remove answers e =
    if MemTable.should_flush e.memtable then (ok, (flush_memtable answers e).1) else (ok, e)

unfoldable pub remove : Answers → Bytes → Engine → Option (Status × Engine)
remove answers key e = if is_empty key then some (invalid_argument, e) else (do
  (status, log) ← Wal.append answers.append_io OpType.delete key [] e.log
  if not (is_ok status)
      then some (status, record e { log = log })
      else some (
          after_remove answers (record e { log = log; memtable = MemTable.remove key e.memtable })))

abbrev pub answer : Bool → Bytes → Status × Bytes
answer is_tombstone value = if is_tombstone then (not_found, []) else (ok, value)

-- The loop over the sorted files.
unfoldable pub get_from : Bytes → List SsTableReader → Option (Status × Bytes)
get_from key [] = some (not_found, [])
get_from key (sst ∷ older) =
    let rest = get_from key older in
    (do sr ← Queries.get key sst; if sr.found then some (answer sr.is_tombstone sr.value) else rest)

unfoldable pub get : Bytes → Engine → Option (Status × Bytes)
get key e =
    let result = MemTable.get key e.memtable in
    if is_empty key
    then some (invalid_argument, [])
    else if result.found
    then some (answer result.is_tombstone result.value)
    else get_from key e.sstables

-- The loop of `scan` over the sorted files, from the oldest to the newest.
unfoldable pub scan_tables : Bytes → Bytes → List SsTableReader → Option (Map (Option Bytes))
scan_tables start_key end_key [] = some []
scan_tables start_key end_key (sst ∷ older) = do
  merged ← scan_tables start_key end_key older
  entries ← Queries.scan start_key end_key sst
  some (assign_all entries merged)

unfoldable pub values : List DataEntry → Map Bytes
values [] = []
values ((key, none) ∷ m) = values m
values ((key, some v) ∷ m) = (key, v) ∷ values m

unfoldable pub scan : Bytes → Bytes → Engine → Option (Map Bytes)
scan start_key end_key e = if str_lt end_key start_key then some [] else (do
  merged ← scan_tables start_key end_key e.sstables
  mem_entries ← MemTable.scan start_key end_key e.memtable
  some (values (assign_all mem_entries merged)))

-- The replay of the log. A record of another type is passed over.
unfoldable pub replay : List Record → MemTable → MemTable
replay [] m = m
replay (rec ∷ records) m = replay records (elim rec.type [
  | OpType.put ↦ MemTable.put rec.key rec.value m
  | OpType.delete ↦ MemTable.remove rec.key m
  | OpType.other b ↦ m
])

unfoldable pub recover : Answers → Engine → Option (Status × Engine)
recover answers e = do
  records ← Wal.recover e.log
  let e₁ = record e { memtable = replay records e.memtable }
  some (if MemTable.should_flush e₁.memtable then (ok, (flush_memtable answers e₁).1) else (ok, e₁))
