-- ===== src/Engine/Tests.antt =====
-- Runs of the engine at small inputs.
use nexus_db_main.Common.{
  ◌+◌, ◌<◌, ◌^◌, length, [], ◌∷◌, Bytes, true, false, Option, none, some, ◌≡◌, refl, arith, codes,
  if◌then◌else◌,
}
use nexus_db_main.Text.{str_eq, str_compare}
use nexus_db_main.Encoding.{Status, ok, not_found, OpType, encode_u32_le, byte_of_op}
use nexus_db_main.Encoding.Crc.{compute}
use nexus_db_main.StdMap.{assign, find}
use nexus_db_main.MemTable.{MemTable}
use nexus_db_main.MemTable as MemTable
use nexus_db_main.MemTable.Size.{empty-IsValid, total_size}
use nexus_db_main.Wal.{append, record_payload, write_record, write_all}
use nexus_db_main.SsTable.{DataEntry}
use nexus_db_main.SsTable.Layout.{Fits}
use nexus_db_main.SsTable.Opening.{reader_of}
use nexus_db_main.Compaction.Merge.{newest}
use nexus_db_main.Engine.{Engine, Answers, put, after_put, remove, after_remove, get, replay}
use nexus_db_main.Engine.View.{no_table, a_table, Holds, answer_of, get-newest}
use nexus_db_main.Engine.Removals.{remove-get}
use nexus_db_main.Wal as Wal
use nexus_db_main.Engine.Logged.{Logged}
use nexus_db_main.Engine.Restart.{put-Logged, remove-Logged}
use nexus_db_main.Engine.Scans.{Scans, scan-newest}
use nexus_db_main.StdMap.{Map}

abbrev old : DataEntry
old = (codes "a", some (codes "1"))

-- One file, and nothing in memory; every write fills the table in memory.
abbrev engine : Engine
engine = record {
  log = [];
  memtable = MemTable.empty 1;
  sstables = reader_of old [] ∷ [];
  next_seq = 1;
}

old-Fits : Fits (old ∷ [])
old-Fits = record {
  sorted = (tt, tt);
  entries_fit = (omega arith, tt);
  count_fits = omega arith;
  room = omega arith;
}

engine-Holds : Holds engine.memtable engine.sstables ((old ∷ []) ∷ [])
engine-Holds = record {
  memory = empty-IsValid 1;
  tables =
      a_table (record { first = old; others = []; form = refl; fits = old-Fits; reader = refl })
        no_table;
}

get-newest_example :
    get (codes "a") engine
    ≡ some (answer_of (newest (codes "a") (engine.memtable.entries ∷ (old ∷ []) ∷ [])))
get-newest_example = get-newest (codes "a") engine ((old ∷ []) ∷ []) refl engine-Holds

abbrev answers : Answers
answers = record {
  append_io = record { writes = 4 ∷ 100 ∷ []; synced = true };
  flush_opened = true;
  compact_opened = true;
  truncated = true;
}

log_of : Option (Status × Bytes) → Bytes
log_of none = []
log_of (some out) = out.1

put_log : Bytes
unfolding log_of
put_log = log_of (append answers.append_io OpType.put (codes "b") (codes "2") [])

remove_log : Bytes
unfolding log_of
remove_log = log_of (append answers.append_io OpType.delete (codes "a") [] [])

remove_logged : append answers.append_io OpType.delete (codes "a") [] [] ≡ some (ok, remove_log)
unfolding remove_log append record_payload write_record write_all encode_u32_le compute byte_of_op
remove_logged = refl

remove_flush-Fits : Fits (assign (codes "a") none engine.memtable.entries)
unfolding MemTable.empty assign
remove_flush-Fits = record {
  sorted = (tt, tt);
  entries_fit = (omega arith, tt);
  count_fits = omega arith;
  room = omega arith;
}

nothing_held : total_size engine.memtable.entries + length (codes "a") < 2 ^ 64
unfolding MemTable.empty
nothing_held = omega arith

remove-get_example :
    (e' : Engine) × (remove answers (codes "a") engine ≡ some (ok, e'))
    × ((q : Bytes)
        → get q e' ≡ (if str_eq (codes "a") q then some (not_found, []) else get q engine))
remove-get_example =
    remove-get answers remove_log (codes "a") engine ((old ∷ []) ∷ []) refl remove_logged
      engine-Holds nothing_held remove_flush-Fits

scan-newest_example : (r : Map Bytes) × Scans (codes "a") (codes "b") engine ((old ∷ []) ∷ []) r
unfolding str_compare
scan-newest_example = scan-newest (codes "a") (codes "b") engine ((old ∷ []) ∷ []) refl engine-Holds

-- The table in memory is not due before a megabyte.
abbrev large : Engine
large = record engine { memtable = MemTable.empty 1000000 }

large-Logged : Logged large.log large.memtable
unfolding replay MemTable.empty
large-Logged = record { records = []; fit = tt; log_holds = refl; memory = refl }

b_put-Fits : Wal.Records.Fits (record { type = OpType.put; key = codes "b"; value = codes "2" })
b_put-Fits = record { canonical = tt; key_fits = omega arith; value_fits = omega arith }

large_after : Engine
unfolding put_log MemTable.put
large_after = record large {
  log = put_log;
  memtable = MemTable.put (codes "b") (codes "2") large.memtable;
}

put_in_large : put answers (codes "b") (codes "2") large ≡ some (ok, large_after)
unfolding large_after put after_put put_log append record_payload write_record write_all
    encode_u32_le compute byte_of_op MemTable.should_flush MemTable.put MemTable.empty find assign
put_in_large = refl

large_not_due : MemTable.should_flush large_after.memtable ≡ false
unfolding large_after MemTable.should_flush MemTable.put MemTable.empty find assign
large_not_due = refl

put-Logged_example : Logged large_after.log large_after.memtable
put-Logged_example =
    put-Logged answers (codes "b") (codes "2") large large_after refl refl b_put-Fits large-Logged
      put_in_large

a_removal-Fits : Wal.Records.Fits (record { type = OpType.delete; key = codes "a"; value = [] })
a_removal-Fits = record { canonical = tt; key_fits = omega arith; value_fits = omega arith }

large_removed : Engine
unfolding remove_log MemTable.remove
large_removed = record large {
  log = remove_log;
  memtable = MemTable.remove (codes "a") large.memtable;
}

remove_in_large : remove answers (codes "a") large ≡ some (ok, large_removed)
unfolding large_removed remove after_remove remove_log append record_payload write_record write_all
    encode_u32_le compute byte_of_op MemTable.should_flush MemTable.remove MemTable.empty find
    assign
remove_in_large = refl

remove-Logged_example : Logged large_removed.log large_removed.memtable
remove-Logged_example =
    remove-Logged answers (codes "a") large large_removed refl refl a_removal-Fits large-Logged
      remove_in_large
