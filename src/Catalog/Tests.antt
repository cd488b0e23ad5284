-- ===== src/Catalog/Tests.antt =====
-- Runs of the catalog at small inputs.
use nexus_db_main.Common.{[], ◌∷◌, Bytes, true, false, none, some, Option, ◌≡◌, refl, codes, arith}
use nexus_db_main.Text.{str_compare, str_le}
use nexus_db_main.Encoding.{Status, ok, OpType, encode_u32_le, byte_of_op}
use nexus_db_main.Encoding.Crc.{compute}
use nexus_db_main.StdMap.{assign, find}
use nexus_db_main.MemTable as MemTable
use nexus_db_main.MemTable.Size.{empty-IsValid, put-IsValid}
use nexus_db_main.Wal.{append, record_payload, write_record, write_all}
use nexus_db_main.Compaction.{result_entries, merge, assign_all, live_entries}
use nexus_db_main.Types.{int, byte_of_type}
use nexus_db_main.Schema.{TableSchema, serialize, sized, columns_bytes, column_bytes}
use nexus_db_main.Schema.RoundTrip.{Fits}
use nexus_db_main.Engine.{Engine, Answers, put, after_put}
use nexus_db_main.Engine.View.{no_table}
use nexus_db_main.Engine.Writes.{Room}
use nexus_db_main.Catalog.{Catalog, catalog_key, meta_key, create_table, get_schema, table_exists}
use nexus_db_main.Catalog.Tables.{Writable, create_table-get_schema}

-- The two bytes of a letter outside ASCII.
abbrev accented : Bytes
accented = 195 ∷ 169 ∷ []

accented_not_scanned : str_le accented (codes "~") ≡ false
unfolding str_compare
accented_not_scanned = refl

abbrev schema : TableSchema
schema = record {
  table_name = codes "t";
  columns = record { name = codes "id"; type = int; not_null = true; is_primary_key = true } ∷ [];
  primary_key = codes "id";
}

schema-Fits : Fits schema
schema-Fits = record {
  name_fits = omega arith;
  key_fits = omega arith;
  count_fits = omega arith;
  columns_fit = (record { name_fits = omega arith; named = tt }, tt);
}

abbrev answers : Answers
answers = record {
  append_io = record { writes = 4 ∷ 1000 ∷ []; synced = true };
  flush_opened = true;
  compact_opened = true;
  truncated = true;
}

-- A new store, whose table in memory is not due before a megabyte.
abbrev engine : Engine
engine = record { log = []; memtable = MemTable.empty 1000000; sstables = []; next_seq = 0 }

log_of : Option (Status × Bytes) → Bytes
log_of none = []
log_of (some out) = out.1

entry_log : Bytes
unfolding log_of
entry_log =
    log_of (append answers.append_io OpType.put (catalog_key (codes "t")) (serialize schema) [])

row_id_log : Bytes
unfolding log_of
row_id_log = log_of (
    append answers.append_io OpType.put (meta_key (codes "t") (codes "next_rowid")) (codes "1")
      entry_log)

entry_logged :
    append answers.append_io OpType.put (catalog_key (codes "t")) (serialize schema) []
    ≡ some (ok, entry_log)
unfolding entry_log append record_payload write_record write_all encode_u32_le compute byte_of_op
    catalog_key serialize sized columns_bytes column_bytes byte_of_type
entry_logged = refl

row_id_logged :
    append answers.append_io OpType.put
      (meta_key (codes "t") (codes "next_rowid"))
      (codes "1")
      entry_log
    ≡ some (ok, row_id_log)
unfolding entry_log row_id_log append record_payload write_record write_all encode_u32_le compute
    byte_of_op meta_key catalog_key serialize sized columns_bytes column_bytes byte_of_type
row_id_logged = refl

entry_stored : Engine
entry_stored = record engine {
  log = entry_log;
  memtable = MemTable.put (catalog_key (codes "t")) (serialize schema) engine.memtable;
}

put_entry :
    put answers (catalog_key (codes "t")) (serialize schema) engine ≡ some (ok, entry_stored)
unfolding entry_stored put after_put entry_log append record_payload write_record write_all
    encode_u32_le compute byte_of_op MemTable.should_flush MemTable.put MemTable.empty find assign
    catalog_key serialize sized columns_bytes column_bytes byte_of_type
put_entry = refl

entry-Room : Room (catalog_key (codes "t")) (some (serialize schema)) engine []
unfolding MemTable.empty assign result_entries merge assign_all live_entries str_compare catalog_key
    serialize sized encode_u32_le columns_bytes column_bytes byte_of_type
entry-Room = record {
  bytes_fit = omega arith;
  flush_fits = record {
    sorted = (tt, tt);
    entries_fit = (omega arith, tt);
    count_fits = omega arith;
    room = omega arith;
  };
  compact_fits = record {
    sorted = (tt, tt);
    entries_fit = (omega arith, tt);
    count_fits = omega arith;
    room = omega arith;
  };
}

entry-Writable : Writable answers entry_log (catalog_key (codes "t")) (serialize schema) engine []
entry-Writable = record {
  logged = entry_logged;
  holds = record { memory = empty-IsValid 1000000; tables = no_table };
  room = entry-Room;
}

row_id-Room : Room (meta_key (codes "t") (codes "next_rowid")) (some (codes "1")) entry_stored []
unfolding entry_stored MemTable.put MemTable.empty assign find result_entries merge assign_all
    live_entries str_compare meta_key catalog_key serialize sized encode_u32_le columns_bytes
    column_bytes byte_of_type
row_id-Room = record {
  bytes_fit = omega arith;
  flush_fits = record {
    sorted = ((refl, tt), (tt, tt));
    entries_fit = (omega arith, (omega arith, tt));
    count_fits = omega arith;
    room = omega arith;
  };
  compact_fits = record {
    sorted = ((refl, tt), (tt, tt));
    entries_fit = (omega arith, (omega arith, tt));
    count_fits = omega arith;
    room = omega arith;
  };
}

row_id-Writable :
    Writable answers row_id_log
      (meta_key (codes "t") (codes "next_rowid"))
      (codes "1")
      entry_stored
      []
unfolding entry_stored
row_id-Writable = record {
  logged = row_id_logged;
  holds = record {
    memory =
        put-IsValid (catalog_key (codes "t")) (serialize schema) engine.memtable
          entry-Room.bytes_fit (empty-IsValid 1000000);
    tables = no_table;
  };
  room = row_id-Room;
}

create_table-get_schema_example :
    (c' : Catalog) × (create_table answers answers schema (record { engine = engine; cache = [] })
      ≡ some (ok, c'))
    × (get_schema (codes "t") c' ≡ some (some schema, c'))
    × (get_schema (codes "t") (record { engine = c'.engine; cache = [] })
        ≡ some (some schema, record { engine = c'.engine; cache = assign (codes "t") schema [] }))
create_table-get_schema_example =
    create_table-get_schema answers answers entry_log row_id_log schema
      (record { engine = engine; cache = [] }) entry_stored [] [] [] schema-Fits
      (unfold table_exists find in refl) entry-Writable put_entry row_id-Writable
      (unfold find in refl)
