-- ===== src/Executor/Duplicates/Tests.antt =====
-- Two INSERT statements with one primary key.
use nexus_db_main.Common.{
  ℕ, List, [], ◌∷◌, ◌++◌, Bytes, All, true, false, none, some, Option, ◌≡◌, refl, codes, arith,
}
use nexus_db_main.Common.Ascii.{digits}
use nexus_db_main.Common.Int.{pos}
use nexus_db_main.Text.{str_compare}
use nexus_db_main.Encoding.{Status, ok, not_found, OpType, encode_u32_le, encode_u64_le, byte_of_op}
use nexus_db_main.Encoding.Crc.{compute}
use nexus_db_main.StdMap.{assign, find}
use nexus_db_main.MemTable as MemTable
use nexus_db_main.MemTable.Size.{empty-IsValid}
use nexus_db_main.Wal.{append, record_payload, write_record, write_all}
use nexus_db_main.Compaction.{result_entries, merge, assign_all, live_entries}
use nexus_db_main.Types.{int, text, Value, make_int, make_text, byte_of_type}
use nexus_db_main.Types.Floats.{Floats}
use nexus_db_main.Types.Print.{value_text}
use nexus_db_main.Schema.{TableSchema, sized, find_column}
use nexus_db_main.Row as Row
use nexus_db_main.Row.{value_bytes, values_bytes, payload_bytes}
use nexus_db_main.Row.RoundTrip.{Made, an_int, a_text}
use nexus_db_main.Engine.{Answers, get, get_from}
use nexus_db_main.Engine.View.{no_table}
use nexus_db_main.Engine.Writes.{Room}
use nexus_db_main.Catalog.{Catalog, row_key}
use nexus_db_main.Catalog.Tables.{Writable}
use nexus_db_main.SqlParser.Syntax.{InsertStmt}
use nexus_db_main.Executor.Values.{padded, format_pk, coerce_value}
use nexus_db_main.Executor.Insert.{
  success, error, null_row, fill_columns, column_names_of, null_violation, insert_row,
}
use nexus_db_main.Executor.Duplicates.{GivesRow, key_of_row, insert_row_once}

abbrev no_floats : Floats
no_floats = record { stod = λ s. none; of_int = λ i. 0; to_int = λ x. pos 0; to_text = λ x. [] }

abbrev answers : ℕ → Answers
answers i = record {
  append_io = record { writes = 9 ∷ 1000 ∷ []; synced = true };
  flush_opened = true;
  compact_opened = true;
  truncated = true;
}

abbrev schema : TableSchema
schema = record {
  table_name = codes "t";
  columns =
      record { name = codes "id"; type = int; not_null = true; is_primary_key = true }
      ∷ record { name = codes "name"; type = text; not_null = false; is_primary_key = false }
      ∷ [];
  primary_key = codes "id";
}

abbrev catalog : Catalog
catalog = record {
  engine = record { log = []; memtable = MemTable.empty 1000000; sstables = []; next_seq = 0 };
  cache = (codes "t", schema) ∷ [];
}

-- INSERT INTO t (name, id) VALUES ('x', 7)
abbrev first : InsertStmt
first = record {
  table_name = codes "t";
  columns = codes "name" ∷ codes "id" ∷ [];
  values = make_text (codes "x") ∷ make_int (pos 7) ∷ [];
}

abbrev first_row : List Value
first_row = make_int (pos 7) ∷ make_text (codes "x") ∷ []

-- INSERT INTO t VALUES (7, 'y')
abbrev second : InsertStmt
second = record {
  table_name = codes "t";
  columns = [];
  values = make_int (pos 7) ∷ make_text (codes "y") ∷ [];
}

abbrev second_row : List Value
second_row = make_int (pos 7) ∷ make_text (codes "y") ∷ []

first-GivesRow : GivesRow no_floats first schema first_row (make_int (pos 7))
unfolding fill_columns column_names_of null_row null_violation find_column str_compare coerce_value
    byte_of_type
first-GivesRow = record { counted = refl; filled = refl; no_null = refl }

second-GivesRow : GivesRow no_floats second schema second_row (make_int (pos 7))
unfolding fill_columns column_names_of null_row null_violation find_column str_compare coerce_value
    byte_of_type
second-GivesRow = record { counted = refl; filled = refl; no_null = refl }

first_row-Made : All Made first_row
first_row-Made = (an_int (pos 7) (omega arith) refl, (a_text (codes "x") (omega arith) refl, tt))

abbrev key : Bytes
key = key_of_row no_floats first (make_int (pos 7))

key_absent : get key catalog.engine ≡ some (not_found, [])
unfolding get get_from row_key format_pk padded byte_of_type digits MemTable.get MemTable.empty find
key_absent = refl

log_of : Option (Status × Bytes) → Bytes
log_of none = []
log_of (some out) = out.1

row_log : Bytes
unfolding log_of
row_log = log_of (append (answers 1).append_io OpType.put key (Row.serialize first_row) [])

row_logged :
    append (answers 1).append_io OpType.put key (Row.serialize first_row) [] ≡ some (ok, row_log)
unfolding row_log append record_payload write_record write_all encode_u32_le encode_u64_le compute
    byte_of_op row_key format_pk padded digits Row.serialize values_bytes value_bytes payload_bytes
    sized byte_of_type
row_logged = refl

row-Room : Room key (some (Row.serialize first_row)) catalog.engine []
unfolding MemTable.empty assign result_entries merge assign_all live_entries str_compare
    encode_u32_le encode_u64_le row_key format_pk padded digits Row.serialize values_bytes
    value_bytes payload_bytes sized byte_of_type
row-Room = record {
  bytes_fit = omega arith;
  flush_fits = record {
    sorted = (tt, tt);
    entries_fit = (omega arith, tt);
    count_fits = omega arith;
    room = omega arith;
  };
  compact_fits = record {
    sorted = (tt, tt);
    entries_fit = (omega arith, tt);
    count_fits = omega arith;
    room = omega arith;
  };
}

row-Writable : Writable (answers 1) row_log key (Row.serialize first_row) catalog.engine []
row-Writable = record {
  logged = row_logged;
  holds = record { memory = empty-IsValid 1000000; tables = no_table };
  room = row-Room;
}

insert_row_once_example :
    (c' : Catalog) × (insert_row no_floats answers first schema catalog
      ≡ some (success (codes "1 row inserted."), c'))
    × ((bytes : Bytes) × (get key c'.engine ≡ some (ok, bytes))
        × (Row.deserialize bytes ≡ some first_row))
    × (insert_row no_floats answers second schema c'
        ≡ some (
          error (codes "Duplicate PRIMARY KEY value: " ++ value_text no_floats (make_int (pos 7))),
          c',
        ))
insert_row_once_example =
    insert_row_once no_floats answers answers row_log first second schema first_row second_row
      (make_int (pos 7)) (make_int (pos 7)) catalog [] first-GivesRow (omega arith) first_row-Made
      key_absent row-Writable second-GivesRow refl
