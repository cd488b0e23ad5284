-- ===== src/Engine/Loading.antt =====
-- `sstable_path`, `load_sstables` and the constructor of src/engine/storage_engine.cpp. A directory is
-- the list of its files, in the order in which the iterator gives them; the data directory is there,
-- since the constructor makes it. The files that are removed for a bad footer are passed over.
pub mod Names
pub mod Order
pub mod Restored
mod Tests
use nexus_db_main.Common.{
  ℕ, suc, ◌-◌, List, [], ◌∷◌, ◌++◌, Bytes, Bool, true, false, ◌&&◌, Option, none, some, codes,
  length, take, drop, ltb, add_u64, if◌then◌else◌, ◌>>=◌,
}
use nexus_db_main.Common.Ascii.{to_string, zero_padded, stoull}
use nexus_db_main.Text.{str_eq}
use nexus_db_main.Encoding.{Status}
use nexus_db_main.MemTable as MemTable
use nexus_db_main.SsTable.Reader.{SsTableReader, open_file, validate}
use nexus_db_main.Engine.{Engine, Answers, recover}

pub record StoredFile : Type 0 where
  pub name : Bytes
  pub contents : Bytes

-- `sst_%06llu.db`.
unfoldable pub sstable_name : ℕ → Bytes
sstable_name seq = codes "sst_" ++ (zero_padded 6 (to_string seq) ++ codes ".db")

unfoldable pub is_sstable_name : Bytes → Bool
is_sstable_name name =
    ltb 4 (length name)
    && str_eq (take 4 name) (codes "sst_")
    && str_eq (drop (length name - 3) name) (codes ".db")

-- `none` for a name that is passed over.
unfoldable pub sequence_of : Bytes → Option ℕ
sequence_of name =
    if is_sstable_name name then stoull (take (length name - 7) (drop 4 name)) else none

pub record Numbered : Type 0 where
  pub seq : ℕ
  pub contents : Bytes

abbrev pub if_valid : Option ℕ → StoredFile → List Numbered → List Numbered
if_valid none file later = later
if_valid (some seq) file later =
    if validate file.contents then record { seq = seq; contents = file.contents } ∷ later else later

unfoldable pub found_files : List StoredFile → List Numbered
found_files [] = []
found_files (file ∷ files) = if_valid (sequence_of file.name) file (found_files files)

-- The sort by the greater number. Files of one number may come in either order.
unfoldable pub insert_file : Numbered → List Numbered → List Numbered
insert_file x [] = x ∷ []
insert_file x (y ∷ ys) = if ltb x.seq y.seq then y ∷ insert_file x ys else x ∷ y ∷ ys

unfoldable pub sort_files : List Numbered → List Numbered
sort_files [] = []
sort_files (x ∷ xs) = insert_file x (sort_files xs)

-- The open files with their numbers, and the next number.
pub record Loaded : Type 0 where
  pub sstables : List SsTableReader
  pub seqs : List ℕ
  pub next_seq : ℕ

abbrev pub next_after : ℕ → ℕ → ℕ
next_after seq next = if ltb seq next then next else add_u64 seq 1

abbrev pub push_reader : ℕ → Loaded → Option SsTableReader → Loaded
push_reader seq loaded none = loaded
push_reader seq loaded (some reader) = record {
  sstables = loaded.sstables ++ (reader ∷ []);
  seqs = loaded.seqs ++ (seq ∷ []);
  next_seq = next_after seq loaded.next_seq;
}

unfoldable pub load_files : List Numbered → Loaded → Loaded
load_files [] loaded = loaded
load_files (x ∷ xs) loaded = load_files xs (push_reader x.seq loaded (open_file x.contents))

unfoldable pub load_sstables : List StoredFile → Loaded
load_sstables files =
    load_files (sort_files (found_files files)) (record { sstables = []; seqs = []; next_seq = 0 })

-- The constructor.
unfoldable pub open_engine : Answers → ℕ → List StoredFile → Bytes → Option (Status × Engine)
open_engine answers memtable_threshold files log =
    let loaded = load_sstables files in
    recover answers (record {
      log = log;
      memtable = MemTable.empty memtable_threshold;
      sstables = loaded.sstables;
      next_seq = loaded.next_seq;
    })
