-- ===== src/Engine/View.antt =====
-- What the engine holds for a key: the entry of the table in memory, or of the newest sorted file
-- that has the key.
use nexus_db_main.Common.{
  if◌then◌else◌, true, List, [], ◌∷◌, Bytes, false, Option, none, some, ◌≡◌, refl, is_empty,
}
use nexus_db_main.Encoding.{Status, ok, not_found, invalid_argument}
use nexus_db_main.Text.{str_eq, str_compare}
use nexus_db_main.StdMap.{find}
use nexus_db_main.MemTable.{MemTable, lookup_result}
use nexus_db_main.MemTable.Lookup.{get-find}
use nexus_db_main.MemTable.Size.{IsValid}
use nexus_db_main.SsTable.{DataEntry}
use nexus_db_main.SsTable.Reader.{SsTableReader}
use nexus_db_main.SsTable.Queries as Queries
use nexus_db_main.SsTable.Loops.{found_entry}
use nexus_db_main.SsTable.Layout.{Fits}
use nexus_db_main.SsTable.Opening.{reader_of}
use nexus_db_main.SsTable.Reopen.{read_all_entries-reader_of}
use nexus_db_main.SsTable.Answers.{get-reader_of}
use nexus_db_main.Compaction.{read_inputs}
use nexus_db_main.Compaction.Merge.{or_else, newest}
use nexus_db_main.Engine.{Engine, get_from, get}

-- A reader of a file that was written for the entries.
pub record Opened (r : SsTableReader) (t : List DataEntry) : Type 0 where
  pub first : DataEntry
  pub others : List DataEntry
  pub form : t ≡ first ∷ others
  pub fits : Fits (first ∷ others)
  pub reader : r ≡ reader_of first others

pub data AllOpened : List SsTableReader → List (List DataEntry) → Type 0 where
  no_table : AllOpened [] []
  a_table :
      {r : SsTableReader} {t : List DataEntry} {rs : List SsTableReader}
      {ts : List (List DataEntry)}
      → Opened r t
      → AllOpened rs ts
      → AllOpened (r ∷ rs) (t ∷ ts)

-- A sound table in memory, and readers of the tables `ts`.
pub record Holds (m : MemTable) (rs : List SsTableReader) (ts : List (List DataEntry))
    : Type 0 where
  pub memory : IsValid m
  pub tables : AllOpened rs ts

-- The answer of `get` for what is held.
unfoldable pub answer_of : Option (Option Bytes) → Status × Bytes
answer_of none = (not_found, [])
answer_of (some none) = (not_found, [])
answer_of (some (some v)) = (ok, v)

pub Opened-get :
    (q : Bytes) (r : SsTableReader) (t : List DataEntry)
    → Opened r t
    → Queries.get q r ≡ some (found_entry (find q t))
Opened-get q r t o = rw (o.reader, o.form) (get-reader_of o.first o.others q o.fits)

pub Opened-entries :
    (r : SsTableReader) (t : List DataEntry) → Opened r t → Queries.read_all_entries r ≡ some t
Opened-entries r t o = rw (o.reader, o.form) (read_all_entries-reader_of o.first o.others o.fits)

pub read_inputs-AllOpened :
    (rs : List SsTableReader) (ts : List (List DataEntry))
    → AllOpened rs ts
    → read_inputs rs ≡ some ts
unfolding read_inputs
read_inputs-AllOpened _ _ no_table = refl
read_inputs-AllOpened _ _ (a_table {r} {t} {rs} {ts} o os) =
    rw (Opened-entries r t o, read_inputs-AllOpened rs ts os)

get_from_step :
    (q : Bytes) (r : SsTableReader) (rs : List SsTableReader) (held : Option (Option Bytes))
    (older : Option (Option Bytes))
    → Queries.get q r ≡ some (found_entry held)
    → get_from q rs ≡ some (answer_of older)
    → get_from q (r ∷ rs) ≡ some (answer_of (or_else held older))
unfolding get_from found_entry answer_of
get_from_step q r rs none older e f = rw (e, f)
get_from_step q r rs (some none) older e f = rw e refl
get_from_step q r rs (some (some v)) older e f = rw e refl

get_from-newest :
    (q : Bytes) (rs : List SsTableReader) (ts : List (List DataEntry))
    → AllOpened rs ts
    → get_from q rs ≡ some (answer_of (newest q ts))
unfolding get_from answer_of
get_from-newest q _ _ no_table = refl
get_from-newest q _ _ (a_table {r} {t} {rs} {ts} o os) =
    get_from_step q r rs (find q t) (newest q ts) (Opened-get q r t o) (get_from-newest q rs ts os)

get_memory :
    (q : Bytes) (e : Engine) (held older : Option (Option Bytes))
    → is_empty q ≡ false
    → find q e.memtable.entries ≡ held
    → get_from q e.sstables ≡ some (answer_of older)
    → get q e ≡ some (answer_of (or_else held older))
unfolding get lookup_result answer_of
get_memory q e none older n h f = rw (get-find q e.memtable none h, n) f
get_memory q e (some none) older n h f = rw (get-find q e.memtable (some none) h, n) refl
get_memory q e (some (some v)) older n h f = rw (get-find q e.memtable (some (some v)) h, n) refl

-- For a key that is not empty, `get` returns the value of the newest entry, among the table in
-- memory and the sorted files, if that is no tombstone, and NOT_FOUND otherwise. The table in memory
-- is sound and the readers are of files that `build` wrote.
pub get-newest :
    (q : Bytes) (e : Engine) (ts : List (List DataEntry))
    → is_empty q ≡ false
    → Holds e.memtable e.sstables ts
    → get q e ≡ some (answer_of (newest q (e.memtable.entries ∷ ts)))
get-newest q e ts n h =
    get_memory q e (find q e.memtable.entries) (newest q ts) n refl
      (get_from-newest q e.sstables ts h.tables)

pub get-empty : (q : Bytes) (e : Engine) → is_empty q ≡ true → get q e ≡ some (invalid_argument, [])
unfolding get
get-empty q e h = rw h refl

pub differs_from_empty :
    (key q : Bytes) → is_empty key ≡ false → is_empty q ≡ true → str_eq key q ≡ false
unfolding str_compare
differs_from_empty [] q n h = cc
differs_from_empty (x ∷ key) [] n h = refl
differs_from_empty (x ∷ key) (y ∷ q) n h = cc

-- Both answers for an empty key are that it is no argument.
pub get-empty_kept :
    (key q : Bytes) (e e' : Engine) (new : Option (Status × Bytes))
    → is_empty key ≡ false
    → is_empty q ≡ true
    → get q e' ≡ (if str_eq key q then new else get q e)
get-empty_kept key q e e' new n h =
    rw (differs_from_empty key q n h, get-empty q e h) (get-empty q e' h)
