-- ===== src/Catalog.antt =====
-- `class Catalog`: include/mosaicdb/catalog.h and src/relational/catalog.cpp, over the engine. The
-- cache is a hash map in the source: no operation here depends on its order. `none` is a result that
-- the engine or the reads of a stored schema do not give.
pub mod Keys
pub mod Tables
mod Tests
use nexus_db_main.Common.{
  ℕ, suc, List, [], ◌∷◌, ◌++◌, Bytes, Bool, true, false, not, Option, none, some, codes, length,
  take, add_u64, if◌then◌else◌, ◌>>=◌,
}
use nexus_db_main.Common.Ascii.{to_string, stoull}
use nexus_db_main.Text.{str_eq}
use nexus_db_main.Encoding.{Status, ok, not_found, invalid_argument, is_ok}
use nexus_db_main.StdMap.{Map, find, assign, erase}
use nexus_db_main.Schema.{TableSchema, serialize, deserialize}
use nexus_db_main.Engine.{Engine, Answers}
use nexus_db_main.Engine as Store

abbrev pub catalog_prefix : Bytes
catalog_prefix = codes "__catalog:"

abbrev pub table_prefix : Bytes
table_prefix = codes "__table:"

abbrev pub meta_prefix : Bytes
meta_prefix = codes "__meta:"

unfoldable pub catalog_key : Bytes → Bytes
catalog_key table_name = catalog_prefix ++ table_name

unfoldable pub row_key : Bytes → Bytes → Bytes
row_key table_name pk_value = table_prefix ++ (table_name ++ (codes ":row:" ++ pk_value))

unfoldable pub row_key_prefix : Bytes → Bytes
row_key_prefix table_name = table_prefix ++ (table_name ++ codes ":row:")

unfoldable pub row_key_prefix_end : Bytes → Bytes
row_key_prefix_end table_name = table_prefix ++ (table_name ++ codes ":row:~")

unfoldable pub meta_key : Bytes → Bytes → Bytes
meta_key table_name field = meta_prefix ++ (table_name ++ (codes ":" ++ field))

pub record Catalog : Type 0 where
  pub engine : Engine
  pub cache : Map TableSchema

-- The loop of `load_cache`.
unfoldable pub load_entries : Map Bytes → Map TableSchema → Option (Map TableSchema)
load_entries [] cache = some cache
load_entries ((key, value) ∷ results) cache =
    if str_eq (take (length catalog_prefix) key) catalog_prefix
    then (do
      schema ← deserialize value
      load_entries results (assign schema.table_name schema cache))
    else load_entries results cache

unfoldable pub load_cache : Engine → Option Catalog
load_cache engine = do
  results ← Store.scan catalog_prefix (catalog_prefix ++ codes "~") engine
  cache ← load_entries results []
  some (record { engine = engine; cache = cache })

unfoldable pub table_exists : Bytes → Catalog → Bool
table_exists table_name c = elim (find table_name c.cache) [ none ↦ false | some _ ↦ true ]

-- The two writes of `create_table`, each with the answers to it.
unfoldable pub create_table : Answers → Answers → TableSchema → Catalog → Option (Status × Catalog)
create_table first second schema c =
    if table_exists schema.table_name c then some (invalid_argument, c) else (do
      (s, engine) ← Store.put first (catalog_key schema.table_name) (serialize schema) c.engine
      if not (is_ok s) then some (s, record c { engine = engine }) else (do
        (s₁, engine₁) ←
            Store.put second (meta_key schema.table_name (codes "next_rowid")) (codes "1") engine
        if not (is_ok s₁)
            then some (s₁, record c { engine = engine₁ })
            else some
                (ok, record { engine = engine₁; cache = assign schema.table_name schema c.cache })))

-- The statuses of the removals are not looked at. The answers are numbered from `i` on.
unfoldable pub remove_all : (ℕ → Answers) → ℕ → List Bytes → Engine → Option Engine
remove_all answers i [] engine = some engine
remove_all answers i (key ∷ keys) engine = do
  (_, engine₁) ← Store.remove (answers i) key engine
  remove_all answers (suc i) keys engine₁

unfoldable pub keys_of : Map Bytes → List Bytes
keys_of [] = []
keys_of ((key, _) ∷ rows) = key ∷ keys_of rows

unfoldable pub drop_table : (ℕ → Answers) → Bytes → Catalog → Option (Status × Catalog)
drop_table answers table_name c =
    if not (table_exists table_name c) then some (not_found, c) else (do
      rows ← Store.scan (row_key_prefix table_name) (row_key_prefix_end table_name) c.engine
      engine ←
          remove_all answers 0
            (keys_of rows
              ++ (meta_key table_name (codes "next_rowid") ∷ catalog_key table_name ∷ []))
            c.engine
      some (ok, record { engine = engine; cache = erase table_name c.cache }))

unfoldable pub get_schema : Bytes → Catalog → Option (Option TableSchema × Catalog)
get_schema table_name c = elim (find table_name c.cache) [
  | some schema ↦ some (some schema, c)
  | none ↦ (do
    (status, value) ← Store.get (catalog_key table_name) c.engine
    if not (is_ok status) then some (none, c) else (do
      schema ← deserialize value
      some (some schema, record c { cache = assign table_name schema c.cache })))
]

unfoldable pub names_of : Map TableSchema → List Bytes
names_of [] = []
names_of ((name, schema) ∷ tables) = name ∷ names_of tables

unfoldable pub list_tables : Catalog → List Bytes
list_tables c = names_of c.cache

abbrev row_id_of : Status → Bytes → ℕ
row_id_of ok value = elim (stoull value) [ some id ↦ id | none ↦ 1 ]
row_id_of _ value = 1

-- The status of the write is not looked at.
unfoldable pub next_row_id : Answers → Bytes → Catalog → Option (ℕ × Catalog)
next_row_id answers table_name c = do
  let key = meta_key table_name (codes "next_rowid")
  (status, value) ← Store.get key c.engine
  let id = row_id_of status value
  (_, engine) ← Store.put answers key (to_string (add_u64 id 1)) c.engine
  some (id, record c { engine = engine })
