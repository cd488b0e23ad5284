-- ===== src/Catalog/Tables.antt =====
-- A table that is created is found again, by this catalog and by a later one over the same store.
use nexus_db_main.Common.{
  List, [], Bytes, false, none, some, ◌≡◌, refl, sym, ap, ◌∙◌, codes, append-nil,
}
use nexus_db_main.Text.{str_eq, str_compare}
use nexus_db_main.Text.Order.{str_eq_refl}
use nexus_db_main.Encoding.{Status, ok, OpType}
use nexus_db_main.StdMap.{Map, find, assign}
use nexus_db_main.StdMap.Find.{find-assign}
use nexus_db_main.Wal as Wal
use nexus_db_main.Schema.{TableSchema, serialize, deserialize}
use nexus_db_main.Schema.RoundTrip.{Fits, schema_round_trip}
use nexus_db_main.SsTable.{DataEntry}
use nexus_db_main.Engine.{Engine, Answers, put, get}
use nexus_db_main.Engine.View.{Holds}
use nexus_db_main.Engine.Logged.{some_injective}
use nexus_db_main.Engine.Writes.{Room, put-get}
use nexus_db_main.Catalog.{Catalog, catalog_key, meta_key, table_exists, create_table, get_schema}

-- The log takes a write, of which the store has room.
pub record Writable (answers : Answers) (log key value : Bytes) (e : Engine)
    (ts : List (List DataEntry)) : Type 0 where
  pub logged : Wal.append answers.append_io OpType.put key value e.log ≡ some (ok, log)
  pub holds : Holds e.memtable e.sstables ts
  pub room : Room key (some value) e ts

abbrev row_id_key : Bytes → Bytes
row_id_key table_name = meta_key table_name (codes "next_rowid")

keys_differ : (table_name : Bytes) → str_eq (row_id_key table_name) (catalog_key table_name) ≡ false
unfolding meta_key catalog_key str_compare
keys_differ table_name = refl

deserialize-serialize :
    (schema : TableSchema) → Fits schema → deserialize (serialize schema) ≡ some schema
deserialize-serialize schema f =
    ap deserialize (sym (append-nil (serialize schema))) ∙ schema_round_trip schema [] f

-- What the store holds under the key of the catalog entry after the two writes.
entry_stays :
    (first second : Answers) (log log₁ : Bytes) (name value : Bytes) (e e₁ : Engine)
    (ts ts₁ : List (List DataEntry))
    → Writable first log (catalog_key name) value e ts
    → put first (catalog_key name) value e ≡ some (ok, e₁)
    → Writable second log₁ (row_id_key name) (codes "1") e₁ ts₁
    → (e₂ : Engine) × (put second (row_id_key name) (codes "1") e₁ ≡ some (ok, e₂))
      × (get (catalog_key name) e₂ ≡ some (ok, value))
entry_stays first second log log₁ name value e e₁ ts ts₁ w p w₁ =
    let (e', step, law) =
      put-get first log (catalog_key name) value e ts (unfold catalog_key in refl) w.logged w.holds
        w.room in
    let (e₂, step₁, law₁) =
      put-get second log₁ (row_id_key name) (codes "1") e₁ ts₁ (unfold meta_key in refl) w₁.logged
        w₁.holds w₁.room in
    let same : e' ≡ e₁ = ap (λ (o : Status × Engine). o.1) (some_injective (sym step ∙ p)) in
    (
      e₂,
      step₁,
      law₁ (catalog_key name)
          ∙ rw (keys_differ name) (
              ap (get (catalog_key name)) (sym same)
              ∙ (law (catalog_key name) ∙ rw (str_eq_refl (catalog_key name)) refl)),
    )

-- A table that the cache does not have is created when the store has room for both writes. Then
-- `get_schema` returns its schema, that of this catalog from the cache, and that of any other catalog
-- over the same store from the entry that was written, if its cache does not have the table.
pub create_table-get_schema :
    (first second : Answers) (log log₁ : Bytes) (schema : TableSchema) (c : Catalog) (e₁ : Engine)
    (ts ts₁ : List (List DataEntry)) (cache : Map TableSchema)
    → Fits schema
    → table_exists schema.table_name c ≡ false
    → Writable first log (catalog_key schema.table_name) (serialize schema) c.engine ts
    → put first (catalog_key schema.table_name) (serialize schema) c.engine ≡ some (ok, e₁)
    → Writable second log₁ (meta_key schema.table_name (codes "next_rowid")) (codes "1") e₁ ts₁
    → find schema.table_name cache ≡ none
    → (c' : Catalog) × (create_table first second schema c ≡ some (ok, c'))
      × (get_schema schema.table_name c' ≡ some (some schema, c'))
      × (get_schema schema.table_name (record { engine = c'.engine; cache = cache })
          ≡ some (
            some schema,
            record { engine = c'.engine; cache = assign schema.table_name schema cache },
          ))
unfolding create_table get_schema
create_table-get_schema first second log log₁ schema c e₁ ts ts₁ cache f n w p w₁ m =
    let (e₂, step, there) =
      entry_stays first second log log₁ schema.table_name (serialize schema) c.engine e₁ ts ts₁ w p
        w₁ in
    (
      record { engine = e₂; cache = assign schema.table_name schema c.cache },
      rw (create_table, n, p, step) refl,
      rw
          (
            get_schema,
            find-assign schema.table_name schema.table_name schema c.cache,
            str_eq_refl schema.table_name,
          )
          refl,
      rw (get_schema, m, there, deserialize-serialize schema f) refl,
    )
