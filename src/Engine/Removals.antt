-- ===== src/Engine/Removals.antt =====
-- What `get` answers after a `remove` that the log took, whatever a flush behind it does.
use nexus_db_main.Common.{
  ◌+◌, ◌^◌, ◌<◌, List, [], Bytes, false, Option, none, some, ◌≡◌, ◌≢◌, refl, sym, ap, subst, ◌∙◌,
  is_empty, if◌then◌else◌, length, Bool-cases, inl, inr,
}
use nexus_db_main.Text.{str_eq}
use nexus_db_main.Encoding.{ok, not_found, OpType}
use nexus_db_main.StdMap.{assign}
use nexus_db_main.MemTable as MemTable
use nexus_db_main.MemTable.Size.{remove-IsValid, total_size}
use nexus_db_main.Wal as Wal
use nexus_db_main.SsTable.{DataEntry}
use nexus_db_main.SsTable.Layout.{Fits}
use nexus_db_main.Engine.{Engine, Answers, flush_memtable, after_remove, remove, get}
use nexus_db_main.Engine.View.{get-empty_kept, Holds, answer_of, get-newest}
use nexus_db_main.Engine.Keeps.{Keeps, Keeps_refl, flush_memtable-Flushes, view}
use nexus_db_main.Engine.Writes.{newest-assign, assign-ne-nil, some_first}

-- The engine once the log and the table in memory have the tombstone.
abbrev pub removed : Bytes → Bytes → Engine → Engine
removed log key e = record e { log = log; memtable = MemTable.remove key e.memtable }

after_remove-Keeps :
    (answers : Answers) (e : Engine) (ts : List (List DataEntry))
    → Holds e.memtable e.sstables ts
    → Fits e.memtable.entries
    → e.memtable.entries ≢ []
    → (e' : Engine) × (after_remove answers e ≡ (ok, e')) × Keeps e ts e'
unfolding after_remove
after_remove-Keeps answers e ts h f ne =
    let (first, others, m) = some_first e.memtable.entries ne in
    elim (Bool-cases (MemTable.should_flush e.memtable)) [
      | inr c ↦ (e, rw c refl, Keeps_refl e ts h)
      | inl c ↦ (
        (flush_memtable answers e).1,
        rw c refl,
        (flush_memtable-Flushes answers first others e ts m (subst Fits m f) h).keeps,
      )
    ]

removed-Keeps :
    (answers : Answers) (log key : Bytes) (e : Engine) (ts : List (List DataEntry))
    → Holds e.memtable e.sstables ts
    → total_size e.memtable.entries + length key < 2 ^ 64
    → Fits (assign key none e.memtable.entries)
    → (e' : Engine) × (after_remove answers (removed log key e) ≡ (ok, e'))
      × Keeps (removed log key e) ts e'
unfolding MemTable.remove
removed-Keeps answers log key e ts h b f =
    after_remove-Keeps answers (removed log key e) ts
      (record {
        memory = unfold MemTable.remove in remove-IsValid key e.memtable b h.memory;
        tables = h.tables;
      })
      f (assign-ne-nil key none e.memtable.entries)

remove-after_remove :
    (answers : Answers) (log key : Bytes) (e : Engine)
    → is_empty key ≡ false
    → Wal.append answers.append_io OpType.delete key [] e.log ≡ some (ok, log)
    → remove answers key e ≡ some (after_remove answers (removed log key e))
unfolding remove
remove-after_remove answers log key e n a = rw (n, a) refl

view-removed :
    (log key : Bytes) (e : Engine) (ts : List (List DataEntry)) (q : Bytes)
    → get q e ≡ some (view q e ts)
    → some (view q (removed log key e) ts)
      ≡ (if str_eq key q then some (not_found, []) else get q e)
unfolding answer_of MemTable.remove
view-removed log key e ts q g =
    ap (λ (o : Option (Option Bytes)). some (answer_of o))
      (newest-assign key q none e.memtable.entries ts)
    ∙ elim (Bool-cases (str_eq key q)) [ inl c ↦ rw c refl | inr c ↦ rw c (sym g) ]

-- A `remove` that the log takes returns OK, and after it `get` returns NOT_FOUND for its key, in
-- whichever file the key has values, and what it returned before for any other key: whatever
-- `fopen` and the truncation of the log answer, and whether the table in memory is flushed or not.
-- Before it the table in memory is sound and the readers are of files that `build` wrote; what is
-- flushed fits the sizes of a file.
pub remove-get :
    (answers : Answers) (log key : Bytes) (e : Engine) (ts : List (List DataEntry))
    → is_empty key ≡ false
    → Wal.append answers.append_io OpType.delete key [] e.log ≡ some (ok, log)
    → Holds e.memtable e.sstables ts
    → total_size e.memtable.entries + length key < 2 ^ 64
    → Fits (assign key none e.memtable.entries)
    → (e' : Engine) × (remove answers key e ≡ some (ok, e'))
      × ((q : Bytes) → get q e' ≡ (if str_eq key q then some (not_found, []) else get q e))
remove-get answers log key e ts n a h b f =
    let (e', step, k) = removed-Keeps answers log key e ts h b f in
    (
      e',
      remove-after_remove answers log key e n a ∙ ap some step,
      λ q. elim (Bool-cases (is_empty q)) [
        | inl nq ↦ get-empty_kept key q e e' (some (not_found, [])) n nq
        | inr nq ↦
            get-newest q e' k.tables nq k.holds
            ∙ (ap some (k.same q) ∙ view-removed log key e ts q (get-newest q e ts nq h))
      ],
    )
