-- ===== src/Engine/Keeps.antt =====
-- A flush and a compaction change nothing of what the engine answers.
use nexus_db_main.Common.{
  arith, ◌<◌, subst, List, [], ◌∷◌, Bytes, Bool, true, false, Option, none, some, ◌≡◌, refl, sym,
  ap, ◌∙◌, length, ltb, Bool-cases, ◌⊎◌, inl, inr, add_u64,
}
use nexus_db_main.Encoding.{Status, ok, io_error}
use nexus_db_main.StdMap.{find}
use nexus_db_main.MemTable.{MemTable}
use nexus_db_main.MemTable as MemTable
use nexus_db_main.MemTable.Size.{clear-IsValid}
use nexus_db_main.Wal as Wal
use nexus_db_main.SsTable.{DataEntry}
use nexus_db_main.SsTable.Reader.{SsTableReader}
use nexus_db_main.SsTable.Writer.{build}
use nexus_db_main.SsTable.Layout.{Fits, file_of, build-file_of}
use nexus_db_main.SsTable.Opening.{reader_of, open_file-file_of}
use nexus_db_main.Compaction.{compact, result_entries}
use nexus_db_main.Compaction.Merge.{or_else, newest, live, result_entries_some}
use nexus_db_main.Engine.{
  Engine, Answers, flush_memtable, flush_built, flush_entries, install, maybe_compact, compacted,
  replace_tables, compaction_threshold,
}
use nexus_db_main.Engine.View.{
  AllOpened, no_table, a_table, Holds, answer_of, read_inputs-AllOpened,
}

abbrev pub view : Bytes → Engine → List (List DataEntry) → Status × Bytes
view q e ts = answer_of (newest q (e.memtable.entries ∷ ts))

-- After a step the engine is sound, and answers as before.
pub record Keeps (e : Engine) (ts : List (List DataEntry)) (e' : Engine) : Type 0 where
  pub tables : List (List DataEntry)
  pub holds : Holds e'.memtable e'.sstables tables
  pub same : (q : Bytes) → view q e' tables ≡ view q e ts

pub Keeps_refl :
    (e : Engine) (ts : List (List DataEntry)) → Holds e.memtable e.sstables ts → Keeps e ts e
Keeps_refl e ts h = record { tables = ts; holds = h; same = λ q. refl }

pub Keeps-trans :
    (e : Engine) (ts : List (List DataEntry)) (e₁ e₂ : Engine) (k : Keeps e ts e₁)
    → Keeps e₁ k.tables e₂
    → Keeps e ts e₂
Keeps-trans e ts e₁ e₂ k l = record {
  tables = l.tables;
  holds = l.holds;
  same = λ q. l.same q ∙ k.same q;
}

install-file_of :
    (answers : Answers) (first : DataEntry) (others : List DataEntry) (e : Engine)
    → Fits (first ∷ others)
    → install answers (file_of (first ∷ others)) e ≡ (
      ok,
      record {
        log = (Wal.clear answers.truncated e.log).1;
        memtable = MemTable.clear e.memtable;
        sstables = reader_of first others ∷ e.sstables;
        next_seq = add_u64 e.next_seq 1;
      },
    )
unfolding install
install-file_of answers first others e f = rw (open_file-file_of first others f, install) refl

or_else-none : (o : Option (Option Bytes)) → or_else none o ≡ o
or_else-none o = refl

-- The entries of the table in memory are now those of the newest file.
installed :
    (answers : Answers) (first : DataEntry) (others : List DataEntry) (e : Engine)
    (ts : List (List DataEntry))
    → e.memtable.entries ≡ first ∷ others
    → Fits (first ∷ others)
    → Holds e.memtable e.sstables ts
    → Keeps e ts (record {
      log = (Wal.clear answers.truncated e.log).1;
      memtable = MemTable.clear e.memtable;
      sstables = reader_of first others ∷ e.sstables;
      next_seq = add_u64 e.next_seq 1;
    })
unfolding MemTable.clear find
installed answers first others e ts m f h = record {
  tables = (first ∷ others) ∷ ts;
  holds = record {
    memory = clear-IsValid e.memtable;
    tables =
        a_table (record { first = first; others = others; form = refl; fits = f; reader = refl })
          h.tables;
  };
  same = λ q. ap (λ (t : List DataEntry). answer_of (newest q (t ∷ ts))) (sym m);
}

-- A flush keeps all that is held, whether `fopen` fails or the flush is done, if the entries fit the
-- sizes of a file.
pub record Flushes (e : Engine) (ts : List (List DataEntry)) (out : Status × Engine) : Type 0 where
  pub keeps : Keeps e ts out.1
  -- A flush that is done leaves the newest entries in the newest file, and none in memory.
  pub moved : out.0 ≡ ok → (out.1.memtable.entries ≡ []) × (keeps.tables ≡ e.memtable.entries ∷ ts)

build_unopened :
    (first : DataEntry) (others : List DataEntry) → build false (first ∷ others) ≡ (io_error, none)
unfolding build
build_unopened first others = refl

build-cases :
    (o : Bool) (first : DataEntry) (others : List DataEntry)
    → Fits (first ∷ others)
    → (build o (first ∷ others) ≡ (ok, some (file_of (first ∷ others))))
      ⊎ (build o (first ∷ others) ≡ (io_error, none))
build-cases true first others f = inl (build-file_of first others f)
build-cases false first others f = inr (build_unopened first others)

flush_memtable-built :
    (answers : Answers) (first : DataEntry) (others : List DataEntry) (e : Engine)
    → e.memtable.entries ≡ first ∷ others
    → flush_memtable answers e ≡ flush_built answers (build answers.flush_opened (first ∷ others)) e
unfolding flush_memtable flush_entries MemTable.dump_sorted
flush_memtable-built answers first others e m =
    ap (λ (es : List DataEntry). flush_entries answers es e) m

pub flush_memtable-Flushes :
    (answers : Answers) (first : DataEntry) (others : List DataEntry) (e : Engine)
    (ts : List (List DataEntry))
    → e.memtable.entries ≡ first ∷ others
    → Fits (first ∷ others)
    → Holds e.memtable e.sstables ts
    → Flushes e ts (flush_memtable answers e)
unfolding flush_built MemTable.clear installed
flush_memtable-Flushes answers first others e ts m f h =
    let begun = flush_memtable-built answers first others e m in
    let then_built = λ (out : Status × Option Bytes). flush_built answers out e in
    elim (build-cases answers.flush_opened first others f) [
      | inl b ↦
          subst (Flushes e ts)
            (sym (begun ∙ (ap then_built b ∙ install-file_of answers first others e f)))
            (record {
              keeps = installed answers first others e ts m f h;
              moved = λ s. (refl, ap (λ (t : List DataEntry). t ∷ ts) (sym m));
            })
      | inr b ↦
          subst (Flushes e ts) (sym (begun ∙ ap then_built b))
            (record { keeps = Keeps_refl e ts h; moved = λ s. cc })
    ]

answer_of-live :
    (held older : Option (Option Bytes))
    → answer_of (or_else held (or_else (live older) none)) ≡ answer_of (or_else held older)
unfolding answer_of
answer_of-live (some v) older = refl
answer_of-live none none = refl
answer_of-live none (some none) = refl
answer_of-live none (some (some v)) = refl

replaced : DataEntry → List DataEntry → Engine → Engine
replaced first others e = record e {
  sstables = reader_of first others ∷ [];
  next_seq = add_u64 e.next_seq 1;
}

replace_tables-file_of :
    (first : DataEntry) (others : List DataEntry) (e : Engine)
    → Fits (first ∷ others)
    → replace_tables (file_of (first ∷ others)) e ≡ (ok, replaced first others e)
unfolding replace_tables replaced
replace_tables-file_of first others e f = rw (open_file-file_of first others f, replace_tables) refl

replaced-Keeps :
    (first : DataEntry) (others : List DataEntry) (e : Engine) (ts : List (List DataEntry))
    → Fits (first ∷ others)
    → Holds e.memtable e.sstables ts
    → ((q : Bytes) → find q (first ∷ others) ≡ live (newest q ts))
    → Keeps e ts (replaced first others e)
unfolding replaced
replaced-Keeps first others e ts f h k = record {
  tables = (first ∷ others) ∷ [];
  holds = record {
    memory = h.memory;
    tables =
        a_table (record { first = first; others = others; form = refl; fits = f; reader = refl })
          no_table;
  };
  same = λ q.
      ap
        (λ (o : Option (Option Bytes)).
          answer_of (or_else (find q e.memtable.entries) (or_else o none)))
        (k q)
      ∙ answer_of-live (find q e.memtable.entries) (newest q ts);
}

-- What `compacted` makes of the two answers of `fopen`.
compacted-Keeps :
    (o : Bool) (first : DataEntry) (others : List DataEntry) (e : Engine)
    (ts : List (List DataEntry))
    → Fits (first ∷ others)
    → Holds e.memtable e.sstables ts
    → ((q : Bytes) → find q (first ∷ others) ≡ live (newest q ts))
    → Keeps e ts (compacted (build o (first ∷ others)) e).1
unfolding compacted
compacted-Keeps o first others e ts f h k =
    let step : Status × Option Bytes → Engine = λ out. (compacted out e).1 in
    elim (build-cases o first others f) [
      | inl b ↦
          subst (Keeps e ts)
            (sym (
              ap step b
              ∙ ap (λ (p : Status × Engine). p.1) (replace_tables-file_of first others e f)))
            (replaced-Keeps first others e ts f h k)
      | inr b ↦ subst (Keeps e ts) (sym (ap step b)) (Keeps_refl e ts h)
    ]

compact-result :
    (o : Bool) (rs : List SsTableReader) (ts : List (List DataEntry))
    → AllOpened rs ts
    → 0 < length rs
    → compact o rs ≡ some (build o (result_entries ts))
unfolding compact
compact-result o [] ts a n = absurd (omega arith)
compact-result o (r ∷ rs) ts a n = rw (read_inputs-AllOpened (r ∷ rs) ts a) refl

-- A compaction of the files keeps all that is held, if one of them holds a value that is newest and
-- the entries that are left fit the sizes of a file.
pub maybe_compact-Keeps :
    (answers : Answers) (e : Engine) (ts : List (List DataEntry))
    → Holds e.memtable e.sstables ts
    → Fits (result_entries ts)
    → ((q : Bytes) → find q (result_entries ts) ≡ live (newest q ts))
    → (out : Status × Engine) × (maybe_compact answers e ≡ some out) × Keeps e ts out.1
unfolding maybe_compact
maybe_compact-Keeps answers e ts h f k =
    let (first, others, form) = result_entries_some ts in
    elim (Bool-cases (ltb (length e.sstables) compaction_threshold)) [
      | inl c ↦ ((ok, e), rw c refl, Keeps_refl e ts h)
      | inr c ↦ (
        compacted (build answers.compact_opened (result_entries ts)) e,
        rw (c, compact-result answers.compact_opened e.sstables ts h.tables (ground arith)) refl,
        subst (λ (t : List DataEntry). Keeps e ts (compacted (build answers.compact_opened t) e).1)
            (sym form)
            (compacted-Keeps answers.compact_opened first others e ts (rw form at f) h
              (λ q. ap (find q) (sym form) ∙ k q)),
      )
    ]
