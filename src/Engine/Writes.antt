-- ===== src/Engine/Writes.antt =====
-- What `get` answers after a `put` that the log took, whatever a flush or a compaction behind it
-- does.
use nexus_db_main.Common.{
  ◌+◌, ◌^◌, ◌<◌, List, [], ◌∷◌, Bytes, true, false, Option, some, ◌≡◌, ◌≢◌, refl, sym, ap, subst,
  ◌∙◌, is_empty, if◌then◌else◌, All, length, Bool-cases, inl, inr, arith,
}
use nexus_db_main.Text.{str_eq}
use nexus_db_main.Text.Order.{str_eq_refl}
use nexus_db_main.Encoding.{Status, ok, is_ok, OpType}
use nexus_db_main.StdMap.{find, assign, IsSorted}
use nexus_db_main.StdMap.Find.{find-assign}
use nexus_db_main.MemTable.{MemTable}
use nexus_db_main.MemTable as MemTable
use nexus_db_main.MemTable.Size.{put-IsValid, total_size, value_size}
use nexus_db_main.Wal as Wal
use nexus_db_main.SsTable.{DataEntry}
use nexus_db_main.SsTable.Reader.{SsTableReader}
use nexus_db_main.SsTable.Layout.{Fits}
use nexus_db_main.Compaction.{result_entries}
use nexus_db_main.Compaction.Merge.{newest, live, result_entries_lem}
use nexus_db_main.Engine.{Engine, Answers, flush_memtable, put_flushed, after_put, put, get}
use nexus_db_main.Engine.View.{
  get-empty_kept, AllOpened, no_table, a_table, Holds, answer_of, get-newest,
}
use nexus_db_main.Engine.Keeps.{
  Keeps, Keeps_refl, Keeps-trans, Flushes, flush_memtable-Flushes, maybe_compact-Keeps, view,
}

pub AllOpened-IsSorted :
    (rs : List SsTableReader) (ts : List (List DataEntry)) → AllOpened rs ts → All IsSorted ts
AllOpened-IsSorted _ _ no_table = tt
AllOpened-IsSorted _ _ (a_table {r} {t} {rs} {ts} o os) =
    (subst IsSorted (sym o.form) o.fits.sorted, AllOpened-IsSorted rs ts os)

-- With a value that is newest, the result of a compaction has no filler.
kept_exactly :
    (ts : List (List DataEntry)) (key value : Bytes)
    → All IsSorted ts
    → newest key ts ≡ some (some value)
    → (q : Bytes) → find q (result_entries ts) ≡ live (newest q ts)
kept_exactly ts key value s n = elim ((result_entries_lem ts s).kept) [
  | inl k ↦ k
  | inr (nothing, _) ↦ absurd (cc (nothing key, n))
]

is_ok→eq : (s : Status) → is_ok s ≡ true → s ≡ ok
is_ok→eq s h = ground arith

put_flushed-Keeps :
    (answers : Answers) (e : Engine) (ts : List (List DataEntry)) (key value : Bytes)
    (out : Status × Engine)
    → Flushes e ts out
    → All IsSorted (e.memtable.entries ∷ ts)
    → newest key (e.memtable.entries ∷ ts) ≡ some (some value)
    → Fits (result_entries (e.memtable.entries ∷ ts))
    → (e' : Engine) × (put_flushed answers out ≡ some (ok, e')) × Keeps e ts e'
unfolding put_flushed
put_flushed-Keeps answers e ts key value (status, e₁) f s n r = elim (Bool-cases (is_ok status)) [
  | inr c ↦ (e₁, rw c refl, f.keeps)
  | inl c ↦
      let tabs = (f.moved (is_ok→eq status c)).1 in
      let kept =
        subst
          (λ (t : List (List DataEntry)).
            (q : Bytes) → find q (result_entries t) ≡ live (newest q t))
          (sym tabs) (kept_exactly (e.memtable.entries ∷ ts) key value s n) in
      let fits = subst (λ (t : List (List DataEntry)). Fits (result_entries t)) (sym tabs) r in
      let (out, step, k) = maybe_compact-Keeps answers e₁ f.keeps.tables f.keeps.holds fits kept in
      (out.1, rw (c, step) refl, Keeps-trans e ts e₁ out.1 f.keeps k)
]

-- The entries of the table in memory with a new value, and what has to fit for a flush of them and a
-- compaction behind it.
pub record Room (key : Bytes) (val : Option Bytes) (e : Engine) (ts : List (List DataEntry))
    : Type 0 where
  pub bytes_fit : total_size e.memtable.entries + length key + value_size val < 2 ^ 64
  pub flush_fits : Fits (assign key val e.memtable.entries)
  pub compact_fits : Fits (result_entries (assign key val e.memtable.entries ∷ ts))

after_put-Keeps :
    (answers : Answers) (e : Engine) (ts : List (List DataEntry)) (key value : Bytes)
    → Holds e.memtable e.sstables ts
    → Fits e.memtable.entries
    → Fits (result_entries (e.memtable.entries ∷ ts))
    → newest key (e.memtable.entries ∷ ts) ≡ some (some value)
    → (first : DataEntry) × (others : List DataEntry) × (e.memtable.entries ≡ first ∷ others)
    → (e' : Engine) × (after_put answers e ≡ some (ok, e')) × Keeps e ts e'
unfolding after_put
after_put-Keeps answers e ts key value h f r n (first, others, m) =
    elim (Bool-cases (MemTable.should_flush e.memtable)) [
      | inr c ↦ (e, rw c refl, Keeps_refl e ts h)
      | inl c ↦
          let (e', step, k) =
            put_flushed-Keeps answers e ts key value (flush_memtable answers e)
              (flush_memtable-Flushes answers first others e ts m (subst Fits m f) h)
              (f.sorted, AllOpened-IsSorted e.sstables ts h.tables) n r in
          (e', rw c step, k)
    ]

pub assign-ne-nil : (key : Bytes) (val : Option Bytes) (m : List DataEntry) → assign key val m ≢ []
unfolding assign
assign-ne-nil key val [] = λ p. cc
assign-ne-nil key val ((k, v) ∷ m) = ground arith

pub some_first :
    (xs : List DataEntry)
    → xs ≢ []
    → (first : DataEntry) × (others : List DataEntry) × (xs ≡ first ∷ others)
some_first [] n = absurd (n refl)
some_first (x ∷ xs) n = (x, xs, refl)

pub newest-assign :
    (key q : Bytes) (val : Option Bytes) (m : List DataEntry) (ts : List (List DataEntry))
    → newest q (assign key val m ∷ ts) ≡ (if str_eq key q then some val else newest q (m ∷ ts))
newest-assign key q val m ts =
    rw (find-assign key q val m)
      (elim (Bool-cases (str_eq key q)) [ inl c ↦ rw c refl | inr c ↦ rw c refl ])

-- The engine once the log and the table in memory have a new value.
abbrev pub written : Bytes → Bytes → Bytes → Engine → Engine
written log key value e = record e { log = log; memtable = MemTable.put key value e.memtable }

written-Keeps :
    (answers : Answers) (log key value : Bytes) (e : Engine) (ts : List (List DataEntry))
    → Holds e.memtable e.sstables ts
    → Room key (some value) e ts
    → (e' : Engine) × (after_put answers (written log key value e) ≡ some (ok, e'))
      × Keeps (written log key value e) ts e'
unfolding MemTable.put
written-Keeps answers log key value e ts h r =
    after_put-Keeps answers (written log key value e) ts key value
      (record {
        memory = unfold MemTable.put in put-IsValid key value e.memtable r.bytes_fit h.memory;
        tables = h.tables;
      })
      r.flush_fits r.compact_fits
      (rw (newest-assign key key (some value) e.memtable.entries ts, str_eq_refl key) refl)
      (some_first _ (assign-ne-nil key (some value) e.memtable.entries))

view-written :
    (log key value : Bytes) (e : Engine) (ts : List (List DataEntry)) (q : Bytes)
    → get q e ≡ some (view q e ts)
    → some (view q (written log key value e) ts)
      ≡ (if str_eq key q then some (ok, value) else get q e)
unfolding answer_of MemTable.put
view-written log key value e ts q g =
    ap (λ (o : Option (Option Bytes)). some (answer_of o))
      (newest-assign key q (some value) e.memtable.entries ts)
    ∙ elim (Bool-cases (str_eq key q)) [ inl c ↦ rw c refl | inr c ↦ rw c (sym g) ]

put-after_put :
    (answers : Answers) (log key value : Bytes) (e : Engine)
    → is_empty key ≡ false
    → Wal.append answers.append_io OpType.put key value e.log ≡ some (ok, log)
    → put answers key value e ≡ after_put answers (written log key value e)
unfolding put
put-after_put answers log key value e n a = rw (n, a) refl

pub put-get :
    (answers : Answers) (log key value : Bytes) (e : Engine) (ts : List (List DataEntry))
    → is_empty key ≡ false
    → Wal.append answers.append_io OpType.put key value e.log ≡ some (ok, log)
    → Holds e.memtable e.sstables ts
    → Room key (some value) e ts
    → (e' : Engine) × (put answers key value e ≡ some (ok, e'))
      × ((q : Bytes) → get q e' ≡ (if str_eq key q then some (ok, value) else get q e))
put-get answers log key value e ts n a h r =
    let (e', step, k) = written-Keeps answers log key value e ts h r in
    (
      e',
      put-after_put answers log key value e n a ∙ step,
      λ q. elim (Bool-cases (is_empty q)) [
        | inl nq ↦ get-empty_kept key q e e' (some (ok, value)) n nq
        | inr nq ↦
            get-newest q e' k.tables nq k.holds
            ∙ (ap some (k.same q) ∙ view-written log key value e ts q (get-newest q e ts nq h))
      ],
    )
