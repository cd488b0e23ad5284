-- ===== src/Engine/Scans.antt =====
-- `scan` of the engine against what is held for each key.
use nexus_db_main.Common.{
  List, [], ◌∷◌, Bytes, Bool, true, false, ◌&&◌, Option, none, some, ◌≡◌, refl, ap, ◌∙◌, All,
  if◌then◌else◌, Bool-cases, inl, inr, arith,
}
use nexus_db_main.Text.{str_le, str_lt}
use nexus_db_main.Text.Order.{eq_of_compare, compare_refl, gt_of_lt}
use nexus_db_main.StdMap.{Map, find, IsSorted, Above}
use nexus_db_main.StdMap.Find.{find-Above}
use nexus_db_main.StdMap.Ranges.{between, walk-between, find-between, between-IsSorted}
use nexus_db_main.MemTable.{MemTable}
use nexus_db_main.MemTable as MemTable
use nexus_db_main.SsTable.{DataEntry}
use nexus_db_main.SsTable.Reader.{SsTableReader}
use nexus_db_main.SsTable.Queries as Queries
use nexus_db_main.SsTable.Answers.{scan-reader_of}
use nexus_db_main.Compaction.{merge}
use nexus_db_main.Compaction.Merge.{newest, find-merge, merge-IsSorted}
use nexus_db_main.Engine.{Engine, scan, scan_tables, values}
use nexus_db_main.Engine.View.{Opened, AllOpened, no_table, a_table, Holds}
use nexus_db_main.Engine.Writes.{AllOpened-IsSorted}

-- The value of an entry that is no tombstone.
abbrev pub value_of : Option (Option Bytes) → Option Bytes
value_of none = none
value_of (some v) = v

values-Above : (b : Bytes) (m : List DataEntry) → Above b m → Above b (values m)
unfolding values
values-Above b [] a = tt
values-Above b ((k, none) ∷ m) a = values-Above b m a.1
values-Above b ((k, some v) ∷ m) a = (a.0, values-Above b m a.1)

values-IsSorted : (m : List DataEntry) → IsSorted m → IsSorted (values m)
unfolding values
values-IsSorted [] s = tt
values-IsSorted ((k, none) ∷ m) s = values-IsSorted m s.1
values-IsSorted ((k, some v) ∷ m) s = (values-Above k m s.0, values-IsSorted m s.1)

find-values :
    (q : Bytes) (m : List DataEntry) → IsSorted m → find q (values m) ≡ value_of (find q m)
unfolding find values
find-values q [] s = refl
find-values q ((k, none) ∷ m) s =
    ground (arith, find-values q m s.1, find-Above k q m s.0, eq_of_compare k q, compare_refl q)
find-values q ((k, some v) ∷ m) s = ground (arith, find-values q m s.1)

-- Each table, cut to an interval.
abbrev cut : Bytes → Bytes → List (List DataEntry) → List (List DataEntry)
cut lo hi [] = []
cut lo hi (t ∷ ts) = between lo hi t ∷ cut lo hi ts

cut-IsSorted :
    (lo hi : Bytes) (ts : List (List DataEntry)) → All IsSorted ts → All IsSorted (cut lo hi ts)
cut-IsSorted lo hi [] s = tt
cut-IsSorted lo hi (t ∷ ts) s = (between-IsSorted lo hi t s.0, cut-IsSorted lo hi ts s.1)

newest-cut :
    (lo hi q : Bytes) (ts : List (List DataEntry))
    → All IsSorted ts
    → newest q (cut lo hi ts) ≡ (if str_le lo q && str_le q hi then newest q ts else none)
newest-cut lo hi q [] s = ground arith
newest-cut lo hi q (t ∷ ts) s =
    rw (find-between lo hi q t s.0, newest-cut lo hi q ts s.1)
      (elim (Bool-cases (str_le lo q && str_le q hi)) [ inl c ↦ rw c refl | inr c ↦ rw c refl ])

Opened-scan :
    (lo hi : Bytes) (r : SsTableReader) (t : List DataEntry)
    → Opened r t
    → Queries.scan lo hi r ≡ some (between lo hi t)
Opened-scan lo hi r t o = rw (o.reader, o.form) (scan-reader_of o.first o.others lo hi o.fits)

scan_tables-merge :
    (lo hi : Bytes) (rs : List SsTableReader) (ts : List (List DataEntry))
    → AllOpened rs ts
    → scan_tables lo hi rs ≡ some (merge (cut lo hi ts))
unfolding scan_tables merge
scan_tables-merge lo hi _ _ no_table = refl
scan_tables-merge lo hi _ _ (a_table {r} {t} {rs} {ts} o os) =
    rw (scan_tables-merge lo hi rs ts os, Opened-scan lo hi r t o)

memory-scan :
    (lo hi : Bytes) (m : MemTable)
    → str_le lo hi ≡ true
    → MemTable.scan lo hi m ≡ some (between lo hi m.entries)
unfolding MemTable.scan
memory-scan lo hi m h = walk-between lo hi m.entries h

not_reversed : (lo hi : Bytes) → str_le lo hi ≡ true → str_lt hi lo ≡ false
not_reversed lo hi h = ground (arith, gt_of_lt hi lo)

scan-merge :
    (lo hi : Bytes) (e : Engine) (ts : List (List DataEntry))
    → str_le lo hi ≡ true
    → AllOpened e.sstables ts
    → scan lo hi e ≡ some (values (merge (cut lo hi (e.memtable.entries ∷ ts))))
unfolding scan merge
scan-merge lo hi e ts h a =
    rw (
      not_reversed lo hi h,
      scan_tables-merge lo hi e.sstables ts a,
      memory-scan lo hi e.memtable h,
    )

-- What a scan of `[lo, hi]` has to return.
pub record Scans (lo hi : Bytes) (e : Engine) (ts : List (List DataEntry)) (r : Map Bytes)
    : Type 0 where
  pub returned : scan lo hi e ≡ some r
  pub sorted : IsSorted r
  pub exact :
      (q : Bytes)
      → find q r ≡ (
          if str_le lo q && str_le q hi
          then value_of (newest q (e.memtable.entries ∷ ts))
          else none)

value_of-if :
    (c : Bool) (o : Option (Option Bytes))
    → value_of (if c then o else none) ≡ (if c then value_of o else none)
value_of-if true o = refl
value_of-if false o = refl

-- `scan` of an interval that is not reversed returns, in ascending order, for exactly the keys of
-- the interval whose newest entry is a value, that value. The table in memory is sound and the
-- readers are of files that `build` wrote.
pub scan-newest :
    (lo hi : Bytes) (e : Engine) (ts : List (List DataEntry))
    → str_le lo hi ≡ true
    → Holds e.memtable e.sstables ts
    → (r : Map Bytes) × Scans lo hi e ts r
scan-newest lo hi e ts h holds =
    let all = e.memtable.entries ∷ ts in
    let s : All IsSorted (e.memtable.entries ∷ ts) =
      (holds.memory.sorted, AllOpened-IsSorted e.sstables ts holds.tables) in
    let merged = merge-IsSorted (cut lo hi all) in
    (
      values (merge (cut lo hi all)),
      record {
        returned = scan-merge lo hi e ts h holds.tables;
        sorted = values-IsSorted (merge (cut lo hi all)) merged;
        exact = λ q.
            find-values q (merge (cut lo hi all)) merged
            ∙ (ap value_of (
                  find-merge q (cut lo hi all) (cut-IsSorted lo hi all s)
                  ∙ newest-cut lo hi q all s)
                ∙ value_of-if (str_le lo q && str_le q hi) (newest q all));
      },
    )
