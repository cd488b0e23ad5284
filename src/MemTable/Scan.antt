-- ===== src/MemTable/Scan.antt =====
-- `scan` returns the entries of a closed interval of keys.
use nexus_db_main.Common.{true, ◌&&◌, Bytes, ◌≡◌, Option, none, some, if◌then◌else◌}
use nexus_db_main.Text.{str_le}
use nexus_db_main.StdMap.{Map, find, IsSorted}
use nexus_db_main.StdMap.Ranges.{between, walk-between, find-between, between-IsSorted}
use nexus_db_main.MemTable.{MemTable, scan}
use nexus_db_main.MemTable.Size.{IsValid}

-- What a scan of `[lo, hi]` has to return: the entries of the interval, tombstones included, in
-- ascending order.
pub record Scans (lo hi : Bytes) (m : MemTable) (r : Map (Option Bytes)) : Type 0 where
  pub returned : scan lo hi m ≡ some r
  pub sorted : IsSorted r
  pub exact :
      (q : Bytes) → find q r ≡ (if str_le lo q && str_le q hi then find q m.entries else none)

-- On a valid table and an interval that is not reversed, `scan` meets its end and returns in
-- ascending order exactly the entries with keys in the interval.
pub scan_lem :
    (lo hi : Bytes) (m : MemTable)
    → IsValid m
    → str_le lo hi ≡ true
    → (r : Map (Option Bytes)) × Scans lo hi m r
unfolding scan
scan_lem lo hi m v h = (
  between lo hi m.entries,
  record {
    returned = walk-between lo hi m.entries h;
    sorted = between-IsSorted lo hi m.entries v.sorted;
    exact = λ q. find-between lo hi q m.entries v.sorted;
  },
)
