-- ===== src/SsTable/Loops.antt =====
-- The reader's loops over the data section of a file that holds entries as written.
use nexus_db_main.Common.{
  ℕ, zero, suc, ◌+◌, ◌^◌, ◌<◌, ◌≤◌, List, [], ◌∷◌, ◌++◌, Bytes, true, false, lt, eq, gt, Option,
  none, some, ◌≡◌, refl, length, arith, append_assoc, lt→ltb, ltb-false, All, add_u64, ◌>>=◌,
}
use native.Mathlib.Nat.{mod-eq_of_lt}
use nexus_db_main.Text.{str_compare}
use nexus_db_main.Text.Order.{lt_of_gt}
use nexus_db_main.StdMap.{find, IsSorted}
use nexus_db_main.StdMap.Find.{find-Above}
use nexus_db_main.SsTable.{DataEntry, LookupResult, entry_step}
use nexus_db_main.SsTable.Writer.{val_size, val_data, entry_bytes}
use nexus_db_main.SsTable.Queries.{not_found, read_val, hit, scan_from, entries_loop}
use nexus_db_main.SsTable.Data.{
  entry_size, FitsEntry, data_bytes, data_size, read_key-entry_bytes, drop-val_data,
  read_val-val_data, entry_step-eq,
}

-- The position after an entry.
pub next_pos :
    (pos : ℕ) (key : Bytes) (val : Option Bytes)
    → FitsEntry (key, val)
    → pos + entry_size (key, val) < 2 ^ 64
    → add_u64 pos (entry_step key (val_size val)) ≡ pos + entry_size (key, val)
next_pos pos key val h b =
    rw (entry_step-eq key val h) (mod-eq_of_lt {n = pos + entry_size (key, val)} {m = 2 ^ 64} b)

entries_loop_step :
    (fuel end pos : ℕ) (key : Bytes) (val : Option Bytes) (rest : Bytes)
    → FitsEntry (key, val)
    → pos + entry_size (key, val) ≤ end
    → end < 2 ^ 64
    → entries_loop (suc fuel) end pos (entry_bytes (key, val) ++ rest)
      ≡ (entries_loop fuel end (pos + entry_size (key, val)) rest >>= λ es. some ((key, val) ∷ es))
unfolding entries_loop
entries_loop_step fuel end pos key val rest h le b = rw (
  lt→ltb pos end (omega arith),
  entries_loop,
  read_key-entry_bytes key val rest h,
  read_val-val_data key val rest h,
  next_pos pos key val h (omega arith),
)

pub entries_loop-data_bytes :
    (fuel end pos : ℕ) (es : List DataEntry) (rest : Bytes)
    → length es < fuel
    → All FitsEntry es
    → end ≡ pos + data_size es
    → end < 2 ^ 64
    → entries_loop fuel end pos (data_bytes es ++ rest) ≡ some es
unfolding entries_loop
entries_loop-data_bytes zero end pos es rest f h e b = absurd (omega arith)
entries_loop-data_bytes (suc fuel) end pos [] rest f h e b =
    rw (ltb-false pos end (omega arith), entries_loop)
entries_loop-data_bytes (suc fuel) end pos ((key, val) ∷ es) rest f h e b = rw (
  append_assoc (entry_bytes (key, val)) (data_bytes es) rest,
  entries_loop_step fuel end pos key val (data_bytes es ++ rest) h.0 (omega arith) b,
  entries_loop-data_bytes fuel end (pos + entry_size (key, val)) es rest (omega arith) h.1
      (omega arith) b,
)

-- The result for what the entries hold.
unfoldable pub found_entry : Option (Option Bytes) → LookupResult
found_entry none = not_found
found_entry (some none) = record { found = true; is_tombstone = true; value = [] }
found_entry (some (some v)) = record { found = true; is_tombstone = false; value = v }

hit-val_data :
    (key : Bytes) (val : Option Bytes) (rest : Bytes)
    → FitsEntry (key, val)
    → hit (val_size val) (val_data val ++ rest) ≡ found_entry (some val)
unfolding hit found_entry read_val
hit-val_data key none rest h = refl
hit-val_data key (some v) rest h = rw (read_val-val_data key (some v) rest h, hit)

module _ (fuel end pos : ℕ) (q key : Bytes) (val : Option Bytes) (rest : Bytes)
    (h : FitsEntry (key, val)) (le : pos + entry_size (key, val) ≤ end) (b : end < 2 ^ 64) where
  scan_from-lt :
      str_compare key q ≡ lt
      → scan_from (suc fuel) end pos q (entry_bytes (key, val) ++ rest)
        ≡ scan_from fuel end (pos + entry_size (key, val)) q rest
  unfolding scan_from
  scan_from-lt c = rw (
    lt→ltb pos end (omega arith),
    scan_from,
    read_key-entry_bytes key val rest h,
    c,
    drop-val_data key val rest h,
    next_pos pos key val h (omega arith),
  )

  scan_from-eq :
      str_compare key q ≡ eq
      → scan_from (suc fuel) end pos q (entry_bytes (key, val) ++ rest)
        ≡ some (found_entry (some val))
  unfolding scan_from
  scan_from-eq c = rw (
    lt→ltb pos end (omega arith),
    scan_from,
    read_key-entry_bytes key val rest h,
    c,
    hit-val_data key val rest h,
  )

  scan_from-gt :
      str_compare key q ≡ gt
      → scan_from (suc fuel) end pos q (entry_bytes (key, val) ++ rest) ≡ some not_found
  unfolding scan_from
  scan_from-gt c =
      rw (lt→ltb pos end (omega arith), scan_from, read_key-entry_bytes key val rest h, c)

pub scan_from-data_bytes :
    (fuel end pos : ℕ) (q : Bytes) (es : List DataEntry) (rest : Bytes)
    → length es < fuel
    → All FitsEntry es
    → IsSorted es
    → end ≡ pos + data_size es
    → end < 2 ^ 64
    → scan_from fuel end pos q (data_bytes es ++ rest) ≡ some (found_entry (find q es))
unfolding scan_from find found_entry
scan_from-data_bytes zero end pos q es rest f h s e b = absurd (omega arith)
scan_from-data_bytes (suc fuel) end pos q [] rest f h s e b =
    rw (ltb-false pos end (omega arith), scan_from)
scan_from-data_bytes (suc fuel) end pos q ((key, val) ∷ es) rest f h s e b =
    rw (append_assoc (entry_bytes (key, val)) (data_bytes es) rest) (
      ground (
        arith,
        scan_from-lt fuel end pos q key val (data_bytes es ++ rest) h.0 (omega arith) b,
        scan_from-eq fuel end pos q key val (data_bytes es ++ rest) h.0 (omega arith) b,
        scan_from-gt fuel end pos q key val (data_bytes es ++ rest) h.0 (omega arith) b,
        scan_from-data_bytes fuel end (pos + entry_size (key, val)) q es rest (omega arith) h.1 s.1
            (omega arith) b,
        find-Above key q es s.0,
        lt_of_gt key q,
      ))
