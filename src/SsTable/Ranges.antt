-- ===== src/SsTable/Ranges.antt =====
-- The loops that find the largest key of a file and the entries of an interval of keys.
use nexus_db_main.Common.{
  ℕ, zero, suc, ◌+◌, ◌^◌, ◌<◌, ◌≤◌, List, [], ◌∷◌, ◌++◌, Bytes, true, false, Option, some, ◌≡◌,
  refl, length, u32, arith, append_assoc, inl, inr, Bool-cases, lt→ltb, ltb-false, All, add_u64,
  ◌>>=◌,
}
use native.Mathlib.Nat.{mod-eq_of_lt}
use nexus_db_main.Common.Reads.{read_exactly-append}
use nexus_db_main.Text.{str_le}
use nexus_db_main.StdMap.{IsSorted}
use nexus_db_main.StdMap.Ranges.{between, between-nil, between_past, between_skip, between_keep}
use nexus_db_main.StdMap.Parts.{last_of}
use nexus_db_main.SsTable.{DataEntry, actual_size}
use nexus_db_main.SsTable.Writer.{val_size, val_data, entry_bytes}
use nexus_db_main.SsTable.Reader.{max_key_loop}
use nexus_db_main.SsTable.Queries.{scan_loop}
use nexus_db_main.SsTable.Data.{
  entry_size, FitsEntry, data_bytes, data_size, read_key-entry_bytes, drop-val_data,
  read_val-val_data, entry_parts, sizes, length-sizes, first_size, second_size, val_size-lt,
  actual_size-val_size,
}
use nexus_db_main.SsTable.Loops.{next_pos}

module _ (fuel end pos : ℕ) (lo hi key : Bytes) (val : Option Bytes) (rest : Bytes)
    (h : FitsEntry (key, val)) (le : pos + entry_size (key, val) ≤ end) (b : end < 2 ^ 64) where
  scan_loop_past :
      str_le key hi ≡ false
      → scan_loop (suc fuel) end pos lo hi (entry_bytes (key, val) ++ rest) ≡ some []
  unfolding scan_loop
  scan_loop_past c =
      rw (lt→ltb pos end (omega arith), scan_loop, read_key-entry_bytes key val rest h, c)

  scan_loop_skip :
      str_le key hi ≡ true
      → str_le lo key ≡ false
      → scan_loop (suc fuel) end pos lo hi (entry_bytes (key, val) ++ rest)
        ≡ scan_loop fuel end (pos + entry_size (key, val)) lo hi rest
  unfolding scan_loop
  scan_loop_skip c d = rw (
    lt→ltb pos end (omega arith),
    scan_loop,
    read_key-entry_bytes key val rest h,
    c,
    d,
    drop-val_data key val rest h,
    next_pos pos key val h (omega arith),
  )

  scan_loop_keep :
      str_le key hi ≡ true
      → str_le lo key ≡ true
      → scan_loop (suc fuel) end pos lo hi (entry_bytes (key, val) ++ rest) ≡ (
          scan_loop fuel end (pos + entry_size (key, val)) lo hi rest >>= λ es.
          some ((key, val) ∷ es))
  unfolding scan_loop
  scan_loop_keep c d = rw (
    lt→ltb pos end (omega arith),
    scan_loop,
    read_key-entry_bytes key val rest h,
    c,
    d,
    read_val-val_data key val rest h,
    next_pos pos key val h (omega arith),
  )

pub scan_loop-data_bytes :
    (fuel end pos : ℕ) (lo hi : Bytes) (es : List DataEntry) (rest : Bytes)
    → length es < fuel
    → All FitsEntry es
    → IsSorted es
    → end ≡ pos + data_size es
    → end < 2 ^ 64
    → scan_loop fuel end pos lo hi (data_bytes es ++ rest) ≡ some (between lo hi es)
unfolding scan_loop
scan_loop-data_bytes zero end pos lo hi es rest f h s e b = absurd (omega arith)
scan_loop-data_bytes (suc fuel) end pos lo hi [] rest f h s e b =
    rw (ltb-false pos end (omega arith), scan_loop, between-nil {V = Option Bytes} lo hi)
scan_loop-data_bytes (suc fuel) end pos lo hi ((key, val) ∷ es) rest f h s e b =
    let more =
      scan_loop-data_bytes fuel end (pos + entry_size (key, val)) lo hi es rest (omega arith) h.1
        s.1 (omega arith) b in
    rw (append_assoc (entry_bytes (key, val)) (data_bytes es) rest)
      (elim (Bool-cases (str_le key hi)) [
        | inr c ↦ rw (
          scan_loop_past fuel end pos lo hi key val (data_bytes es ++ rest) h.0 (omega arith) b c,
          between_past lo hi key val es c s.0,
        )
        | inl c ↦ elim (Bool-cases (str_le lo key)) [
          | inr d ↦ rw (
            scan_loop_skip fuel end pos lo hi key val (data_bytes es ++ rest) h.0 (omega arith) b c
                d,
            between_skip lo hi key val es d,
            more,
          )
          | inl d ↦ rw (
            scan_loop_keep fuel end pos lo hi key val (data_bytes es ++ rest) h.0 (omega arith) b c
                d,
            between_keep lo hi key val es c d s.0,
            more,
          )
        ]
      ])

max_key_pos :
    (pos : ℕ) (key : Bytes) (val : Option Bytes)
    → FitsEntry (key, val)
    → pos + entry_size (key, val) < 2 ^ 64
    → add_u64 pos (u32 (8 + length key) + actual_size (val_size val)) ≡ pos + entry_size (key, val)
max_key_pos pos key val h b = rw (
  actual_size-val_size key val h,
  mod-eq_of_lt {n = 8 + length key} {m = 2 ^ 32} (omega arith),
  mod-eq_of_lt {n = pos + entry_size (key, val)} {m = 2 ^ 64} b,
)

max_key_loop_step :
    (fuel end pos : ℕ) (last key : Bytes) (val : Option Bytes) (rest : Bytes)
    → FitsEntry (key, val)
    → pos + entry_size (key, val) ≤ end
    → end < 2 ^ 64
    → max_key_loop (suc fuel) end pos last (entry_bytes (key, val) ++ rest)
      ≡ max_key_loop fuel end (pos + entry_size (key, val)) key rest
unfolding max_key_loop
max_key_loop_step fuel end pos last key val rest h le b = rw (
  lt→ltb pos end (omega arith),
  entry_parts key val rest h,
  max_key_loop,
  read_exactly-append 8 (sizes (length key) (val_size val)) (key ++ (val_data val ++ rest))
      (length-sizes _ _),
  first_size (length key) (val_size val) (omega arith),
  read_exactly-append (length key) key (val_data val ++ rest) refl,
  first_size (length key) (val_size val) (omega arith),
  second_size (length key) (val_size val) (val_size-lt key val h),
  drop-val_data key val rest h,
  max_key_pos pos key val h (omega arith),
)

pub max_key_loop-data_bytes :
    (fuel end pos : ℕ) (last : Bytes) (es : List DataEntry) (rest : Bytes)
    → length es < fuel
    → All FitsEntry es
    → end ≡ pos + data_size es
    → end < 2 ^ 64
    → max_key_loop fuel end pos last (data_bytes es ++ rest) ≡ some (last_of last es)
unfolding max_key_loop
max_key_loop-data_bytes zero end pos last es rest f h e b = absurd (omega arith)
max_key_loop-data_bytes (suc fuel) end pos last [] rest f h e b =
    rw (ltb-false pos end (omega arith), max_key_loop)
max_key_loop-data_bytes (suc fuel) end pos last ((key, val) ∷ es) rest f h e b = rw (
  append_assoc (entry_bytes (key, val)) (data_bytes es) rest,
  max_key_loop_step fuel end pos last key val (data_bytes es ++ rest) h.0 (omega arith) b,
  max_key_loop-data_bytes fuel end (pos + entry_size (key, val)) key es rest (omega arith) h.1
      (omega arith) b,
)
