-- ===== src/SsTable/Answers.antt =====
-- `get` and `scan` of a reader of the file that `build` wrote, against the entries.
use nexus_db_main.Common.{
  ℕ, suc, ◌+◌, List, [], ◌∷◌, ◌++◌, Bytes, true, false, ◌||◌, Option, none, some, ◌≡◌, refl, sym,
  ap, ◌∙◌, ◌⊎◌, inl, inr, length, arith, All, All-right, ◌>>=◌, Bool-cases,
}
use nexus_db_main.Text.{str_le, str_lt, str_eq}
use nexus_db_main.Text.Order.{eq_of_compare, gt_of_lt, lt_of_gt}
use nexus_db_main.StdMap.{find, IsSorted}
use nexus_db_main.StdMap.Parts.{IsSorted-right, last_of, find_past_last, between_past_last}
use nexus_db_main.StdMap.Find.{find-Above}
use nexus_db_main.StdMap.Ranges.{between, between_past}
use nexus_db_main.BloomFilter.{BloomFilter, possibly_contains, create_for_entries}
use nexus_db_main.BloomFilter.Membership.{contains-add_all, create_for_entries-IsValid}
use nexus_db_main.SsTable.{DataEntry, seek}
use nexus_db_main.SsTable.Queries.{get, scan, scan_blocks, not_found, key_at, offset_at, scan_loop}
use nexus_db_main.SsTable.Data.{FitsEntry, data_size}
use nexus_db_main.SsTable.Loops.{found_entry}
use nexus_db_main.SsTable.Ranges.{scan_loop-data_bytes}
use nexus_db_main.SsTable.Layout.{Fits, file_of, filter_of, keys, index_of}
use nexus_db_main.SsTable.Opening.{reader_of}
use nexus_db_main.SsTable.Blocks.{Starts, Block-index_of, data_size-append}
use nexus_db_main.SsTable.Sections.{between-block}
use nexus_db_main.SsTable.Reopen.{
  reopen, reopen-reader_of, get_in_block-reader_of, seek-block, behind, lands, enough,
}

-- A key for which the filter answers no is not among the keys that were added.
find-keys :
    (q : Bytes) (es : List DataEntry) (b : BloomFilter)
    → All (λ key. possibly_contains key b ≡ true) (keys es)
    → possibly_contains q b ≡ false
    → find q es ≡ none
unfolding find
find-keys q [] b h n = refl
find-keys q ((k, v) ∷ es) b h n = elim (Bool-cases (str_eq k q)) [
  | inl e ↦ let same = eq_of_compare k q (ground arith) in absurd (cc (rw same at h.0))
  | inr e ↦ rw e (find-keys q es b h.1 n)
]

filter_refuses :
    (es : List DataEntry) (q : Bytes)
    → Fits es
    → possibly_contains q (filter_of es) ≡ false
    → find q es ≡ none
filter_refuses es q h n =
    find-keys q es (filter_of es)
      (contains-add_all (keys es) (create_for_entries (length es))
        (create_for_entries-IsValid (length es) h.count_fits))
      n

before_first :
    (e : DataEntry) (es : List DataEntry) (q : Bytes)
    → IsSorted (e ∷ es)
    → str_lt q e.0 ≡ true
    → find q (e ∷ es) ≡ none
unfolding find
before_first e es q s h =
    ground (arith, find-Above e.0 q es s.0, eq_of_compare e.0 q, gt_of_lt q e.0)

nothing : {o : Option (Option Bytes)} → o ≡ none → some not_found ≡ some (found_entry o)
unfolding found_entry
nothing n = rw n refl

out_of_range :
    (e : DataEntry) (es : List DataEntry) (q : Bytes)
    → IsSorted (e ∷ es)
    → (str_lt q e.0 || str_lt (last_of e.0 es) q) ≡ true
    → find q (e ∷ es) ≡ none
out_of_range e es q s c = elim (Bool-cases (str_lt q e.0)) [
  | inl a ↦ before_first e es q s a
  | inr a ↦ find_past_last q e.0 e.1 es s (rw a at c)
]

in_range : (a b q : Bytes) → (str_lt q a || str_lt b q) ≡ false → str_le a q ≡ true
in_range a b q c = ground (arith, gt_of_lt q a, lt_of_gt a q)

pub get-reader_of :
    (e : DataEntry) (es : List DataEntry) (q : Bytes)
    → Fits (e ∷ es)
    → get q (reader_of e es) ≡ some (found_entry (find q (e ∷ es)))
unfolding get
get-reader_of e es q h = elim (Bool-cases (str_lt q e.0 || str_lt (last_of e.0 es) q)) [
  | inl c ↦ rw (c, get) (nothing (out_of_range e es q h.sorted c))
  | inr c ↦ elim (Bool-cases (possibly_contains q (filter_of (e ∷ es)))) [
    | inr n ↦ rw (c, n, get) (nothing (filter_refuses (e ∷ es) q h n))
    | inl p ↦ rw (c, p, get) (get_in_block-reader_of e es q h (in_range e.0 (last_of e.0 es) q c))
  ]
]

-- `get` on the file that `build` wrote returns what the entries hold for the key: its value, a
-- tombstone, or that it is not there. The entries are sorted by strictly ascending keys and fit the
-- sizes of the format.
pub reopen-get :
    (e : DataEntry) (es : List DataEntry) (q : Bytes)
    → Fits (e ∷ es)
    → (reopen (e ∷ es) >>= get q) ≡ some (found_entry (find q (e ∷ es)))
reopen-get e es q h = rw (reopen-reader_of e es h) (get-reader_of e es q h)

-- The block that a scan starts in holds the whole interval, with the blocks behind it.
scan_tail :
    (es before part : List DataEntry) (k lo hi : Bytes) (off : ℕ)
    → Fits es
    → es ≡ before ++ part
    → off ≡ 0 + data_size before
    → Starts k part
    → (str_le k lo ≡ true) ⊎ (before ≡ [])
    → (seek off (file_of es) >>= λ bytes.
        scan_loop (suc (length bytes)) (data_size es) off lo hi bytes)
      ≡ some (between lo hi es)
scan_tail es before part k lo hi off h w eo st le =
    let sorted = rw w at h.sorted in
    let fits = All-right FitsEntry before part (rw w at h.entries_fit) in
    let at : off ≡ data_size before = omega (arith, eo) in
    let size : data_size es ≡ data_size before + data_size part =
      ap data_size w ∙ data_size-append before part in
    rw
      (
        at,
        seek-block es h before part w,
        scan_loop-data_bytes _ (data_size es) (data_size before) lo hi part (behind es)
            (enough part (behind es) fits) fits (IsSorted-right before part sorted) size
            (omega (arith, h.room)),
      )
      (ap some (sym (ap (between lo hi) w ∙ between-block before part k lo hi sorted st le)))

empty_front : (before : List DataEntry) → 0 ≡ 0 + data_size before → before ≡ []
empty_front [] h = refl
empty_front (e ∷ before) h = absurd (omega arith)

Starts-front :
    {k : Bytes} (block after : List DataEntry) → Starts k block → Starts k (block ++ after)
Starts-front block after st = record {
  val = st.val;
  rest = st.rest ++ after;
  form = ap (λ (t : List DataEntry). t ++ after) st.form;
}

scan_blocks-reader_of :
    (e : DataEntry) (es : List DataEntry) (lo hi : Bytes)
    → Fits (e ∷ es)
    → scan_blocks lo hi (reader_of e es) ≡ some (between lo hi (e ∷ es))
unfolding scan_blocks
scan_blocks-reader_of e es lo hi h =
    let (i, s, l) = lands e es lo h in
    let b = Block-index_of 0 0 (e ∷ es) i l.inside in
    rw s (
      scan_tail (e ∷ es) b.before (b.block ++ b.after) (key_at (index_of 0 0 (e ∷ es)) i) lo hi
        (offset_at (index_of 0 0 (e ∷ es)) i) h b.whole b.position
        (Starts-front b.block b.after b.starts)
        (elim l.here [ inl p ↦ inl p | inr z ↦ inr (empty_front b.before (rw z at b.position)) ]))

scan_misses :
    (e : DataEntry) (es : List DataEntry) (lo hi : Bytes)
    → IsSorted (e ∷ es)
    → (str_lt hi e.0 || str_lt (last_of e.0 es) lo) ≡ true
    → between lo hi (e ∷ es) ≡ []
scan_misses e es lo hi s c = elim (Bool-cases (str_lt hi e.0)) [
  | inl a ↦ between_past lo hi e.0 e.1 es (ground (arith, gt_of_lt hi e.0)) s.0
  | inr a ↦ between_past_last lo hi e.0 e.1 es s (rw a at c)
]

pub scan-reader_of :
    (e : DataEntry) (es : List DataEntry) (lo hi : Bytes)
    → Fits (e ∷ es)
    → scan lo hi (reader_of e es) ≡ some (between lo hi (e ∷ es))
unfolding scan
scan-reader_of e es lo hi h = elim (Bool-cases (str_lt hi e.0 || str_lt (last_of e.0 es) lo)) [
  | inl c ↦ rw (c, scan, scan_misses e es lo hi h.sorted c) refl
  | inr c ↦ rw (c, scan) (scan_blocks-reader_of e es lo hi h)
]

-- `scan` on the file that `build` wrote returns the entries with keys in the closed interval,
-- tombstones included, in their order. The entries are sorted by strictly ascending keys and fit
-- the sizes of the format.
pub reopen-scan :
    (e : DataEntry) (es : List DataEntry) (lo hi : Bytes)
    → Fits (e ∷ es)
    → (reopen (e ∷ es) >>= scan lo hi) ≡ some (between lo hi (e ∷ es))
reopen-scan e es lo hi h = rw (reopen-reader_of e es h) (scan-reader_of e es lo hi h)
