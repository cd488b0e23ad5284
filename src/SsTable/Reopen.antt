-- ===== src/SsTable/Reopen.antt =====
-- What a reader answers about the file that `build` wrote.
use nexus_db_main.Common.{
  ℕ, suc, ◌+◌, ◌-◌, ◌^◌, ◌<◌, List, ◌∷◌, ◌++◌, Bytes, true, Option, some, ◌≡◌, refl, sym, ap, subst,
  ◌∙◌, ◌⊎◌, inl, inr, length, length-append, arith, append_assoc, All, All-left, All-right, ◌>>=◌,
}
use native.Mathlib.Decide.{dec_lt}
use nexus_db_main.Text.{str_le}
use nexus_db_main.StdMap.{find}
use nexus_db_main.StdMap.Parts.{IsSorted-right, IsSorted-left}
use nexus_db_main.SsTable.{DataEntry, seek}
use nexus_db_main.Encoding.{ok}
use nexus_db_main.SsTable.Writer.{build, bloom_bytes, index_bytes}
use nexus_db_main.SsTable.Reader.{validate, SsTableReader, open_file}
use nexus_db_main.SsTable.Queries.{
  read_all_entries, get_in_block, search, key_at, offset_at, end_at, scan_from,
}
use nexus_db_main.SsTable.Data.{
  FitsEntry, data_bytes, data_size, length-data_bytes, data_bytes-append,
}
use nexus_db_main.SsTable.Loops.{entries_loop-data_bytes, scan_from-data_bytes, found_entry}
use nexus_db_main.SsTable.Layout.{
  Fits, file_of, filter_of, footer_of, index_of, build-file_of, from_zero,
}
use nexus_db_main.SsTable.Opening.{
  validate-file_of, reader_of, open_file-file_of, length-file_of, length-entries,
}
use nexus_db_main.SsTable.Search.{Landed, Below, search_whole}
use nexus_db_main.SsTable.Blocks.{Block, Starts, Block-index_of, data_size-append}
use nexus_db_main.SsTable.Ascending.{index_of-IsSorted, IsSorted→IsAscending}
use nexus_db_main.SsTable.Sections.{seek-part, EndsAbove, find-block}

-- A reader of the file that `build` writes for the entries.
unfoldable pub reopen : List DataEntry → Option SsTableReader
reopen es = (build true es).1 >>= open_file

pub reopen-reader_of :
    (e : DataEntry) (es : List DataEntry) → Fits (e ∷ es) → reopen (e ∷ es) ≡ some (reader_of e es)
unfolding reopen
reopen-reader_of e es h = rw (build-file_of e es h, open_file-file_of e es h)

-- `build` returns OK and writes a file that passes `validate`, which the engine asks before it opens
-- a file. The entries are sorted by strictly ascending keys and fit the sizes of the format.
pub build-validate :
    (e : DataEntry) (es : List DataEntry)
    → Fits (e ∷ es)
    → (file : Bytes) × (build true (e ∷ es) ≡ (ok, some file)) × (validate file ≡ true)
build-validate e es h = (file_of (e ∷ es), build-file_of e es h, validate-file_of (e ∷ es) h)

pub read_all_entries-reader_of :
    (e : DataEntry) (es : List DataEntry)
    → Fits (e ∷ es)
    → read_all_entries (reader_of e es) ≡ some (e ∷ es)
unfolding read_all_entries file_of
read_all_entries-reader_of e es h =
    entries_loop-data_bytes (suc (length (file_of (e ∷ es)))) (data_size (e ∷ es)) 0 (e ∷ es)
      (bloom_bytes (filter_of (e ∷ es))
        ++ (index_bytes (index_of 0 0 (e ∷ es)) ++ footer_of (e ∷ es)))
      (omega (arith, length-file_of (e ∷ es) h)) h.entries_fit (omega arith) (omega (arith, h.room))

-- `read_all_entries` on the file that `build` wrote returns the entries that were written, in their
-- order. The entries are sorted by strictly ascending keys and fit the sizes of the format.
pub reopen-read_all_entries :
    (e : DataEntry) (es : List DataEntry)
    → Fits (e ∷ es)
    → (reopen (e ∷ es) >>= read_all_entries) ≡ some (e ∷ es)
reopen-read_all_entries e es h = rw (reopen-reader_of e es h) (read_all_entries-reader_of e es h)

-- What stands behind the entries in the file.
pub behind : List DataEntry → Bytes
behind es = bloom_bytes (filter_of es) ++ (index_bytes (index_of 0 0 es) ++ footer_of es)

file-behind : (es : List DataEntry) → file_of es ≡ data_bytes es ++ behind es
unfolding file_of behind
file-behind es = refl

module _ (es : List DataEntry) (h : Fits es) where
  pub seek-block :
      (before part : List DataEntry)
      → es ≡ before ++ part
      → seek (data_size before) (file_of es) ≡ some (data_bytes part ++ behind es)
  seek-block before part w = rw (file-behind es) (
      subst
        (λ (t : List DataEntry).
          seek (data_size before) (data_bytes t ++ behind es) ≡ some (data_bytes part ++ behind es))
        (sym w) (seek-part before part (behind es) (rw w at h.entries_fit) (rw w at h.room)))

abbrev pub Landing : DataEntry → List DataEntry → Bytes → Type 0
Landing e es q =
    (i : ℕ) × (search (suc (length (index_of 0 0 (e ∷ es)))) (index_of 0 0 (e ∷ es)) q 0
        (length (index_of 0 0 (e ∷ es)) - 1) 0
      ≡ some i)
    × Landed (index_of 0 0 (e ∷ es)) q i

pub lands : (e : DataEntry) (es : List DataEntry) (q : Bytes) → Fits (e ∷ es) → Landing e es q
lands e es q h =
    search_whole (index_of 0 0 (e ∷ es)) q
      (IsSorted→IsAscending (index_of 0 0 (e ∷ es)) q (index_of-IsSorted 0 0 (e ∷ es) h.sorted))
      (omega arith)

-- The fuel of a scan is enough for the entries in front of it.
pub enough :
    (es : List DataEntry) (rest : Bytes)
    → All FitsEntry es
    → length es < suc (length (data_bytes es ++ rest))
enough es rest h =
    omega (arith, length-append (data_bytes es) rest, length-data_bytes es h, length-entries es)

-- A scan of one block, for a key that it answers for.
scan_block :
    (es before block after : List DataEntry) (k q : Bytes) (off end : ℕ)
    → Fits es
    → es ≡ before ++ (block ++ after)
    → off ≡ 0 + data_size before
    → end ≡ 0 + data_size before + data_size block
    → Starts k block
    → str_le k q ≡ true
    → EndsAbove q after
    → (seek off (file_of es) >>= λ bytes. scan_from (suc (length bytes)) end off q bytes)
      ≡ some (found_entry (find q es))
scan_block es before block after k q off end h w eo ee st le ea =
    let fits = rw w at h.entries_fit in
    let sorted = rw w at h.sorted in
    let inner = All-right FitsEntry before (block ++ after) fits in
    let room : data_size before + data_size block < 2 ^ 62 = omega (
      arith,
      h.room,
      ap data_size w,
      data_size-append before (block ++ after),
      data_size-append block after,
    ) in
    let at : off ≡ data_size before = omega (arith, eo) in
    rw
      (
        at,
        seek-block es h before (block ++ after) w,
        data_bytes-append block after,
        append_assoc (data_bytes block) (data_bytes after) (behind es),
        scan_from-data_bytes _ end (data_size before) q block (data_bytes after ++ behind es)
            (enough block (data_bytes after ++ behind es) (All-left FitsEntry block after inner))
            (All-left FitsEntry block after inner)
            (IsSorted-left block after (IsSorted-right before (block ++ after) sorted))
            (omega (arith, ee)) (omega (arith, ee)),
      )
      (ap (λ (o : Option (Option Bytes)). some (found_entry o))
        (sym (ap (find q) w ∙ find-block before block after k q sorted st le ea)))

-- The block where the search lands starts at or below the key.
reaches :
    (e : DataEntry) (es : List DataEntry) (i : ℕ) (q : Bytes)
    → str_le e.0 q ≡ true
    → Below (index_of 0 0 (e ∷ es)) q i ⊎ (i ≡ 0)
    → Below (index_of 0 0 (e ∷ es)) q i
reaches e es i q le (inl p) = p
reaches e es i q le (inr z) = rw z le

stops_above :
    (e : DataEntry) (es : List DataEntry) (i : ℕ) (q : Bytes)
    (b : Block 0 (index_of 0 0 (e ∷ es)) (e ∷ es) i)
    → Landed (index_of 0 0 (e ∷ es)) q i
    → EndsAbove q b.after
stops_above e es i q b l = elim (dec_lt (suc i) (length (index_of 0 0 (e ∷ es)))) [
  | yes p ↦ inr (key_at (index_of 0 0 (e ∷ es)) (suc i), b.next p, l.next p)
  | no p ↦ inl (b.last (omega arith))
]

pub get_in_block-reader_of :
    (e : DataEntry) (es : List DataEntry) (q : Bytes)
    → Fits (e ∷ es)
    → str_le e.0 q ≡ true
    → get_in_block q (reader_of e es) ≡ some (found_entry (find q (e ∷ es)))
unfolding get_in_block
get_in_block-reader_of e es q h le =
    let (i, s, l) = lands e es q h in
    let b = Block-index_of 0 0 (e ∷ es) i l.inside in
    rw s (
      scan_block (e ∷ es) b.before b.block b.after (key_at (index_of 0 0 (e ∷ es)) i) q
        (offset_at (index_of 0 0 (e ∷ es)) i)
        (end_at (data_size (e ∷ es)) (index_of 0 0 (e ∷ es)) i) h b.whole b.position
        (ap (λ (t : ℕ). end_at t (index_of 0 0 (e ∷ es)) i) (sym (from_zero (data_size (e ∷ es))))
          ∙ b.stop)
        b.starts (reaches e es i q le l.here) (stops_above e es i q b l))
