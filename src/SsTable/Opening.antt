-- ===== src/SsTable/Opening.antt =====
-- A file that `build` wrote opens, with the index, filter, footer and key range that were written.
use nexus_db_main.Common.{
  true, ℕ, suc, ◌+◌, ◌≤◌, ◌%◌, List, [], ◌∷◌, ◌++◌, some, ◌≡◌, refl, sym, length, length-append,
  arith, append_assoc, ◌==◌, Bool-cases, inl, inr,
}
use nexus_db_main.Encoding.{encode_u32_le}
use nexus_db_main.Encoding.RoundTrip.{length-encode_u32_le}
use nexus_db_main.BloomFilter.{BloomFilter}
use nexus_db_main.StdMap.Parts.{last_of}
use nexus_db_main.SsTable.{DataEntry, sparse_index_interval}
use nexus_db_main.SsTable.Writer.{bloom_bytes, index_bytes}
use nexus_db_main.SsTable.Reader.{
  validate, Footer, SsTableReader, read_footer, read_bloom, read_index, key_range, open_file,
}
use nexus_db_main.SsTable.Data.{entry_size, data_bytes, data_size, length-data_bytes}
use nexus_db_main.SsTable.Ranges.{max_key_loop-data_bytes}
use nexus_db_main.SsTable.Layout.{
  index_of, filter_of, bloom_size_of, footer_of, file_of, Fits, filter-Small,
}
use nexus_db_main.SsTable.FooterBytes.{seek-append, read_footer-footer, validate-footer}
use nexus_db_main.SsTable.IndexBytes.{
  read_bloom-bloom_bytes, read_index_loop-index_bytes, index_of-Fits,
}

abbrev pub footer_read : List DataEntry → Footer
footer_read es = record {
  bloom_offset = data_size es;
  bloom_size = bloom_size_of es;
  index_offset = data_size es + bloom_size_of es;
  num_idx = length (index_of 0 0 es);
  num_entries = length es;
}

-- The reader of a file that was written.
abbrev pub reader_of : DataEntry → List DataEntry → SsTableReader
reader_of e es = record {
  file = file_of (e ∷ es);
  index = index_of 0 0 (e ∷ es);
  bloom = some (filter_of (e ∷ es));
  footer = footer_read (e ∷ es);
  min_key = e.0;
  max_key = last_of e.0 es;
}

length-index_of : (i offset : ℕ) (es : List DataEntry) → length (index_of i offset es) ≤ length es
length-index_of i offset [] = omega arith
length-index_of i offset (e ∷ es) = elim (Bool-cases (i % sparse_index_interval == 0)) [
  | inl c ↦ rw c (omega (arith, length-index_of (suc i) (offset + entry_size e) es))
  | inr c ↦ rw c (omega (arith, length-index_of (suc i) (offset + entry_size e) es))
]

pub length-data : (es : List DataEntry) → Fits es → length (data_bytes es) ≡ data_size es
length-data es h = length-data_bytes es h.entries_fit

length-bloom_bytes : (b : BloomFilter) → length (bloom_bytes b) ≡ 8 + length b.bits
unfolding bloom_bytes
length-bloom_bytes b = omega (
  arith,
  length-append (encode_u32_le b.num_bits) (encode_u32_le b.num_hashes ++ b.bits),
  length-append (encode_u32_le b.num_hashes) b.bits,
  length-encode_u32_le b.num_bits,
  length-encode_u32_le b.num_hashes,
)

pub length-entries : (es : List DataEntry) → length es ≤ data_size es
length-entries [] = omega arith
length-entries (e ∷ es) = omega (arith, length-entries es)

file_front :
    (es : List DataEntry)
    → file_of es
      ≡ (data_bytes es ++ (bloom_bytes (filter_of es) ++ index_bytes (index_of 0 0 es)))
        ++ footer_of es
unfolding file_of
file_front es = rw (
  append_assoc (data_bytes es) (bloom_bytes (filter_of es) ++ index_bytes (index_of 0 0 es))
      (footer_of es),
  append_assoc (bloom_bytes (filter_of es)) (index_bytes (index_of 0 0 es)) (footer_of es),
)

-- The file is longer than its entries are many.
pub length-file_of : (es : List DataEntry) → Fits es → length es ≤ length (file_of es)
unfolding file_of
length-file_of es h = omega (
  arith,
  length-append (data_bytes es)
      (bloom_bytes (filter_of es) ++ (index_bytes (index_of 0 0 es) ++ footer_of es)),
  length-data es h,
  length-entries es,
)

read_footer-file_of :
    (es : List DataEntry) → Fits es → read_footer (file_of es) ≡ some (footer_read es)
read_footer-file_of es h = rw (file_front es) (
    read_footer-footer (data_size es) (bloom_size_of es) (data_size es + bloom_size_of es)
      (length (index_of 0 0 es)) (length es) (omega (arith, h.room)) (filter-Small es h).bytes_fit
      (omega (arith, h.room, (filter-Small es h).bytes_fit))
      (omega (arith, h.count_fits, length-index_of 0 0 es)) (omega (arith, h.count_fits)) _)

read_bloom-file_of :
    (es : List DataEntry)
    → Fits es
    → read_bloom (footer_read es) (file_of es) ≡ some (some (filter_of es))
unfolding file_of
read_bloom-file_of es h =
    read_bloom-bloom_bytes (footer_read es) (filter_of es) (data_bytes es) _ (filter-Small es h)
      (sym (length-data es h)) refl (omega (arith, h.room, length-data es h))

read_index-file_of :
    (es : List DataEntry)
    → Fits es
    → read_index (footer_read es) (file_of es) ≡ some (index_of 0 0 es)
unfolding read_index file_of
read_index-file_of es h = rw (
  ← append_assoc (data_bytes es) (bloom_bytes (filter_of es))
      (index_bytes (index_of 0 0 es) ++ footer_of es),
  seek-append (data_size es + bloom_size_of es) (data_bytes es ++ bloom_bytes (filter_of es))
      (index_bytes (index_of 0 0 es) ++ footer_of es)
      (omega (
        arith,
        length-append (data_bytes es) (bloom_bytes (filter_of es)),
        length-data es h,
        length-bloom_bytes (filter_of es),
      ))
      (omega (arith, h.room, (filter-Small es h).bytes_fit)),
  read_index_loop-index_bytes (index_of 0 0 es) (footer_of es)
      (index_of-Fits 0 0 es h.entries_fit (omega (arith, h.room))),
)

key_range-file_of :
    (e : DataEntry) (es : List DataEntry)
    → Fits (e ∷ es)
    → key_range (footer_read (e ∷ es)) (index_of 0 0 (e ∷ es)) (file_of (e ∷ es))
      ≡ some (e.0, last_of e.0 es)
unfolding key_range file_of
key_range-file_of e es h =
    rw
      (max_key_loop-data_bytes (suc (length (file_of (e ∷ es)))) (data_size (e ∷ es)) 0 [] (e ∷ es)
        (bloom_bytes (filter_of (e ∷ es))
          ++ (index_bytes (index_of 0 0 (e ∷ es)) ++ footer_of (e ∷ es)))
        (omega (arith, length-file_of (e ∷ es) h)) h.entries_fit (omega arith)
        (omega (arith, h.room)))
      refl

-- The file that `build` writes opens, and the reader holds the index, filter and footer that were
-- written and the first and the last key.
pub open_file-file_of :
    (e : DataEntry) (es : List DataEntry)
    → Fits (e ∷ es)
    → open_file (file_of (e ∷ es)) ≡ some (reader_of e es)
unfolding open_file
open_file-file_of e es h = rw (
  read_footer-file_of (e ∷ es) h,
  read_bloom-file_of (e ∷ es) h,
  read_index-file_of (e ∷ es) h,
  key_range-file_of e es h,
)

pub validate-file_of : (es : List DataEntry) → Fits es → validate (file_of es) ≡ true
validate-file_of es h = rw (file_front es) (
    validate-footer (data_size es) (bloom_size_of es) (data_size es + bloom_size_of es)
      (length (index_of 0 0 es)) (length es) (omega (arith, h.room)) (filter-Small es h).bytes_fit
      (omega (arith, h.room, (filter-Small es h).bytes_fit))
      (omega (arith, h.count_fits, length-index_of 0 0 es)) (omega (arith, h.count_fits)) _)
