-- ===== src/SsTable/Layout.antt =====
-- The file that `build` writes: the entries, the filter of their keys, the index and the footer.
use nexus_db_main.Common.{
  ℕ, suc, ◌+◌, ◌*◌, ◌^◌, ◌<◌, ◌%◌, List, [], ◌∷◌, ◌++◌, Bytes, Bool, true, false, Option, some, ◌≡◌,
  refl, ap, ap₂, length, arith, append_assoc, append-nil, ◌==◌, if◌then◌else◌, All,
}
use native.Mathlib.Nat.{mod-eq_of_lt}
use nexus_db_main.Encoding.{ok}
use nexus_db_main.BloomFilter.{BloomFilter, add, create_for_entries}
use nexus_db_main.BloomFilter.Membership.{add_all}
use nexus_db_main.BloomFilter.Shape.{Small, create_for_entries-Small, add_all-Small}
use nexus_db_main.StdMap.{IsSorted}
use nexus_db_main.SsTable.{DataEntry, IndexEntry, sparse_index_interval}
use nexus_db_main.SsTable.Writer.{
  Writing, entry_bytes, write_entry, write_entries, bloom_bytes, index_bytes, footer_bytes, finish,
  start, build,
}
use nexus_db_main.SsTable.Data.{entry_size, FitsEntry, data_bytes, data_size}

-- The index over entries from number `i` on, the first of which stands at `offset`.
abbrev pub index_of : ℕ → ℕ → List DataEntry → List IndexEntry
index_of i offset [] = []
index_of i offset (e ∷ es) =
    let rest = index_of (suc i) (offset + entry_size e) es in
    if i % sparse_index_interval == 0 then (e.0, offset) ∷ rest else rest

abbrev pub keys : List DataEntry → List Bytes
keys [] = []
keys (e ∷ es) = e.0 ∷ keys es

abbrev pub writing : Bytes → List IndexEntry → BloomFilter → ℕ → Writing
writing out index bloom offset = record { out = out; index = index; bloom = bloom; offset = offset }

write_entry-eq :
    (i : ℕ) (key : Bytes) (val : Option Bytes) (out : Bytes) (index : List IndexEntry)
    (bloom : BloomFilter) (offset : ℕ)
    → FitsEntry (key, val)
    → offset + entry_size (key, val) < 2 ^ 64
    → write_entry i (key, val) (writing out index bloom offset)
      ≡ writing
          (out ++ entry_bytes (key, val))
          (if i % sparse_index_interval == 0 then index ++ ((key, offset) ∷ []) else index)
          (add key bloom)
          (offset + entry_size (key, val))
unfolding write_entry
write_entry-eq i key val out index bloom offset h b =
    ap
      (λ (o : ℕ).
        writing (out ++ entry_bytes (key, val))
          (if i % sparse_index_interval == 0 then index ++ ((key, offset) ∷ []) else index)
          (add key bloom) o)
      (omega arith)

if_append :
    (c : Bool) (e : IndexEntry) (index more : List IndexEntry)
    → (if c then index ++ (e ∷ []) else index) ++ more ≡ index ++ (if c then e ∷ more else more)
if_append true e index more = append_assoc index (e ∷ []) more
if_append false e index more = refl

pub write_entries-eq :
    (i : ℕ) (es : List DataEntry) (out : Bytes) (index : List IndexEntry) (bloom : BloomFilter)
    (offset : ℕ)
    → All FitsEntry es
    → offset + data_size es < 2 ^ 64
    → write_entries i es (writing out index bloom offset)
      ≡ writing
          (out ++ data_bytes es)
          (index ++ index_of i offset es)
          (add_all (keys es) bloom)
          (offset + data_size es)
unfolding write_entries add_all
write_entries-eq i [] out index bloom offset h b =
    rw (append-nil out, append-nil index) (ap (writing out index bloom) (omega arith))
write_entries-eq i ((key, val) ∷ es) out index bloom offset h b =
    rw
      (
        write_entry-eq i key val out index bloom offset h.0 (omega arith),
        write_entries-eq (suc i) es (out ++ entry_bytes (key, val))
            (if i % sparse_index_interval == 0 then index ++ ((key, offset) ∷ []) else index)
            (add key bloom) (offset + entry_size (key, val)) h.1 (omega arith),
        append_assoc out (entry_bytes (key, val)) (data_bytes es),
      )
      (ap₂
        (λ (ix : List IndexEntry) (o : ℕ).
          writing (out ++ (entry_bytes (key, val) ++ data_bytes es)) ix
            (add_all (keys es) (add key bloom)) o)
        (if_append (i % sparse_index_interval == 0) (key, offset) index
          (index_of (suc i) (offset + entry_size (key, val)) es))
        (omega arith))

abbrev pub filter_of : List DataEntry → BloomFilter
filter_of es = add_all (keys es) (create_for_entries (length es))

abbrev pub bloom_size_of : List DataEntry → ℕ
bloom_size_of es = 8 + length (filter_of es).bits

abbrev pub footer_of : List DataEntry → Bytes
footer_of es =
    footer_bytes (data_size es) (bloom_size_of es) (data_size es + bloom_size_of es)
      (length (index_of 0 0 es)) (length es)

unfoldable pub file_of : List DataEntry → Bytes
file_of es =
    data_bytes es ++ (bloom_bytes (filter_of es) ++ (index_bytes (index_of 0 0 es) ++ footer_of es))

-- Entries in the order of their keys that the sizes and offsets of a file can tell.
pub record Fits (es : List DataEntry) : Type 0 where
  pub sorted : IsSorted es
  pub entries_fit : All FitsEntry es
  pub count_fits : length es * 10 + 7 < 2 ^ 32
  pub room : data_size es < 2 ^ 62

pub filter-Small : (es : List DataEntry) → Fits es → Small (filter_of es)
filter-Small es h =
    add_all-Small (keys es) (create_for_entries (length es))
      (create_for_entries-Small (length es) h.count_fits)

pub from_zero : (n : ℕ) → 0 + n ≡ n
from_zero n = omega arith

-- `build` writes the whole file.
pub build-file_of :
    (e : DataEntry) (es : List DataEntry)
    → Fits (e ∷ es)
    → build true (e ∷ es) ≡ (ok, some (file_of (e ∷ es)))
unfolding build finish start file_of
build-file_of e es h = rw (
  mod-eq_of_lt {n = length (e ∷ es)} {m = 2 ^ 32} (omega (arith, h.count_fits)),
  write_entries-eq 0 (e ∷ es) [] [] (create_for_entries (length (e ∷ es))) 0 h.entries_fit
      (omega (arith, h.room)),
  mod-eq_of_lt {n = bloom_size_of (e ∷ es)} {m = 2 ^ 32} (filter-Small (e ∷ es) h).bytes_fit,
  from_zero (data_size (e ∷ es)),
  mod-eq_of_lt {n = data_size (e ∷ es) + bloom_size_of (e ∷ es)} {m = 2 ^ 64}
      (omega (arith, h.room, (filter-Small (e ∷ es) h).bytes_fit)),
)
