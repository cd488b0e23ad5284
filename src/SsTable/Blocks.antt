-- ===== src/SsTable/Blocks.antt =====
-- Each index entry stands for a block of the entries, from it to the next index entry.
use nexus_db_main.Common.{
  ℕ, zero, suc, ◌+◌, ◌%◌, ◌<◌, ◌≤◌, List, [], ◌∷◌, ◌++◌, Bytes, Option, ◌≡◌, refl, ap, ◌∙◌, inl,
  inr, length, arith, ◌==◌, ltb, Bool-cases,
}
use nexus_db_main.SsTable.{DataEntry, IndexEntry, sparse_index_interval}
use nexus_db_main.SsTable.Queries.{key_at, offset_at, end_at}
use nexus_db_main.SsTable.Data.{entry_size, data_size}
use nexus_db_main.SsTable.Layout.{index_of}

-- A list of entries that starts with a key.
pub record Starts (key : Bytes) (es : List DataEntry) : Type 0 where
  pub val : Option Bytes
  pub rest : List DataEntry
  pub form : es ≡ (key, val) ∷ rest

-- The block of number `j` in an index over `es`, which starts at `offset`.
pub record Block (offset : ℕ) (index : List IndexEntry) (es : List DataEntry) (j : ℕ) : Type 0 where
  pub before : List DataEntry
  pub block : List DataEntry
  pub after : List DataEntry
  pub whole : es ≡ before ++ (block ++ after)
  pub position : offset_at index j ≡ offset + data_size before
  pub stop : end_at (offset + data_size es) index j ≡ offset + data_size before + data_size block
  pub starts : Starts (key_at index j) block
  pub next : suc j < length index → Starts (key_at index (suc j)) after
  pub last : length index ≤ suc j → after ≡ []

-- The entries up to the first index entry.
record Run (offset : ℕ) (index : List IndexEntry) (es : List DataEntry) : Type 0 where
  run : List DataEntry
  more : List DataEntry
  whole : es ≡ run ++ more
  none_left : length index ≤ 0 → more ≡ []
  some_left : 0 < length index → Starts (key_at index 0) more
  position : 0 < length index → offset_at index 0 ≡ offset + data_size run

pub data_size-append : (es fs : List DataEntry) → data_size (es ++ fs) ≡ data_size es + data_size fs
data_size-append [] fs = omega arith
data_size-append (e ∷ es) fs = omega (arith, data_size-append es fs)

Run-index_of : (i offset : ℕ) (es : List DataEntry) → Run offset (index_of i offset es) es
Run-index_of i offset [] = record {
  run = [];
  more = [];
  whole = refl;
  none_left = λ h. refl;
  some_left = λ h. absurd (omega arith);
  position = λ h. absurd (omega arith);
}
Run-index_of i offset (e ∷ es) = elim (Bool-cases (i % sparse_index_interval == 0)) [
  | inl c ↦ rw c (record {
    run = [];
    more = e ∷ es;
    whole = refl;
    none_left = λ h. absurd (omega arith);
    some_left = λ h. record { val = e.1; rest = es; form = refl };
    position = λ h. omega arith;
  })
  | inr c ↦
      let r = Run-index_of (suc i) (offset + entry_size e) es in
      rw c (record {
        run = e ∷ r.run;
        more = r.more;
        whole = ap (λ (t : List DataEntry). e ∷ t) r.whole;
        none_left = r.none_left;
        some_left = r.some_left;
        position = λ h. omega (arith, r.position h);
      })
]

end_at-cons :
    (total : ℕ) (ie : IndexEntry) (index : List IndexEntry) (j : ℕ)
    → end_at total (ie ∷ index) (suc j) ≡ end_at total index j
end_at-cons total ie index j = ground arith

add-add : (a b c : ℕ) → a + (b + c) ≡ a + b + c
add-add a b c = omega arith

-- A block of an index, as a block of the index with one more entry of the file before it.
later :
    (offset : ℕ) (e : DataEntry) (index : List IndexEntry) (es : List DataEntry) (j : ℕ)
    → Block (offset + entry_size e) index es j
    → Block offset index (e ∷ es) j
later offset e index es j b = record {
  before = e ∷ b.before;
  block = b.block;
  after = b.after;
  whole = ap (λ (t : List DataEntry). e ∷ t) b.whole;
  position = omega (arith, b.position);
  stop =
      ap (λ (t : ℕ). end_at t index j) (add-add offset (entry_size e) (data_size es))
      ∙ (b.stop ∙ omega arith);
  starts = b.starts;
  next = b.next;
  last = b.last;
}

-- A block of an index, as a block of the index with one more index entry before it.
shifted :
    (offset : ℕ) (ie : IndexEntry) (index : List IndexEntry) (es : List DataEntry) (j : ℕ)
    → Block offset index es j
    → Block offset (ie ∷ index) es (suc j)
shifted offset ie index es j b = record {
  before = b.before;
  block = b.block;
  after = b.after;
  whole = b.whole;
  position = b.position;
  stop = end_at-cons (offset + data_size es) ie index j ∙ b.stop;
  starts = b.starts;
  next = λ h. b.next (omega arith);
  last = λ h. b.last (omega arith);
}

first_stop :
    (offset : ℕ) (e : DataEntry) (index : List IndexEntry) (es : List DataEntry)
    (r : Run (offset + entry_size e) index es)
    → end_at (offset + data_size (e ∷ es)) ((e.0, offset) ∷ index) 0
      ≡ offset + 0 + data_size (e ∷ r.run)
first_stop offset e index es r = elim (Bool-cases (ltb 1 (suc (length index)))) [
  | inl c ↦ rw c (omega (arith, r.position (ground arith)))
  | inr c ↦ rw c (
      omega (
        arith,
        ap data_size r.whole,
        data_size-append r.run r.more,
        ap data_size (r.none_left (ground arith)),
      ))
]

first-Block :
    (offset : ℕ) (e : DataEntry) (index : List IndexEntry) (es : List DataEntry)
    → Run (offset + entry_size e) index es
    → Block offset ((e.0, offset) ∷ index) (e ∷ es) 0
first-Block offset e index es r = record {
  before = [];
  block = e ∷ r.run;
  after = r.more;
  whole = ap (λ (t : List DataEntry). e ∷ t) r.whole;
  position = omega arith;
  stop = first_stop offset e index es r;
  starts = record { val = e.1; rest = r.run; form = refl };
  next = λ h. r.some_left (omega arith);
  last = λ h. r.none_left (omega arith);
}

front-Block :
    (offset : ℕ) (e : DataEntry) (index : List IndexEntry) (es : List DataEntry)
    → Run (offset + entry_size e) index es
    → ((j : ℕ) → j < length index → Block (offset + entry_size e) index es j)
    → (j : ℕ) → j < length ((e.0, offset) ∷ index)
    → Block offset ((e.0, offset) ∷ index) (e ∷ es) j
front-Block offset e index es r more zero h = first-Block offset e index es r
front-Block offset e index es r more (suc j) h =
    shifted offset (e.0, offset) index (e ∷ es) j (later offset e index es j (more j (omega arith)))

pub Block-index_of :
    (i offset : ℕ) (es : List DataEntry) (j : ℕ)
    → j < length (index_of i offset es)
    → Block offset (index_of i offset es) es j
Block-index_of i offset [] j h = absurd (omega arith)
Block-index_of i offset (e ∷ es) j h =
    let tail = index_of (suc i) (offset + entry_size e) es in
    elim (Bool-cases (i % sparse_index_interval == 0)) [
      | inl c ↦ rw c (
          front-Block offset e tail es (Run-index_of (suc i) (offset + entry_size e) es)
            (Block-index_of (suc i) (offset + entry_size e) es) j (rw c at h))
      | inr c ↦ rw c (
          later offset e tail es j
            (Block-index_of (suc i) (offset + entry_size e) es j (rw c at h)))
    ]
