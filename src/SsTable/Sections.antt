-- ===== src/SsTable/Sections.antt =====
-- A block of the entries in the file, and the keys that it answers for.
use nexus_db_main.Common.{
  ◌^◌, ◌<◌, List, [], ◌∷◌, ◌++◌, Bytes, true, false, some, ◌≡◌, refl, ◌∙◌, ◌⊎◌, inl, inr, arith,
  append_assoc, append-nil, All, All-left,
}
use nexus_db_main.Text.{str_le}
use nexus_db_main.StdMap.{find, IsSorted}
use nexus_db_main.StdMap.Parts.{IsSorted-right, find-right, find-left, between-right}
use nexus_db_main.StdMap.Ranges.{between}
use nexus_db_main.SsTable.{DataEntry, seek}
use nexus_db_main.SsTable.Data.{
  FitsEntry, data_bytes, data_size, data_bytes-append, length-data_bytes,
}
use nexus_db_main.SsTable.FooterBytes.{seek-append}
use nexus_db_main.SsTable.Blocks.{Starts, data_size-append}

-- What a seek to a part of the entries finds.
pub seek-part :
    (before part : List DataEntry) (rest : Bytes)
    → All FitsEntry (before ++ part)
    → data_size (before ++ part) < 2 ^ 62
    → seek (data_size before) (data_bytes (before ++ part) ++ rest) ≡ some (data_bytes part ++ rest)
seek-part before part rest h b = rw (
  data_bytes-append before part,
  append_assoc (data_bytes before) (data_bytes part) rest,
  seek-append (data_size before) (data_bytes before) (data_bytes part ++ rest)
      (length-data_bytes before (All-left FitsEntry before part h))
      (omega (arith, data_size-append before part)),
)

-- Either nothing stands behind a block, or its first key is above the wanted one.
abbrev pub EndsAbove : Bytes → List DataEntry → Type 0
EndsAbove q after = (after ≡ []) ⊎ ((k : Bytes) × Starts k after × (str_le k q ≡ false))

find-front :
    (block after : List DataEntry) (q : Bytes)
    → IsSorted (block ++ after)
    → EndsAbove q after
    → find q (block ++ after) ≡ find q block
find-front block after q s e = elim e [
  | inl n ↦ rw (n, append-nil block) refl
  | inr (k, st, a) ↦ rw st.form (find-left block k st.val st.rest q (rw st.form at s) a)
]

pub find-block :
    (before block after : List DataEntry) (k q : Bytes)
    → IsSorted (before ++ (block ++ after))
    → Starts k block
    → str_le k q ≡ true
    → EndsAbove q after
    → find q (before ++ (block ++ after)) ≡ find q block
find-block before block after k q s st le e =
    let there : IsSorted (before ++ (((k, st.val) ∷ st.rest) ++ after)) = rw st.form at s in
    rw st.form (
      find-right before k st.val (st.rest ++ after) q there le
      ∙ find-front ((k, st.val) ∷ st.rest) after q (IsSorted-right before _ there) e)

pub between-block :
    (before part : List DataEntry) (k lo hi : Bytes)
    → IsSorted (before ++ part)
    → Starts k part
    → (str_le k lo ≡ true) ⊎ (before ≡ [])
    → between lo hi (before ++ part) ≡ between lo hi part
between-block before part k lo hi s st e = elim e [
  | inr n ↦ rw n refl
  | inl le ↦ rw st.form (between-right before k st.val st.rest lo hi (rw st.form at s) le)
]
