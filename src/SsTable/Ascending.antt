-- ===== src/SsTable/Ascending.antt =====
-- The index of sorted entries is sorted, so its entries that are not above a key come first.
use nexus_db_main.Common.{
  ℕ, zero, suc, ◌+◌, ◌%◌, ◌<◌, lt, List, [], ◌∷◌, false, Bytes, ◌≡◌, length, arith, ◌==◌,
  Bool-cases, inl, inr,
}
use nexus_db_main.Text.{str_compare, str_le}
use nexus_db_main.Text.Order.{lt_trans, lt_of_gt, gt_of_lt}
use nexus_db_main.StdMap.{Above, IsSorted}
use nexus_db_main.SsTable.{DataEntry, IndexEntry, sparse_index_interval}
use nexus_db_main.SsTable.Queries.{key_at}
use nexus_db_main.SsTable.Data.{entry_size}
use nexus_db_main.SsTable.Layout.{index_of}
use nexus_db_main.SsTable.Search.{IsAscending}

index_of-Above :
    (b : Bytes) (i offset : ℕ) (es : List DataEntry) → Above b es → Above b (index_of i offset es)
index_of-Above b i offset [] a = tt
index_of-Above b i offset (e ∷ es) a =
    let rest = index_of-Above b (suc i) (offset + entry_size e) es a.1 in
    elim (Bool-cases (i % sparse_index_interval == 0)) [
      | inl c ↦ rw c (a.0, rest)
      | inr c ↦ rw c rest
    ]

pub index_of-IsSorted :
    (i offset : ℕ) (es : List DataEntry) → IsSorted es → IsSorted (index_of i offset es)
index_of-IsSorted i offset [] s = tt
index_of-IsSorted i offset (e ∷ es) s =
    let rest = index_of-IsSorted (suc i) (offset + entry_size e) es s.1 in
    elim (Bool-cases (i % sparse_index_interval == 0)) [
      | inl c ↦ rw c (index_of-Above e.0 (suc i) (offset + entry_size e) es s.0, rest)
      | inr c ↦ rw c rest
    ]

Above-key_at :
    (b : Bytes) (index : List IndexEntry) (j : ℕ)
    → Above b index
    → j < length index
    → str_compare b (key_at index j) ≡ lt
Above-key_at b [] j a h = absurd (omega arith)
Above-key_at b (ie ∷ index) zero a h = a.0
Above-key_at b (ie ∷ index) (suc j) a h = Above-key_at b index j a.1 (omega arith)

above_too : (k j key : Bytes) → str_compare k j ≡ lt → str_le k key ≡ false → str_le j key ≡ false
above_too k j key h e = ground (arith, lt_of_gt k key, lt_trans key k j, gt_of_lt key j)

pub IsSorted→IsAscending :
    (index : List IndexEntry) (key : Bytes) → IsSorted index → IsAscending index key
IsSorted→IsAscending [] key s i j le h n = absurd (omega arith)
IsSorted→IsAscending (ie ∷ index) key s zero zero le h n = n
IsSorted→IsAscending (ie ∷ index) key s zero (suc j) le h n =
    above_too ie.0 (key_at index j) key (Above-key_at ie.0 index j s.0 (omega arith)) n
IsSorted→IsAscending (ie ∷ index) key s (suc i) zero le h n = absurd (omega arith)
IsSorted→IsAscending (ie ∷ index) key s (suc i) (suc j) le h n =
    IsSorted→IsAscending index key s.1 i j (omega arith) (omega arith) n
