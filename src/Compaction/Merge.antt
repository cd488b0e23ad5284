-- ===== src/Compaction/Merge.antt =====
-- What a compaction keeps: for each key the newest entry, if it is no tombstone.
use nexus_db_main.Common.{
  List, [], ◌∷◌, Bytes, ◌≡◌, refl, sym, Option, none, some, All, if◌then◌else◌, arith, is_empty,
  inl, inr, ◌⊎◌,
}
use nexus_db_main.Text.Order.{eq_of_compare, compare_refl}
use nexus_db_main.StdMap.{Map, find, assign, Above, IsSorted}
use nexus_db_main.StdMap.Find.{find-assign, find-Above}
use nexus_db_main.StdMap.Sorted.{assign-IsSorted}
use nexus_db_main.SsTable.{DataEntry}
use nexus_db_main.Compaction.{assign_all, merge, live_entries, filler, result_entries}

abbrev pub or_else : Option (Option Bytes) → Option (Option Bytes) → Option (Option Bytes)
or_else none other = other
or_else (some v) other = some v

-- The entry of the first table that has the key: the newest.
abbrev pub newest : Bytes → List (List DataEntry) → Option (Option Bytes)
newest q [] = none
newest q (t ∷ ts) = or_else (find q t) (newest q ts)

-- An entry that is no tombstone.
abbrev pub live : Option (Option Bytes) → Option (Option Bytes)
live none = none
live (some none) = none
live (some (some v)) = some (some v)

pub find-assign_all :
    (q : Bytes) (t : List DataEntry) (m : Map (Option Bytes))
    → IsSorted t
    → find q (assign_all t m) ≡ or_else (find q t) (find q m)
unfolding find assign_all
find-assign_all q [] m s = refl
find-assign_all q ((k, v) ∷ t) m s = ground (
  arith,
  find-assign_all q t (assign k v m) s.1,
  find-assign k q v m,
  find-Above k q t s.0,
  eq_of_compare k q,
  compare_refl q,
)

pub assign_all-IsSorted :
    (t : List DataEntry) (m : Map (Option Bytes)) → IsSorted m → IsSorted (assign_all t m)
unfolding assign_all
assign_all-IsSorted [] m s = s
assign_all-IsSorted ((k, v) ∷ t) m s =
    assign_all-IsSorted t (assign k v m) (assign-IsSorted k v m s)

pub merge-IsSorted : (ts : List (List DataEntry)) → IsSorted (merge ts)
unfolding merge
merge-IsSorted [] = tt
merge-IsSorted (t ∷ ts) = assign_all-IsSorted t (merge ts) (merge-IsSorted ts)

pub find-merge :
    (q : Bytes) (ts : List (List DataEntry)) → All IsSorted ts → find q (merge ts) ≡ newest q ts
unfolding merge find
find-merge q [] s = refl
find-merge q (t ∷ ts) s = rw (find-assign_all q t (merge ts) s.0, find-merge q ts s.1)

live_entries-Above : (b : Bytes) (m : Map (Option Bytes)) → Above b m → Above b (live_entries m)
unfolding live_entries
live_entries-Above b [] a = tt
live_entries-Above b ((k, none) ∷ m) a = live_entries-Above b m a.1
live_entries-Above b ((k, some v) ∷ m) a = (a.0, live_entries-Above b m a.1)

pub live_entries-IsSorted : (m : Map (Option Bytes)) → IsSorted m → IsSorted (live_entries m)
unfolding live_entries
live_entries-IsSorted [] s = tt
live_entries-IsSorted ((k, none) ∷ m) s = live_entries-IsSorted m s.1
live_entries-IsSorted ((k, some v) ∷ m) s =
    (live_entries-Above k m s.0, live_entries-IsSorted m s.1)

pub find-live_entries :
    (q : Bytes) (m : Map (Option Bytes)) → IsSorted m → find q (live_entries m) ≡ live (find q m)
unfolding find live_entries
find-live_entries q [] s = refl
find-live_entries q ((k, none) ∷ m) s =
    ground
      (arith, find-live_entries q m s.1, find-Above k q m s.0, eq_of_compare k q, compare_refl q)
find-live_entries q ((k, some v) ∷ m) s = ground (arith, find-live_entries q m s.1)

-- What a compaction has to keep, or the filler where nothing is kept.
pub record Compacts (ts : List (List DataEntry)) (result : List DataEntry) : Type 0 where
  pub sorted : IsSorted result
  pub kept :
      ((q : Bytes) → find q result ≡ live (newest q ts))
      ⊎ (((q : Bytes) → live (newest q ts) ≡ none) × (result ≡ filler ∷ []))

Compacts-kept :
    (ts : List (List DataEntry)) (xs : List DataEntry)
    → IsSorted xs
    → ((q : Bytes) → find q xs ≡ live (newest q ts))
    → Compacts ts (if is_empty xs then filler ∷ [] else xs)
unfolding find
Compacts-kept ts [] s f = record { sorted = (tt, tt); kept = inr (λ q. sym (f q), refl) }
Compacts-kept ts (x ∷ xs) s f = record { sorted = s; kept = inl f }

-- The entries of a compaction are sorted. For every key they hold the newest entry of the inputs if
-- it is no tombstone, and nothing otherwise; except that where no key has a newest entry that is a
-- value, they are the one entry `__empty__`, which was never written. The inputs are sorted.
pub result_entries_lem :
    (ts : List (List DataEntry)) → All IsSorted ts → Compacts ts (result_entries ts)
unfolding result_entries
result_entries_lem ts s =
    Compacts-kept ts (live_entries (merge ts))
      (live_entries-IsSorted (merge ts) (merge-IsSorted ts))
      (λ q. rw (find-live_entries q (merge ts) (merge-IsSorted ts), find-merge q ts s) refl)

some_entries :
    (xs : List DataEntry)
    → (first : DataEntry) × (others : List DataEntry) × ((if is_empty xs then filler ∷ [] else xs)
        ≡ first ∷ others)
some_entries [] = (filler, [], refl)
some_entries (x ∷ xs) = (x, xs, refl)

-- There is always an entry to write.
pub result_entries_some :
    (ts : List (List DataEntry))
    → (first : DataEntry) × (others : List DataEntry) × (result_entries ts ≡ first ∷ others)
unfolding result_entries
result_entries_some ts = some_entries (live_entries (merge ts))
