-- ===== src/MemTable/Size.antt =====
-- The invariant of a MemTable: its keys ascend, and `current_size_` is the number of bytes held.
use nexus_db_main.Common.{
  ℕ, ◌+◌, ◌-◌, ◌^◌, ◌<◌, ◌≤◌, [], ◌∷◌, Bytes, ◌≡◌, refl, Option, none, some, arith, length,
}
use nexus_db_main.Text.Order.{compare_refl, lt_of_gt, eq_of_compare}
use nexus_db_main.StdMap.{Map, find, assign, IsSorted}
use nexus_db_main.StdMap.Find.{find-Above}
use nexus_db_main.StdMap.Sorted.{assign-IsSorted}
use nexus_db_main.MemTable.{MemTable, empty, put, remove, clear, without_old}

abbrev pub value_size : Option Bytes → ℕ
value_size none = 0
value_size (some v) = length v

-- The bytes of the keys and the values; a tombstone has a key only.
abbrev pub total_size : Map (Option Bytes) → ℕ
total_size [] = 0
total_size ((k, v) ∷ m) = length k + value_size v + total_size m

abbrev old_size : Bytes → Option (Option Bytes) → ℕ
old_size key none = 0
old_size key (some v) = length key + value_size v

pub record IsValid (m : MemTable) : Type 0 where
  pub sorted : IsSorted m.entries
  pub counted : m.current_size ≡ total_size m.entries

total_size-assign :
    (key : Bytes) (v : Option Bytes) (m : Map (Option Bytes))
    → IsSorted m
    → total_size (assign key v m) + old_size key (find key m)
      ≡ total_size m + length key + value_size v
unfolding find assign
total_size-assign key v [] s = omega arith
total_size-assign key v ((k, w) ∷ m) s = ground (
  arith,
  total_size-assign key v m s.1,
  find-Above k key m s.0,
  lt_of_gt key k,
  eq_of_compare key k,
  eq_of_compare k key,
  compare_refl key,
)

old_size-le : (key : Bytes) (m : Map (Option Bytes)) → old_size key (find key m) ≤ total_size m
unfolding find
old_size-le key [] = omega arith
old_size-le key ((k, w) ∷ m) = ground (arith, old_size-le key m, eq_of_compare k key)

-- The subtractions never go below zero.
without_old-eq :
    (key : Bytes) (o : Option (Option Bytes)) (size rest : ℕ)
    → size < 2 ^ 64
    → size ≡ rest + old_size key o
    → without_old key o size ≡ rest
unfolding without_old
without_old-eq key none size rest h e = omega arith
without_old-eq key (some none) size rest h e = omega arith
without_old-eq key (some (some v)) size rest h e = omega arith

pub empty-IsValid : (threshold : ℕ) → IsValid (empty threshold)
unfolding empty
empty-IsValid threshold = record { sorted = tt; counted = refl }

pub clear-IsValid : (m : MemTable) → IsValid (clear m)
unfolding clear
clear-IsValid m = record { sorted = tt; counted = refl }

-- What `current_size_` holds before the new entry is added: the bytes of the other entries.
without_old-others :
    (key : Bytes) (m : MemTable)
    → total_size m.entries < 2 ^ 64
    → IsValid m
    → without_old key (find key m.entries) m.current_size
      ≡ total_size m.entries - old_size key (find key m.entries)
without_old-others key m fits h =
    without_old-eq key (find key m.entries) m.current_size _ (omega arith)
      (omega (arith, old_size-le key m.entries))

-- `put` keeps the invariant, the byte count included, if the bytes held and the new entry fit
-- `size_t`.
pub put-IsValid :
    (key value : Bytes) (m : MemTable)
    → total_size m.entries + length key + length value < 2 ^ 64
    → IsValid m
    → IsValid (put key value m)
unfolding put
put-IsValid key value m fits h = record {
  sorted = assign-IsSorted key (some value) m.entries h.sorted;
  counted = rw (without_old-others key m (omega arith) h) (
      omega
        (arith, old_size-le key m.entries, total_size-assign key (some value) m.entries h.sorted));
}

-- `remove` keeps the invariant, the byte count included, if the bytes held and the key fit
-- `size_t`.
pub remove-IsValid :
    (key : Bytes) (m : MemTable)
    → total_size m.entries + length key < 2 ^ 64
    → IsValid m
    → IsValid (remove key m)
unfolding remove
remove-IsValid key m fits h = record {
  sorted = assign-IsSorted key none m.entries h.sorted;
  counted =
      rw (without_old-others key m (omega arith) h)
        (omega (arith, old_size-le key m.entries, total_size-assign key none m.entries h.sorted));
}
