-- ===== src/StdMap.antt =====
-- `std::map<std::string, V>` as the program uses it: the entries in the order of their keys.
pub mod Find
pub mod Sorted
pub mod Ranges
pub mod Parts
use nexus_db_main.Common.{
  ℕ, Ordering, lt, eq, gt, List, [], ◌∷◌, ◌++◌, Bool, true, false, ◌&&◌, Bytes, ◌≡◌, Option, none,
  some, All, if◌then◌else◌, suc, ◌==◌, length,
}
use nexus_db_main.Text.{str_compare, str_eq, str_le, str_lt}

abbrev pub Map {ℓ} : Type ℓ → Type ℓ
Map V = List (Bytes × V)

module _ {ℓ} {V : Type ℓ} where
  -- data_.find(key), with `none` for `end()`
  unfoldable pub find : Bytes → Map V → Option V
  find q [] = none
  find q ((k, v) ∷ m) = if str_eq k q then some v else find q m

  -- data_[key] = value
  unfoldable pub assign : Bytes → V → Map V → Map V
  assign q w [] = (q, w) ∷ []
  assign q w ((k, v) ∷ m) = elim (str_compare q k) [
    | lt ↦ (q, w) ∷ (k, v) ∷ m
    | eq ↦ (k, w) ∷ m
    | gt ↦ (k, v) ∷ assign q w m
  ]

  -- data_.erase(key)
  unfoldable pub erase : Bytes → Map V → Map V
  erase q [] = []
  erase q ((k, v) ∷ m) = let rest = erase q m in if str_eq k q then m else (k, v) ∷ rest

  -- The entries from data_.lower_bound(lo) on.
  unfoldable pub lower_bound : Bytes → Map V → Map V
  lower_bound lo [] = []
  lower_bound lo ((k, v) ∷ m) =
      let rest = lower_bound lo m in if str_lt k lo then rest else (k, v) ∷ m

  -- The entries before data_.upper_bound(hi).
  unfoldable pub before_upper_bound : Bytes → Map V → Map V
  before_upper_bound hi [] = []
  before_upper_bound hi ((k, v) ∷ m) =
      let rest = before_upper_bound hi m in if str_le k hi then (k, v) ∷ rest else []

  -- The entries from data_.upper_bound(hi) on.
  unfoldable pub upper_bound : Bytes → Map V → Map V
  upper_bound hi [] = []
  upper_bound hi ((k, v) ∷ m) =
      let rest = upper_bound hi m in if str_le k hi then rest else (k, v) ∷ m

  -- `for (auto it = first; it != last; ++it) result.push_back(*it)`. The iterators are the entries
  -- that are left, so `last` is known by their number. `none` is a loop that passes `end()` and
  -- never meets `last`.
  unfoldable pub walk : Map V → ℕ → Option (Map V)
  walk [] last = if last == 0 then some [] else none
  walk (e ∷ m) last =
      let more = walk m last in
      if suc (length m) == last then some [] else elim more [ none ↦ none | some r ↦ some (e ∷ r) ]

  abbrev pub Above : Bytes → Map V → Type 0
  Above b m = All (λ e. str_compare b e.0 ≡ lt) m

  -- Each key stands strictly above those before it.
  abbrev pub IsSorted : Map V → Type 0
  IsSorted [] = Unit
  IsSorted ((k, v) ∷ m) = Above k m × IsSorted m
