-- ===== src/StdMap/Ranges.antt =====
-- The loop between two bounds visits the entries of the closed interval, and nothing else.
use nexus_db_main.Common.{
  false, [], ◌∷◌, true, ◌&&◌, Bytes, ◌≡◌, ◌≤◌, refl, none, some, if◌then◌else◌, arith, length,
}
use nexus_db_main.Text.{str_le}
use nexus_db_main.Text.Order.{eq_of_compare, lt_trans, lt_of_gt, gt_of_lt}
use nexus_db_main.StdMap.{
  Map, find, lower_bound, upper_bound, before_upper_bound, walk, IsSorted, Above,
}
use nexus_db_main.StdMap.Find.{find-lower_bound, find-before_upper_bound}
use nexus_db_main.StdMap.Sorted.{lower_bound-IsSorted, before_upper_bound-IsSorted}

module _ {ℓ} {V : Type ℓ} where
  upper_bound_shorter : (hi : Bytes) (m : Map V) → length (upper_bound hi m) ≤ length m
  unfolding upper_bound
  upper_bound_shorter hi [] = omega arith
  upper_bound_shorter hi ((k, v) ∷ m) = ground (arith, upper_bound_shorter hi m)

  walk-upper_bound :
      (hi : Bytes) (m : Map V) → walk m (length (upper_bound hi m)) ≡ some (before_upper_bound hi m)
  unfolding walk upper_bound before_upper_bound
  walk-upper_bound hi [] = refl
  walk-upper_bound hi ((k, v) ∷ m) = ground (arith, walk-upper_bound hi m, upper_bound_shorter hi m)

  upper_bound-lower_bound :
      (lo hi : Bytes) (m : Map V)
      → str_le lo hi ≡ true
      → upper_bound hi (lower_bound lo m) ≡ upper_bound hi m
  unfolding upper_bound lower_bound
  upper_bound-lower_bound lo hi [] h = refl
  upper_bound-lower_bound lo hi ((k, v) ∷ m) h =
      ground (arith, upper_bound-lower_bound lo hi m h, lt_trans k lo hi, eq_of_compare lo hi)

  -- From `lower_bound(lo)` to `upper_bound(hi)`.
  unfoldable pub between : Bytes → Bytes → Map V → Map V
  between lo hi m = before_upper_bound hi (lower_bound lo m)

  pub walk-between :
      (lo hi : Bytes) (m : Map V)
      → str_le lo hi ≡ true
      → walk (lower_bound lo m) (length (upper_bound hi m)) ≡ some (between lo hi m)
  unfolding between
  walk-between lo hi m h =
      rw (← upper_bound-lower_bound lo hi m h) (walk-upper_bound hi (lower_bound lo m))

  pub between-IsSorted : (lo hi : Bytes) (m : Map V) → IsSorted m → IsSorted (between lo hi m)
  unfolding between
  between-IsSorted lo hi m s =
      before_upper_bound-IsSorted hi (lower_bound lo m) (lower_bound-IsSorted lo m s)

  pub find-between :
      (lo hi q : Bytes) (m : Map V)
      → IsSorted m
      → find q (between lo hi m) ≡ (if str_le lo q && str_le q hi then find q m else none)
  unfolding between
  find-between lo hi q m s = ground (
    arith,
    find-before_upper_bound hi q (lower_bound lo m) (lower_bound-IsSorted lo m s),
    find-lower_bound lo q m s,
  )

module _ {ℓ} {V : Type ℓ} where
  -- Above a key past the interval there is nothing in it.
  between-Above :
      (k lo hi : Bytes) (m : Map V) → str_le k hi ≡ false → Above k m → between lo hi m ≡ []
  unfolding between lower_bound before_upper_bound
  between-Above k lo hi [] c a = refl
  between-Above k lo hi ((j, v) ∷ m) c a =
      ground
        (arith, between-Above k lo hi m c a.1, a.0, lt_trans hi k j, lt_of_gt k hi, gt_of_lt hi j)

  pub between_past :
      (lo hi k : Bytes) (v : V) (m : Map V)
      → str_le k hi ≡ false
      → Above k m
      → between lo hi ((k, v) ∷ m) ≡ []
  unfolding between lower_bound before_upper_bound
  between_past lo hi k v m c a = ground (arith, between-Above k lo hi m c a)

  pub between_skip :
      (lo hi k : Bytes) (v : V) (m : Map V)
      → str_le lo k ≡ false
      → between lo hi ((k, v) ∷ m) ≡ between lo hi m
  unfolding between lower_bound
  between_skip lo hi k v m d = ground (arith, lt_of_gt lo k)

  lower_bound-Above :
      (lo k : Bytes) (m : Map V) → str_le lo k ≡ true → Above k m → lower_bound lo m ≡ m
  unfolding lower_bound
  lower_bound-Above lo k [] d a = refl
  lower_bound-Above lo k ((j, v) ∷ m) d a =
      ground (arith, a.0, lt_trans lo k j, eq_of_compare lo k, gt_of_lt lo j)

  pub between-nil : (lo hi : Bytes) → between {V = V} lo hi [] ≡ []
  unfolding between lower_bound before_upper_bound
  between-nil lo hi = refl

  pub between_keep :
      (lo hi k : Bytes) (v : V) (m : Map V)
      → str_le k hi ≡ true
      → str_le lo k ≡ true
      → Above k m
      → between lo hi ((k, v) ∷ m) ≡ (k, v) ∷ between lo hi m
  unfolding between lower_bound before_upper_bound
  between_keep lo hi k v m c d a =
      ground (arith, lower_bound-Above lo k m d a, lt_of_gt lo k, gt_of_lt k lo)
