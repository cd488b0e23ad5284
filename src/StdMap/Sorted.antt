-- ===== src/StdMap/Sorted.antt =====
-- Every operation keeps the entries in the order of their keys.
use nexus_db_main.Common.{lt, [], ◌∷◌, Bytes, ◌≡◌, arith}
use nexus_db_main.Text.{str_compare}
use nexus_db_main.Text.Order.{lt_of_gt}
use nexus_db_main.StdMap.{Map, assign, erase, lower_bound, before_upper_bound, Above, IsSorted}
use nexus_db_main.StdMap.Find.{Above-trans}

module _ {ℓ} {V : Type ℓ} where
  pub assign-Above :
      (b q : Bytes) (w : V) (m : Map V) → str_compare b q ≡ lt → Above b m → Above b (assign q w m)
  unfolding assign
  assign-Above b q w [] h t = (h, tt)
  assign-Above b q w ((k, v) ∷ m) h t = ground (arith, assign-Above b q w m h t.1)

  pub assign-IsSorted : (q : Bytes) (w : V) (m : Map V) → IsSorted m → IsSorted (assign q w m)
  unfolding assign
  assign-IsSorted q w [] s = (tt, tt)
  assign-IsSorted q w ((k, v) ∷ m) s =
      ground
        (arith, assign-IsSorted q w m s.1, assign-Above k q w m, lt_of_gt q k, Above-trans q k m)

  pub erase-Above : (b q : Bytes) (m : Map V) → Above b m → Above b (erase q m)
  unfolding erase
  erase-Above b q [] t = tt
  erase-Above b q ((k, v) ∷ m) t = ground (arith, erase-Above b q m t.1)

  pub erase-IsSorted : (q : Bytes) (m : Map V) → IsSorted m → IsSorted (erase q m)
  unfolding erase
  erase-IsSorted q [] s = tt
  erase-IsSorted q ((k, v) ∷ m) s = ground (arith, erase-IsSorted q m s.1, erase-Above k q m s.0)

  pub lower_bound-IsSorted : (lo : Bytes) (m : Map V) → IsSorted m → IsSorted (lower_bound lo m)
  unfolding lower_bound
  lower_bound-IsSorted lo [] s = tt
  lower_bound-IsSorted lo ((k, v) ∷ m) s = ground (arith, lower_bound-IsSorted lo m s.1)

  before_upper_bound-Above :
      (b hi : Bytes) (m : Map V) → Above b m → Above b (before_upper_bound hi m)
  unfolding before_upper_bound
  before_upper_bound-Above b hi [] t = tt
  before_upper_bound-Above b hi ((k, v) ∷ m) t = ground (arith, before_upper_bound-Above b hi m t.1)

  pub before_upper_bound-IsSorted :
      (hi : Bytes) (m : Map V) → IsSorted m → IsSorted (before_upper_bound hi m)
  unfolding before_upper_bound
  before_upper_bound-IsSorted hi [] s = tt
  before_upper_bound-IsSorted hi ((k, v) ∷ m) s =
      ground (arith, before_upper_bound-IsSorted hi m s.1, before_upper_bound-Above k hi m s.0)
