-- ===== src/StdMap/Find.antt =====
-- What `find` returns after each operation.
use nexus_db_main.Common.{lt, [], ◌∷◌, true, Bytes, ◌≡◌, refl, none, some, if◌then◌else◌, arith}
use nexus_db_main.Text.{str_compare, str_eq, str_le}
use nexus_db_main.Text.Order.{compare_refl, eq_of_compare, gt_of_lt, lt_of_gt, lt_trans}
use nexus_db_main.StdMap.{
  Map, find, assign, erase, lower_bound, before_upper_bound, Above, IsSorted,
}

module _ {ℓ} {V : Type ℓ} where
  pub find-assign :
      (q j : Bytes) (w : V) (m : Map V)
      → find j (assign q w m) ≡ (if str_eq q j then some w else find j m)
  unfolding find assign
  find-assign q j w [] = refl
  find-assign q j w ((k, v) ∷ m) = ground (
    arith,
    eq_of_compare q k,
    eq_of_compare q j,
    eq_of_compare k j,
    compare_refl k,
    find-assign q j w m,
  )

  pub Above-trans : (a b : Bytes) (m : Map V) → str_compare a b ≡ lt → Above b m → Above a m
  Above-trans a b [] h t = tt
  Above-trans a b ((k, v) ∷ m) h t = (lt_trans a b k h t.0, Above-trans a b m h t.1)

  pub find-Above : (b q : Bytes) (m : Map V) → Above b m → str_le q b ≡ true → find q m ≡ none
  unfolding find
  find-Above b q [] t h = refl
  find-Above b q ((k, v) ∷ m) t h = ground (
    arith,
    find-Above b q m t.1,
    gt_of_lt b k,
    eq_of_compare q b,
    eq_of_compare k q,
    lt_trans q b k,
    gt_of_lt q b,
    t.0,
  )

  pub find-erase :
      (q j : Bytes) (m : Map V)
      → IsSorted m
      → find j (erase q m) ≡ (if str_eq q j then none else find j m)
  unfolding find erase
  find-erase q j [] s = ground arith
  find-erase q j ((k, v) ∷ m) s = ground (
    arith,
    find-erase q j m s.1,
    find-Above k j m s.0,
    eq_of_compare k q,
    eq_of_compare q j,
    eq_of_compare k j,
    compare_refl k,
  )

  pub find-lower_bound :
      (lo q : Bytes) (m : Map V)
      → IsSorted m
      → find q (lower_bound lo m) ≡ (if str_le lo q then find q m else none)
  unfolding find lower_bound
  find-lower_bound lo q [] s = ground arith
  find-lower_bound lo q ((k, v) ∷ m) s = ground (
    arith,
    find-lower_bound lo q m s.1,
    find-Above k q m s.0,
    eq_of_compare k q,
    eq_of_compare k lo,
    lt_of_gt k lo,
    lt_of_gt lo q,
    gt_of_lt k lo,
    lt_trans q lo k,
    compare_refl k,
  )

  pub find-before_upper_bound :
      (hi q : Bytes) (m : Map V)
      → IsSorted m
      → find q (before_upper_bound hi m) ≡ (if str_le q hi then find q m else none)
  unfolding find before_upper_bound
  find-before_upper_bound hi q [] s = ground arith
  find-before_upper_bound hi q ((k, v) ∷ m) s = ground (
    arith,
    find-before_upper_bound hi q m s.1,
    find-Above k q m s.0,
    eq_of_compare k q,
    eq_of_compare q hi,
    lt_of_gt k hi,
    lt_trans q hi k,
    compare_refl k,
  )
