-- ===== src/Text/Order.antt =====
-- The order on strings is a total order.
use nexus_db_main.Common.{lt, eq, gt, [], ◌∷◌, true, false, Bytes, ◌≡◌, ◌≢◌, refl, arith}
use nexus_db_main.Text.{str_compare, str_eq}

pub compare_refl : (a : Bytes) → str_compare a a ≡ eq
unfolding str_compare
compare_refl [] = refl
compare_refl (x ∷ xs) = ground (arith, compare_refl xs)

pub eq_of_compare : (a b : Bytes) → str_compare a b ≡ eq → a ≡ b
unfolding str_compare
eq_of_compare [] [] h = refl
eq_of_compare [] (y ∷ ys) h = cc
eq_of_compare (x ∷ xs) [] h = cc
eq_of_compare (x ∷ xs) (y ∷ ys) h = ground (arith, eq_of_compare xs ys)

pub gt_of_lt : (a b : Bytes) → str_compare a b ≡ lt → str_compare b a ≡ gt
unfolding str_compare
gt_of_lt [] [] h = cc
gt_of_lt [] (y ∷ ys) h = refl
gt_of_lt (x ∷ xs) [] h = cc
gt_of_lt (x ∷ xs) (y ∷ ys) h = ground (arith, gt_of_lt xs ys)

pub lt_of_gt : (a b : Bytes) → str_compare a b ≡ gt → str_compare b a ≡ lt
unfolding str_compare
lt_of_gt [] [] h = cc
lt_of_gt [] (y ∷ ys) h = cc
lt_of_gt (x ∷ xs) [] h = refl
lt_of_gt (x ∷ xs) (y ∷ ys) h = ground (arith, lt_of_gt xs ys)

pub lt_trans : (a b c : Bytes) → str_compare a b ≡ lt → str_compare b c ≡ lt → str_compare a c ≡ lt
unfolding str_compare
lt_trans [] [] c h k = cc
lt_trans [] (y ∷ ys) [] h k = cc
lt_trans [] (y ∷ ys) (z ∷ zs) h k = refl
lt_trans (x ∷ xs) [] c h k = cc
lt_trans (x ∷ xs) (y ∷ ys) [] h k = cc
lt_trans (x ∷ xs) (y ∷ ys) (z ∷ zs) h k = ground (arith, lt_trans xs ys zs)

pub str_eq_refl : (a : Bytes) → str_eq a a ≡ true
str_eq_refl a = ground (arith, compare_refl a)

pub str_eq→eq : (a b : Bytes) → str_eq a b ≡ true → a ≡ b
str_eq→eq a b h = ground (arith, eq_of_compare a b)

pub str_eq-false : (a b : Bytes) → a ≢ b → str_eq a b ≡ false
str_eq-false a b h = ground (arith, eq_of_compare a b)
