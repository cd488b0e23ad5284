-- ===== src/Text.antt =====
-- `std::string` as the program uses it: the lexicographic order of the unsigned bytes behind `<`,
-- `==` and the order of `std::map`.
pub mod Order
use nexus_db_main.Common.{ℕ, Ordering, lt, eq, gt, compare, [], ◌∷◌, Bool, true, false, Bytes}

unfoldable pub str_compare : Bytes → Bytes → Ordering
str_compare [] [] = eq
str_compare [] (y ∷ ys) = lt
str_compare (x ∷ xs) [] = gt
str_compare (x ∷ xs) (y ∷ ys) = elim (compare x y) [ lt ↦ lt | eq ↦ str_compare xs ys | gt ↦ gt ]

abbrev pub str_eq : Bytes → Bytes → Bool
str_eq a b = elim (str_compare a b) [ eq ↦ true | _ ↦ false ]

abbrev pub str_lt : Bytes → Bytes → Bool
str_lt a b = elim (str_compare a b) [ lt ↦ true | _ ↦ false ]

abbrev pub str_le : Bytes → Bytes → Bool
str_le a b = elim (str_compare a b) [ gt ↦ false | _ ↦ true ]
