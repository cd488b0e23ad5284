-- ===== src/Types/Compare.antt =====
-- The comparisons of values agree with one another.
use nexus_db_main.Common.{
  ℕ, ◌+◌, ◌<◌, ◌^◌, Bool, true, false, Bytes, ◌≡◌, refl, ◌⊎◌, arith, if◌then◌else◌,
}
use nexus_db_main.Common.Int.{ℤ, pos, negsuc, eq_ℤ, ltb_ℤ}
use nexus_db_main.Text.{str_eq, str_lt}
use nexus_db_main.Text.Order.{gt_of_lt, lt_of_gt, eq_of_compare, compare_refl, lt_trans}
use nexus_db_main.Types.{
  int, float, text, Value, double_eq, double_lt, compare_eq, compare_lt, compare_gt, is_nan,
}

-- How many of three tests hold.
abbrev pub count : Bool → Bool → Bool → ℕ
count a b c = (if a then 1 else 0) + (if b then 1 else 0) + (if c then 1 else 0)

count_ℤ : (a b : ℤ) → count (ltb_ℤ a b) (eq_ℤ a b) (ltb_ℤ b a) ≡ 1
count_ℤ (pos a) (pos b) = ground arith
count_ℤ (pos a) (negsuc b) = refl
count_ℤ (negsuc a) (pos b) = refl
count_ℤ (negsuc a) (negsuc b) = ground arith

count_text : (a b : Bytes) → count (str_lt a b) (str_eq a b) (str_lt b a) ≡ 1
count_text a b = ground (arith, gt_of_lt a b, lt_of_gt a b, eq_of_compare a b, compare_refl a)

count_double :
    (x y : ℕ)
    → x < 2 ^ 64
    → y < 2 ^ 64
    → is_nan x ≡ false
    → is_nan y ≡ false
    → count (double_lt x y) (double_eq x y) (double_lt y x) ≡ 1
unfolding double_lt double_eq
count_double x y hx hy nx ny = ground arith

-- The values that an order can be expected of: no NULL, no NaN, no BOOL.
pub record IsComparable (v : Value) : Type 0 where
  pub not_null : v.is_null ≡ false
  pub kind :
      (v.type ≡ int)
      ⊎ ((v.type ≡ text)
          ⊎ ((v.type ≡ float) × (v.float_val < 2 ^ 64) × (is_nan v.float_val ≡ false)))

-- Of two comparable values of one type, exactly one of `<`, `==` and `>` holds.
pub compare_trichotomy :
    (v w : Value)
    → v.type ≡ w.type
    → IsComparable v
    → IsComparable w
    → count (compare_lt v w) (compare_eq v w) (compare_gt v w) ≡ 1
unfolding compare_lt compare_eq compare_gt
compare_trichotomy v w e hv hw = ground (
  arith,
  count_ℤ v.int_val w.int_val,
  count_text v.text_val w.text_val,
  count_double v.float_val w.float_val,
)

lt_trans_ℤ : (a b c : ℤ) → ltb_ℤ a b ≡ true → ltb_ℤ b c ≡ true → ltb_ℤ a c ≡ true
lt_trans_ℤ a b c h k = ground arith

double_lt_trans : (x y z : ℕ) → double_lt x y ≡ true → double_lt y z ≡ true → double_lt x z ≡ true
unfolding double_lt
double_lt_trans x y z h k = ground arith

-- `<` is transitive on the values of one type, NULL and NaN among them.
pub compare_lt_trans :
    (u v w : Value)
    → u.type ≡ v.type
    → v.type ≡ w.type
    → compare_lt u v ≡ true
    → compare_lt v w ≡ true
    → compare_lt u w ≡ true
unfolding compare_lt
compare_lt_trans u v w e f h k = ground (
  arith,
  lt_trans_ℤ u.int_val v.int_val w.int_val,
  double_lt_trans u.float_val v.float_val w.float_val,
  lt_trans u.text_val v.text_val w.text_val,
)

abbrev pub Incomparable : Value → Value → Type 0
Incomparable v w = (compare_lt v w ≡ false) × (compare_lt w v ≡ false)
