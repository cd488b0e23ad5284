-- ===== src/Types/Tests.antt =====
-- Comparisons at small inputs.
use nexus_db_main.Common.{◌≡◌, refl, true, false, codes, inl, inr}
use nexus_db_main.Types.{make_text, compare_lt, compare_eq, compare_gt, double_lt, double_eq}
use nexus_db_main.Types.Compare.{count, compare_trichotomy}

compare_trichotomy_example :
    count
      (compare_lt (make_text (codes "ab")) (make_text (codes "b")))
      (compare_eq (make_text (codes "ab")) (make_text (codes "b")))
      (compare_gt (make_text (codes "ab")) (make_text (codes "b")))
    ≡ 1
compare_trichotomy_example =
    compare_trichotomy (make_text (codes "ab")) (make_text (codes "b")) refl
      (record { not_null = refl; kind = inr (inl refl) })
      (record { not_null = refl; kind = inr (inl refl) })

-- -0.0 == 0.0, -1.5 < 0.25, and NaN equals nothing.
double_eq_zeros : double_eq 0x8000000000000000 0 ≡ true
unfolding double_eq
double_eq_zeros = refl

double_lt_signs : double_lt 0xBFF8000000000000 0x3FD0000000000000 ≡ true
unfolding double_lt
double_lt_signs = refl

double_eq_nan : double_eq 0x7FF8000000000000 0x7FF8000000000000 ≡ false
unfolding double_eq
double_eq_nan = refl
