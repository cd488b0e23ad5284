-- ===== src/Types/Floats.antt =====
-- What the program takes from the C++ library on `double`: `std::stod`, where `none` is an exception,
-- the conversions from and to `int64_t`, and the text that `std::fixed` with two digits gives.
use nexus_db_main.Common.{ℕ, Bytes, Option}
use nexus_db_main.Common.Int.{ℤ}

pub record Floats : Type 0 where
  pub stod : Bytes → Option ℕ
  pub of_int : ℤ → ℕ
  pub to_int : ℕ → ℤ
  pub to_text : ℕ → Bytes
