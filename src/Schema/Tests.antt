-- ===== src/Schema/Tests.antt =====
-- Runs at small inputs.
use nexus_db_main.Common.{[], ◌∷◌, ◌++◌, ◌≡◌, refl, arith, true, false, some, codes}
use nexus_db_main.Types.{int, text}
use nexus_db_main.Schema.{TableSchema, serialize, deserialize, find_column}
use nexus_db_main.Text.{str_compare}
use nexus_db_main.Schema.RoundTrip.{Fits, schema_round_trip}

abbrev users : TableSchema
users = record {
  table_name = codes "users";
  columns =
      record { name = codes "id"; type = int; not_null = true; is_primary_key = true }
      ∷ record { name = codes "name"; type = text; not_null = false; is_primary_key = false }
      ∷ [];
  primary_key = codes "id";
}

users-Fits : Fits users
users-Fits = record {
  name_fits = omega arith;
  key_fits = omega arith;
  count_fits = omega arith;
  columns_fit = (
    record { name_fits = omega arith; named = tt },
    (record { name_fits = omega arith; named = tt }, tt),
  );
}

schema_round_trip_example : deserialize (serialize users ++ []) ≡ some users
schema_round_trip_example = schema_round_trip users [] users-Fits

find_column_name : find_column users (codes "name") ≡ some 1
unfolding find_column str_compare
find_column_name = refl
