-- ===== src/Row/Tests.antt =====
-- Runs at small inputs.
use nexus_db_main.Common.{List, [], ◌∷◌, ◌++◌, ◌≡◌, refl, arith, true, some, none, codes, All}
use nexus_db_main.Common.Int.{negsuc}
use nexus_db_main.Encoding.{decode_u32_le}
use nexus_db_main.Types.{Value, text, make_int, make_text, make_bool, make_null}
use nexus_db_main.Common.Reads.{read_exactly}
use nexus_db_main.Encoding.Reads.{read_u32, read_byte}
use nexus_db_main.Row.{serialize, deserialize, read_value, read_values}
use nexus_db_main.Row.RoundTrip.{Made, an_int, a_text, a_bool, a_null, row_round_trip}

abbrev row : List Value
row = make_int (negsuc 4) ∷ make_text (codes "hi") ∷ make_bool true ∷ make_null text ∷ []

row-Made : All Made row
row-Made = (
  an_int (negsuc 4) (omega arith) refl,
  (a_text (codes "hi") (omega arith) refl, (a_bool true refl, (a_null text tt refl, tt))),
)

row_round_trip_example : deserialize (serialize row ++ (7 ∷ [])) ≡ some row
row_round_trip_example = row_round_trip row (7 ∷ []) (omega arith) row-Made

-- Four bytes of a row that names one value, and no value: the read runs past the end.
cut_row : deserialize (1 ∷ 0 ∷ 0 ∷ 0 ∷ []) ≡ none
unfolding deserialize read_u32 read_exactly read_values decode_u32_le read_value read_byte
cut_row = refl
