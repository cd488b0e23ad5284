-- ===== src/Types/Print.antt =====
-- `Value::to_string` of include/mosaicdb/types.h.
use nexus_db_main.Common.{Bytes, codes, if◌then◌else◌}
use nexus_db_main.Common.Ascii.{to_string_ℤ}
use nexus_db_main.Types.{ColumnType, int, float, text, bool, other, Value}
use nexus_db_main.Types.Floats.{Floats}

unfoldable pub typed_text : Floats → ColumnType → Value → Bytes
typed_text floats int v = to_string_ℤ v.int_val
typed_text floats float v = floats.to_text v.float_val
typed_text floats text v = v.text_val
typed_text floats bool v = if v.bool_val then codes "TRUE" else codes "FALSE"
typed_text floats (other b) v = codes "?"

unfoldable pub value_text : Floats → Value → Bytes
value_text floats v = if v.is_null then codes "NULL" else typed_text floats v.type v
