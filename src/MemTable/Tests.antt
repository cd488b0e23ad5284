-- ===== src/MemTable/Tests.antt =====
-- Runs of the MemTable at small inputs.
use nexus_db_main.Common.{[], ◌≡◌, refl, true, codes, Bytes, arith, if◌then◌else◌}
use nexus_db_main.Text.{str_eq, str_compare}
use nexus_db_main.StdMap.{find, assign}
use nexus_db_main.MemTable.{MemTable, empty, put, remove, get, should_flush}
use nexus_db_main.MemTable.Lookup.{get-remove}
use nexus_db_main.MemTable.Size.{IsValid, empty-IsValid, put-IsValid}

abbrev a : Bytes
a = codes "a"

abbrev b : Bytes
b = codes "b"

abbrev two : MemTable
unfolding put empty
two = put b (codes "22") (put a (codes "1") (empty 5))

two-IsValid : IsValid two
unfolding put empty find str_compare assign
two-IsValid =
    put-IsValid b (codes "22") (put a (codes "1") (empty 5)) (omega arith)
      (put-IsValid a (codes "1") (empty 5) (omega arith) (empty-IsValid 5))

get-remove_example :
    get b (remove b two)
    ≡ (if str_eq b b then record { found = true; is_tombstone = true; value = [] } else get b two)
get-remove_example = get-remove b b two

put-IsValid_example : IsValid (put a (codes "long") two)
unfolding put empty find str_compare assign
put-IsValid_example = put-IsValid a (codes "long") two (omega arith) two-IsValid

-- Five bytes in two entries: the threshold of five is reached.
two_flushes : should_flush two ≡ true
unfolding should_flush put empty find str_compare assign
two_flushes = refl
