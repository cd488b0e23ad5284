-- ===== src/MemTable/Lookup.antt =====
-- What `get` and `contains` answer after a write.
use nexus_db_main.Common.{
  Option, ap, [], true, false, ◌||◌, Bytes, ◌≡◌, none, some, if◌then◌else◌, arith,
}
use nexus_db_main.Text.{str_eq}
use nexus_db_main.StdMap.Find.{find-assign}
use nexus_db_main.StdMap.{find}
use nexus_db_main.MemTable.{lookup_result, MemTable, put, remove, get, contains}

-- After `put(key, value)`, `get` returns the value for that key and what it returned before for any
-- other.
pub get-put :
    (key j value : Bytes) (m : MemTable)
    → get j (put key value m) ≡ (
        if str_eq key j
        then record { found = true; is_tombstone = false; value = value }
        else get j m)
unfolding get put
get-put key j value m = ground (arith, find-assign key j (some value) m.entries)

-- After `remove(key)`, `get` reports a tombstone for that key, whether or not the key was there,
-- and what it returned before for any other.
pub get-remove :
    (key j : Bytes) (m : MemTable)
    → get j (remove key m)
      ≡ (if str_eq key j then record { found = true; is_tombstone = true; value = [] } else get j m)
unfolding get remove
get-remove key j m = ground (arith, find-assign key j none m.entries)

pub contains-put :
    (key j value : Bytes) (m : MemTable)
    → contains j (put key value m) ≡ (str_eq key j || contains j m)
unfolding contains put
contains-put key j value m = ground (arith, find-assign key j (some value) m.entries)

pub contains-remove :
    (key j : Bytes) (m : MemTable) → contains j (remove key m) ≡ (str_eq key j || contains j m)
unfolding contains remove
contains-remove key j m = ground (arith, find-assign key j none m.entries)

pub get-find :
    (q : Bytes) (m : MemTable) (held : Option (Option Bytes))
    → find q m.entries ≡ held
    → get q m ≡ lookup_result held
unfolding get
get-find q m held h = ap lookup_result h
