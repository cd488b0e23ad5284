-- ===== src/SsTable/Data.antt =====
-- The data section of a file: what the reader's rounds make of the entries as written.
use nexus_db_main.Common.{
  ℕ, ◌+◌, ◌^◌, ◌<◌, List, [], ◌∷◌, ◌++◌, Bytes, false, Option, none, some, ◌≡◌, refl, length,
  length-append, take_all, drop, drop-append, arith, append_assoc, ◌==◌, All,
}
use native.Mathlib.Nat.{mod-eq_of_lt}
use nexus_db_main.Common.Reads.{read_exactly-append}
use nexus_db_main.Encoding.{encode_u32_le, decode_u32_le}
use nexus_db_main.Encoding.RoundTrip.{
  decode_u32_le-encode_u32_le, decode_u32_le-encode_self, length-encode_u32_le,
}
use nexus_db_main.SsTable.{DataEntry, read_key, actual_size, entry_step, tombstone_val_size}
use nexus_db_main.SsTable.Writer.{val_size, val_data, entry_bytes}
use nexus_db_main.SsTable.Queries.{read_val}

abbrev pub entry_size : DataEntry → ℕ
entry_size (key, val) = 8 + length key + length (val_data val)

-- The position in a file counts an entry in 32 bits.
abbrev pub FitsEntry : DataEntry → Type 0
FitsEntry e = entry_size e < 2 ^ 32

abbrev pub data_bytes : List DataEntry → Bytes
data_bytes [] = []
data_bytes (e ∷ es) = entry_bytes e ++ data_bytes es

abbrev pub data_size : List DataEntry → ℕ
data_size [] = 0
data_size (e ∷ es) = entry_size e + data_size es

pub val_size-lt : (key : Bytes) (val : Option Bytes) → FitsEntry (key, val) → val_size val < 2 ^ 32
val_size-lt key none h = omega arith
val_size-lt key (some v) h = omega arith

pub entry_bytes-eq :
    (key : Bytes) (val : Option Bytes)
    → FitsEntry (key, val)
    → entry_bytes (key, val)
      ≡ encode_u32_le (length key) ++ (encode_u32_le (val_size val) ++ (key ++ val_data val))
unfolding entry_bytes
entry_bytes-eq key val h =
    rw (mod-eq_of_lt {n = length key} {m = 2 ^ 32} (omega arith), take_all key)

-- Two sizes, as they stand before a key.
unfoldable pub sizes : ℕ → ℕ → Bytes
sizes a b = encode_u32_le a ++ encode_u32_le b

pub length-sizes : (a b : ℕ) → length (sizes a b) ≡ 8
unfolding sizes
length-sizes a b = omega (
  arith,
  length-append (encode_u32_le a) (encode_u32_le b),
  length-encode_u32_le a,
  length-encode_u32_le b,
)

pub first_size : (a b : ℕ) → a < 2 ^ 32 → decode_u32_le (sizes a b) ≡ a
unfolding sizes
first_size a b h = decode_u32_le-encode_u32_le a (encode_u32_le b) h

pub second_size : (a b : ℕ) → b < 2 ^ 32 → decode_u32_le (drop 4 (sizes a b)) ≡ b
unfolding sizes encode_u32_le
second_size a b h = decode_u32_le-encode_self b h

-- An entry and what follows it, by the parts that a round reads.
pub entry_parts :
    (key : Bytes) (val : Option Bytes) (rest : Bytes)
    → FitsEntry (key, val)
    → entry_bytes (key, val) ++ rest
      ≡ sizes (length key) (val_size val) ++ (key ++ (val_data val ++ rest))
unfolding sizes
entry_parts key val rest h = rw (
  entry_bytes-eq key val h,
  append_assoc (encode_u32_le (length key)) _ rest,
  append_assoc (encode_u32_le (val_size val)) _ rest,
  append_assoc key (val_data val) rest,
  append_assoc (encode_u32_le (length key)) (encode_u32_le (val_size val)) _,
)

pub read_key-entry_bytes :
    (key : Bytes) (val : Option Bytes) (rest : Bytes)
    → FitsEntry (key, val)
    → read_key (entry_bytes (key, val) ++ rest) ≡ some (key, val_size val, val_data val ++ rest)
unfolding read_key
read_key-entry_bytes key val rest h = rw (
  entry_parts key val rest h,
  read_exactly-append 8 (sizes (length key) (val_size val)) _ (length-sizes _ _),
  first_size (length key) (val_size val) (omega arith),
  second_size (length key) (val_size val) (val_size-lt key val h),
  read_exactly-append (length key) key (val_data val ++ rest) refl,
)

pub actual_size-val_size :
    (key : Bytes) (val : Option Bytes)
    → FitsEntry (key, val)
    → actual_size (val_size val) ≡ length (val_data val)
actual_size-val_size key none h = refl
actual_size-val_size key (some v) h = ground arith

pub entry_step-eq :
    (key : Bytes) (val : Option Bytes)
    → FitsEntry (key, val)
    → entry_step key (val_size val) ≡ entry_size (key, val)
entry_step-eq key val h = omega (arith, actual_size-val_size key val h)

pub drop-val_data :
    (key : Bytes) (val : Option Bytes) (rest : Bytes)
    → FitsEntry (key, val)
    → drop (actual_size (val_size val)) (val_data val ++ rest) ≡ rest
drop-val_data key val rest h = rw (actual_size-val_size key val h, drop-append (val_data val) rest)

not_tombstone : (v : Bytes) → 8 + length v < 2 ^ 32 → (length v == tombstone_val_size) ≡ false
not_tombstone v h = ground arith

pub read_val-val_data :
    (key : Bytes) (val : Option Bytes) (rest : Bytes)
    → FitsEntry (key, val)
    → read_val (val_size val) (val_data val ++ rest) ≡ some (val, rest)
unfolding read_val
read_val-val_data key none rest h = refl
read_val-val_data key (some v) rest h = rw (
  mod-eq_of_lt {n = length v} {m = 2 ^ 32} (omega arith),
  not_tombstone v (omega arith),
  read_exactly-append (length v) v rest refl,
)

pub length-entry_bytes : (e : DataEntry) → FitsEntry e → length (entry_bytes e) ≡ entry_size e
length-entry_bytes (key, val) h = rw (entry_bytes-eq key val h) (
    omega (
      arith,
      length-append (encode_u32_le (length key))
          (encode_u32_le (val_size val) ++ (key ++ val_data val)),
      length-append (encode_u32_le (val_size val)) (key ++ val_data val),
      length-append key (val_data val),
      length-encode_u32_le (length key),
      length-encode_u32_le (val_size val),
    ))

pub length-data_bytes :
    (es : List DataEntry) → All FitsEntry es → length (data_bytes es) ≡ data_size es
length-data_bytes [] h = refl
length-data_bytes (e ∷ es) h = omega (
  arith,
  length-append (entry_bytes e) (data_bytes es),
  length-entry_bytes e h.0,
  length-data_bytes es h.1,
)

pub data_bytes-append :
    (es fs : List DataEntry) → data_bytes (es ++ fs) ≡ data_bytes es ++ data_bytes fs
data_bytes-append [] fs = refl
data_bytes-append (e ∷ es) fs = rw (data_bytes-append es fs, append_assoc)
