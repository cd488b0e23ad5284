-- ===== src/Wal/Records.antt =====
-- One record of the log: `next_record` reads back what `append` writes.
use nexus_db_main.Common.{
  take_all, length-ne-nil, ℕ, ◌+◌, ◌^◌, ◌≤◌, ◌<◌, [], ◌∷◌, ◌++◌, false, ◌&&◌, Bytes, ◌≡◌, ◌≢◌, refl,
  ap, ◌∙◌, arith, drop, append_assoc, length, length-append, get_or, none, some, leb, ==_refl,
  le→leb, if◌then◌else◌, take-append, drop-append, ◌>>=◌,
}
use native.Mathlib.Decide.{dec_le}
use nexus_db_main.Common.Reads.{read_exactly, read_exactly-append, read_exactly_short, split_front}
use nexus_db_main.Encoding.{Record, byte_of_op, encode_u32_le}
use nexus_db_main.Encoding.RoundTrip.{
  IsCanonical, op_of_byte-byte_of_op, decode_u32_le-encode_u32_le,
}
use nexus_db_main.Encoding.Crc.{compute, compute-lt}
use nexus_db_main.Wal.{header_size, max_key_size, max_val_size, check_record, next_record}

-- The records that `recover` is willing to read back.
pub record Fits (r : Record) : Type 0 where
  pub canonical : IsCanonical r.type
  pub key_fits : length r.key ≤ max_key_size
  pub value_fits : length r.value ≤ max_val_size

abbrev header : ℕ → ℕ → ℕ → ℕ → Bytes
header crc type_byte key_size val_size =
    encode_u32_le crc ++ (type_byte ∷ encode_u32_le key_size ++ encode_u32_le val_size)

abbrev pub payload_of : Record → Bytes
payload_of r =
    byte_of_op r.type ∷ encode_u32_le (length r.key)
    ++ (encode_u32_le (length r.value) ++ (r.key ++ r.value))

-- The bytes of a record in the log: the checksum, then what it covers.
unfoldable pub record_bytes : Record → Bytes
record_bytes r = encode_u32_le (compute (payload_of r)) ++ payload_of r

abbrev record_header : Record → Bytes
record_header r =
    header (compute (payload_of r)) (byte_of_op r.type) (length r.key) (length r.value)

record_bytes-header : (r : Record) → record_bytes r ≡ record_header r ++ (r.key ++ r.value)
unfolding record_bytes encode_u32_le
record_bytes-header r = refl

length-header : (c t k v : ℕ) → length (header c t k v) ≡ header_size
unfolding encode_u32_le
length-header c t k v = refl

header-type : (c t k v : ℕ) → get_or (header c t k v) 4 0 ≡ t
unfolding encode_u32_le
header-type c t k v = refl

header-key_size : (c t k v : ℕ) → drop 5 (header c t k v) ≡ encode_u32_le k ++ encode_u32_le v
unfolding encode_u32_le
header-key_size c t k v = refl

header-val_size : (c t k v : ℕ) → drop 9 (header c t k v) ≡ encode_u32_le v ++ []
unfolding encode_u32_le
header-val_size c t k v = refl

-- A round of `recover` behind a header that was read whole.
next_record-header :
    (c t k v : ℕ) (body : Bytes)
    → c < 2 ^ 32
    → k < 2 ^ 32
    → v < 2 ^ 32
    → next_record (header c t k v ++ body) ≡ (
        if leb k max_key_size && leb v max_val_size
        then (do (kv_data, rest) ← read_exactly (k + v) body; check_record c t k v kv_data rest)
        else none)
unfolding next_record
next_record-header c t k v body hc hk hv = rw (
  read_exactly-append header_size (header c t k v) body (length-header c t k v),
  header-key_size c t k v,
  header-val_size c t k v,
  header-type c t k v,
  decode_u32_le-encode_u32_le c (t ∷ encode_u32_le k ++ encode_u32_le v) hc,
  decode_u32_le-encode_u32_le k (encode_u32_le v) hk,
  decode_u32_le-encode_u32_le v [] hv,
)

-- The round on a record that fits, up to its second read.
round-header :
    (r : Record) (body : Bytes)
    → Fits r
    → next_record (record_header r ++ body) ≡ (do
      (kv_data, rest) ← read_exactly (length r.key + length r.value) body
      check_record
          (compute (payload_of r))
          (byte_of_op r.type)
          (length r.key)
          (length r.value)
          kv_data
          rest)
round-header r body h = rw (
  next_record-header (compute (payload_of r)) (byte_of_op r.type) (length r.key) (length r.value)
      body (compute-lt _) (omega (arith, h.key_fits)) (omega (arith, h.value_fits)),
  le→leb _ _ h.key_fits,
  le→leb _ _ h.value_fits,
)

-- The checksum fits, and the key and the value are cut where they were joined.
check_record-payload :
    (r : Record) (rest : Bytes)
    → IsCanonical r.type
    → check_record
        (compute (payload_of r))
        (byte_of_op r.type)
        (length r.key)
        (length r.value)
        (r.key ++ r.value)
        rest
      ≡ some (r, rest)
unfolding check_record
check_record-payload r rest c = rw (
  ==_refl (compute (payload_of r)),
  op_of_byte-byte_of_op r.type c,
  take-append r.key r.value,
  drop-append r.key r.value,
  take_all r.value,
)

-- `next_record` reads back a record that fits, and leaves what follows it.
pub next_record-record_bytes :
    (r : Record) (rest : Bytes) → Fits r → next_record (record_bytes r ++ rest) ≡ some (r, rest)
next_record-record_bytes r rest h =
    rw
      (
        record_bytes-header r,
        append_assoc,
        round-header r ((r.key ++ r.value) ++ rest) h,
        read_exactly-append (length r.key + length r.value) (r.key ++ r.value) rest
            (length-append r.key r.value),
      )
      (check_record-payload r rest h.canonical)

-- A front that holds the whole header ends inside the key and the value.
torn_body :
    (r : Record) (p q : Bytes)
    → Fits r
    → p ++ q ≡ r.key ++ r.value
    → q ≢ []
    → next_record (record_header r ++ p) ≡ none
torn_body r p q h e ne = rw (
  round-header r p h,
  read_exactly_short (length r.key + length r.value) p (
      omega
        (arith, ap length e, length-append p q, length-append r.key r.value, length-ne-nil q ne)),
)

-- A proper front of a record ends the loop.
pub next_record_torn :
    (r : Record) (p q : Bytes) → Fits r → p ++ q ≡ record_bytes r → q ≢ [] → next_record p ≡ none
next_record_torn r p q h e ne = elim (dec_le header_size (length p)) [
  | yes l ↦
      let (p', e₁, e₂) =
        split_front (record_header r) (r.key ++ r.value) p q (e ∙ record_bytes-header r)
          (rw length-header l) in
      rw e₁ (torn_body r p' q h e₂ ne)
  | no l ↦ unfold next_record in rw (read_exactly_short header_size p (omega arith))
]

-- A record with a key or a value past the limits ends the loop, whatever follows it.
pub next_record_oversized :
    (r : Record) (rest : Bytes)
    → length r.key < 2 ^ 32
    → length r.value < 2 ^ 32
    → leb (length r.key) max_key_size && leb (length r.value) max_val_size ≡ false
    → next_record (record_bytes r ++ rest) ≡ none
next_record_oversized r rest hk hv h = rw (
  record_bytes-header r,
  append_assoc,
  next_record-header (compute (payload_of r)) (byte_of_op r.type) (length r.key) (length r.value)
      ((r.key ++ r.value) ++ rest) (compute-lt _) hk hv,
  h,
)
