-- ===== src/Wal.antt =====
-- `class WAL`: include/mosaicdb/wal.h and src/storage/wal.cpp. The log file is its bytes. Each
-- method seeks before it reads or writes, so the file offset carries nothing from call to call.
-- Each method holds the lock throughout; the lock itself is not modelled.
pub mod Writes
pub mod Records
pub mod Recovery
pub mod Append
mod Tests
use nexus_db_main.Common.{
  ℕ, zero, suc, ◌+◌, ◌*◌, min, List, [], ◌∷◌, ◌++◌, Bool, true, false, not, ◌&&◌, Bytes, Option,
  none, some, leb, length, take, drop, get_or, u32, ◌==◌, if◌then◌else◌, ◌>>=◌, is_empty,
}
use nexus_db_main.Common.Reads.{read_exactly}
use nexus_db_main.Encoding.{
  Status, ok, io_error, OpType, Record, byte_of_op, op_of_byte, encode_u32_le, decode_u32_le,
}
use nexus_db_main.Encoding.Crc.{compute}

-- How the operating system answers the calls of one `append`: what each call of `write` returns,
-- where 0 stands for an error and for a log that is killed there, and whether `fsync` succeeds.
-- A `write` that would return more than was asked for writes what was asked for.
pub record Io : Type 0 where
  pub writes : List ℕ
  pub synced : Bool

-- `none` is a copy past the end of the payload: its size is computed in 32 bits.
unfoldable pub record_payload : OpType → Bytes → Bytes → Option Bytes
record_payload type key value =
    let key_size = u32 (length key) in
    let val_size = u32 (length value) in
    if u32 (1 + 4 + 4 + key_size + val_size) == 1 + 4 + 4 + key_size + val_size
    then some (
        byte_of_op type ∷ encode_u32_le key_size
        ++ (encode_u32_le val_size ++ (take key_size key ++ take val_size value)))
    else none

-- The loop of `write_all` at the end of the file: whether all was written, the file, and the
-- answers that are left.
unfoldable pub write_all : List ℕ → Bytes → Bytes → Bool × Bytes × List ℕ
write_all [] bytes file = (is_empty bytes, file, [])
write_all (zero ∷ ns) bytes file =
    if is_empty bytes then (true, file, zero ∷ ns) else (false, file, ns)
write_all (suc n ∷ ns) bytes file =
    let more = write_all ns (drop (suc n) bytes) (file ++ take (suc n) bytes) in
    if is_empty bytes then (true, file, suc n ∷ ns) else more

-- The returns of `append` behind its writes, each with the file at that point.
unfoldable pub write_status : Bool → Bool → Bool → Bytes → Bytes → Status × Bytes
write_status crc_done payload_done synced file₁ file₂ =
    if not crc_done
    then (io_error, file₁)
    else if not payload_done
    then (io_error, file₂)
    else if synced
    then (ok, file₂)
    else (io_error, file₂)

unfoldable pub write_record : Io → Bytes → Bytes → Bytes → Status × Bytes
unfolding write_status
write_record io crc_buf payload file =
    let (crc_done, file₁, left) = write_all io.writes crc_buf file in
    let (payload_done, file₂, _) = write_all left payload file₁ in
    write_status crc_done payload_done io.synced file₁ file₂

unfoldable pub append : Io → OpType → Bytes → Bytes → Bytes → Option (Status × Bytes)
append io type key value file = do
  payload ← record_payload type key value
  some (write_record io (encode_u32_le (compute payload)) payload file)

abbrev pub header_size : ℕ
header_size = 4 + 1 + 4 + 4

abbrev pub max_key_size : ℕ
max_key_size = 10 * 1024 * 1024

abbrev pub max_val_size : ℕ
max_val_size = 100 * 1024 * 1024

-- The body of a round of `recover` behind its two reads; `none` is a `break`.
unfoldable pub check_record : ℕ → ℕ → ℕ → ℕ → Bytes → Bytes → Option (Record × Bytes)
check_record stored_crc type_byte key_size val_size kv_data rest =
    let payload = type_byte ∷ encode_u32_le key_size ++ (encode_u32_le val_size ++ kv_data) in
    if compute payload == stored_crc
    then some (
      record {
        type = op_of_byte type_byte;
        key = take key_size kv_data;
        value = take val_size (drop key_size kv_data);
      },
      rest,
    )
    else none

-- A round behind its first read.
unfoldable pub after_header : Bytes → Bytes → Option (Record × Bytes)
after_header header body = do
  let key_size = decode_u32_le (drop 5 header)
  let val_size = decode_u32_le (drop 9 header)
  if leb key_size max_key_size && leb val_size max_val_size
      then (do
        (kv_data, rest) ← read_exactly (key_size + val_size) body
        check_record (decode_u32_le header) (get_or header 4 0) key_size val_size kv_data rest)
      else none

-- One round of the loop of `recover`: the record read and the bytes left; `none` is a `break`.
unfoldable pub next_record : Bytes → Option (Record × Bytes)
unfolding after_header
next_record bytes = do (header, body) ← read_exactly header_size bytes; after_header header body

-- `none` means that the fuel ran out.
unfoldable pub recover_loop : ℕ → Bytes → Option (List Record)
recover_loop zero bytes = none
recover_loop (suc fuel) bytes = elim (next_record bytes) [
  | none ↦ some []
  | some (rec, rest) ↦ recover_loop fuel rest >>= λ recs. some (rec ∷ recs)
]

-- Each round takes a header at least, so the rounds are fewer than the bytes.
unfoldable pub recover : Bytes → Option (List Record)
recover file = recover_loop (suc (length file)) file

-- The answer of `ftruncate` is the argument.
unfoldable pub clear : Bool → Bytes → Status × Bytes
clear truncated file = if truncated then (ok, []) else (io_error, file)

unfoldable pub sync : Bool → Status
sync synced = if synced then ok else io_error
