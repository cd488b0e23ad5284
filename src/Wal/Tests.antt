-- ===== src/Wal/Tests.antt =====
-- Runs of the log at small inputs.
use nexus_db_main.Common.{
  ℕ, [], ◌∷◌, ◌++◌, Bytes, ◌≡◌, ◌≢◌, refl, arith, true, some, none, Option, codes, take, drop,
  replicate, length, length-replicate,
}
use nexus_db_main.Common.Reads.{read_exactly}
use nexus_db_main.Encoding.{
  Status, Record, put, delete, encode_u32_le, decode_u32_le, byte_of_op, op_of_byte,
}
use nexus_db_main.Encoding.Crc.{compute}
use nexus_db_main.Wal.{
  Io, append, next_record, check_record, recover, recover_loop, record_payload, write_record,
  write_all,
}
use nexus_db_main.Wal.Records.{Fits, record_bytes}
use nexus_db_main.Wal.Recovery.{log_bytes, recover_total, recover_torn, recover_oversized}
use nexus_db_main.Wal.Append.{Durable, append-recover}

abbrev set_a : Record
set_a = record { type = put; key = codes "a"; value = codes "1" }

abbrev del_a : Record
del_a = record { type = delete; key = codes "a"; value = [] }

set_a-Fits : Fits set_a
set_a-Fits = record { canonical = tt; key_fits = omega arith; value_fits = omega arith }

del_a-Fits : Fits del_a
del_a-Fits = record { canonical = tt; key_fits = omega arith; value_fits = omega arith }

-- The second of three writes is cut, and the third fails.
abbrev torn_io : Io
torn_io = record { writes = 4 ∷ 3 ∷ 0 ∷ []; synced = true }

abbrev good_io : Io
good_io = record { writes = 4 ∷ 100 ∷ []; synced = true }

append-recover_example :
    (out : Status × Bytes) × (append torn_io delete (codes "a") [] (log_bytes (set_a ∷ []))
      ≡ some out)
    × Durable (set_a ∷ []) del_a out
append-recover_example = append-recover torn_io (set_a ∷ []) del_a (set_a-Fits, tt) del_a-Fits

recover_torn_example :
    recover (log_bytes (set_a ∷ []) ++ take 9 (record_bytes del_a)) ≡ some (set_a ∷ [])
unfolding record_bytes encode_u32_le byte_of_op
recover_torn_example =
    recover_torn (set_a ∷ []) del_a (take 9 (record_bytes del_a)) (drop 9 (record_bytes del_a))
      (set_a-Fits, tt) del_a-Fits refl (λ e. cc)

appended_and_recovered : recover (log_bytes (set_a ∷ del_a ∷ [])) ≡ some (set_a ∷ del_a ∷ [])
unfolding recover recover_loop next_record read_exactly record_bytes encode_u32_le decode_u32_le
    byte_of_op op_of_byte compute check_record
appended_and_recovered = refl

-- An append that is cut after its checksum, then one that succeeds: `recover` loses the second.
after_cut : Option (Status × Bytes)
unfolding append record_payload write_record write_all
after_cut =
    elim (append (record { writes = 4 ∷ 0 ∷ []; synced = true }) put (codes "a") (codes "1") []) [
      | none ↦ none
      | some (_, file) ↦ append good_io put (codes "b") (codes "2") file
    ]

after_cut_recovers : elim after_cut [ none ↦ none | some (_, file) ↦ recover file ] ≡ some []
unfolding after_cut recover recover_loop next_record read_exactly encode_u32_le decode_u32_le
    byte_of_op op_of_byte compute check_record
after_cut_recovers = refl

recover_total_example : recover (1 ∷ 2 ∷ 3 ∷ []) ≢ none
recover_total_example = recover_total (1 ∷ 2 ∷ 3 ∷ [])

filled : ℕ → Bytes
filled n = replicate n 65

length-filled : (n : ℕ) → length (filled n) ≡ n
unfolding filled
length-filled n = length-replicate {A = ℕ} n 65

-- A key of one byte more than 10 MiB.
abbrev long_key : Record
long_key = record { type = put; key = filled 10485761; value = codes "1" }

recover_oversized_example :
    recover (log_bytes (set_a ∷ []) ++ (record_bytes long_key ++ log_bytes (del_a ∷ [])))
    ≡ some (set_a ∷ [])
recover_oversized_example =
    recover_oversized (set_a ∷ []) long_key (del_a ∷ []) (set_a-Fits, tt)
      (omega (arith, length-filled 10485761)) (omega arith) (ground (arith, length-filled 10485761))
