-- ===== src/Wal/Recovery.antt =====
-- `recover` over a whole log.
use nexus_db_main.Common.{
  append-nil, ◌^◌, drop, ℕ, zero, suc, ◌+◌, ◌≤◌, ◌<◌, List, [], ◌∷◌, ◌++◌, false, ◌&&◌, Bytes, ◌≡◌,
  ◌≢◌, refl, arith, append_assoc, length, length-append, none, some, All, ◌>>=◌, Option-cases, inl,
  inr, leb,
}
use nexus_db_main.Common.Reads.{read_exactly, read_exactly_parts}
use nexus_db_main.Encoding.{Record, decode_u32_le}
use nexus_db_main.Wal.{
  max_key_size, max_val_size, next_record, after_header, check_record, recover_loop, recover,
  header_size,
}
use nexus_db_main.Wal.Records.{
  Fits, record_bytes, next_record-record_bytes, next_record_torn, next_record_oversized,
}

-- A log that holds the records one behind the other.
abbrev pub log_bytes : List Record → Bytes
log_bytes [] = []
log_bytes (r ∷ rs) = record_bytes r ++ log_bytes rs

recover_loop_step :
    (fuel : ℕ) (bytes : Bytes) {r : Record} {rest : Bytes}
    → next_record bytes ≡ some (r, rest)
    → recover_loop (suc fuel) bytes ≡ (recover_loop fuel rest >>= λ recs. some (r ∷ recs))
unfolding recover_loop
recover_loop_step fuel bytes e = rw (e, recover_loop)

recover_loop_stop :
    (fuel : ℕ) (bytes : Bytes) → next_record bytes ≡ none → recover_loop (suc fuel) bytes ≡ some []
unfolding recover_loop
recover_loop_stop fuel bytes e = rw (e, recover_loop)

recover_loop-log_bytes :
    (fuel : ℕ) (rs : List Record) (tail : Bytes)
    → length rs < fuel
    → All Fits rs
    → next_record tail ≡ none
    → recover_loop fuel (log_bytes rs ++ tail) ≡ some rs
recover_loop-log_bytes zero rs tail f h e = absurd (omega arith)
recover_loop-log_bytes (suc fuel) [] tail f h e = recover_loop_stop fuel tail e
recover_loop-log_bytes (suc fuel) (r ∷ rs) tail f h e = rw (
  append_assoc (record_bytes r) (log_bytes rs) tail,
  recover_loop_step fuel _ (next_record-record_bytes r (log_bytes rs ++ tail) h.0),
  recover_loop-log_bytes fuel rs tail (omega arith) h.1 e,
)

record_bytes_pos : (r : Record) → 0 < length (record_bytes r)
unfolding record_bytes
record_bytes_pos r = omega (arith, length-append {0})

length-log_bytes : (rs : List Record) → length rs ≤ length (log_bytes rs)
length-log_bytes [] = omega arith
length-log_bytes (r ∷ rs) =
    omega (
      arith,
      length-log_bytes rs,
      record_bytes_pos r,
      length-append (record_bytes r) (log_bytes rs),
    )

-- Whatever stands behind the records, if it is no record, `recover` returns the records.
pub recover-log_bytes :
    (rs : List Record) (tail : Bytes)
    → All Fits rs
    → next_record tail ≡ none
    → recover (log_bytes rs ++ tail) ≡ some rs
unfolding recover
recover-log_bytes rs tail h e =
    recover_loop-log_bytes _ rs tail
      (omega (arith, length-append (log_bytes rs) tail, length-log_bytes rs)) h e

after_header_rest :
    (header body : Bytes) {r : Record} {rest : Bytes}
    → after_header header body ≡ some (r, rest)
    → length rest ≤ length body
unfolding after_header check_record
after_header_rest header body h =
    elim (Option-cases
      (read_exactly (decode_u32_le (drop 5 header) + decode_u32_le (drop 9 header)) body)) [
        | inl e ↦ ground arith
        | inr ((kv_data, rest'), e) ↦ ground (arith, read_exactly_parts _ body e)
      ]

-- A round leaves fewer bytes than it found.
next_record_shrinks :
    (bytes : Bytes) {r : Record} {rest : Bytes}
    → next_record bytes ≡ some (r, rest)
    → length rest < length bytes
unfolding next_record
next_record_shrinks bytes h = elim (Option-cases (read_exactly header_size bytes)) [
  | inl e ↦ absurd (cc (rw (e, next_record) at h))
  | inr ((header, body), e) ↦
      let (_, l) = read_exactly_parts header_size bytes e in
      omega (arith, l, after_header_rest header body (rw (e, next_record) at h))
]

recover_loop_total :
    (fuel : ℕ) (bytes : Bytes) → length bytes < fuel → recover_loop fuel bytes ≢ none
recover_loop_total zero bytes h = absurd (omega arith)
recover_loop_total (suc fuel) bytes h = elim (Option-cases (next_record bytes)) [
  | inl e ↦ rw (recover_loop_stop fuel bytes e) (λ p. cc)
  | inr ((r, rest), e) ↦ rw (recover_loop_step fuel bytes e) (λ p.
      recover_loop_total fuel rest (omega (arith, next_record_shrinks bytes e)) (ground arith))
]

-- `recover` ends on every file, whatever bytes it holds.
pub recover_total : (file : Bytes) → recover file ≢ none
unfolding recover
recover_total file = recover_loop_total _ file (omega arith)

pub next_record-nil : next_record [] ≡ none
unfolding next_record read_exactly
next_record-nil = refl

-- A log whose last record was cut short: `recover` returns all the records before it.
pub recover_torn :
    (rs : List Record) (r : Record) (p q : Bytes)
    → All Fits rs
    → Fits r
    → p ++ q ≡ record_bytes r
    → q ≢ []
    → recover (log_bytes rs ++ p) ≡ some rs
recover_torn rs r p q h hr e ne = recover-log_bytes rs p h (next_record_torn r p q hr e ne)

-- A record with a key over 10 MiB or a value over 100 MiB ends the recovery: neither it nor any
-- record behind it comes back.
pub recover_oversized :
    (rs : List Record) (big : Record) (more : List Record)
    → All Fits rs
    → length big.key < 2 ^ 32
    → length big.value < 2 ^ 32
    → leb (length big.key) max_key_size && leb (length big.value) max_val_size ≡ false
    → recover (log_bytes rs ++ (record_bytes big ++ log_bytes more)) ≡ some rs
recover_oversized rs big more h hk hv over =
    recover-log_bytes rs _ h (next_record_oversized big (log_bytes more) hk hv over)

pub recover_whole : (rs : List Record) → All Fits rs → recover (log_bytes rs) ≡ some rs
recover_whole rs h = rw (append-nil (log_bytes rs)) at (recover-log_bytes rs [] h next_record-nil)
