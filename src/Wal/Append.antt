-- ===== src/Wal/Append.antt =====
-- `append` against `recover`: what a crash in the middle of an append costs.
use nexus_db_main.Common.{
  List-cases, ℕ, ◌+◌, ◌^◌, List, [], ◌∷◌, ◌++◌, Bool, true, false, Bytes, ◌≡◌, refl, ap, ◌∙◌, arith,
  append-nil, append_assoc, length, some, All, ◌⊎◌, inl, inr, take_all, ==_refl, All-append,
}
use native.Mathlib.Nat.{mod-eq_of_lt}
use nexus_db_main.Encoding.{Status, ok, io_error, Record, encode_u32_le}
use nexus_db_main.Encoding.Crc.{compute}
use nexus_db_main.Wal.{Io, record_payload, write_all, write_status, write_record, append, recover}
use nexus_db_main.Wal.Writes.{WritesFront, write_all_front}
use nexus_db_main.Wal.Records.{Fits, payload_of, record_bytes}
use nexus_db_main.Wal.Recovery.{recover_whole, log_bytes, recover_torn}

-- A front of the bytes stands at the end of the file, and all of them if the status is `ok`.
pub record AppendsFront (bytes file : Bytes) (r : Status × Bytes) : Type 0 where
  pub front : Bytes
  pub left : Bytes
  pub whole : front ++ left ≡ bytes
  pub written : r.1 ≡ file ++ front
  pub all : r.0 ≡ ok → left ≡ []
  pub status : (r.0 ≡ ok) ⊎ (r.0 ≡ io_error)

-- Both writes were made, the first of them in full.
both_written :
    (crc payload file file₁ file₂ : Bytes) (b : Bool) (s : Status) (left left' : List ℕ)
    → WritesFront crc file (true, file₁, left)
    → WritesFront payload file₁ (b, file₂, left')
    → (s ≡ ok → b ≡ true)
    → (s ≡ ok) ⊎ (s ≡ io_error)
    → AppendsFront (crc ++ payload) file (s, file₂)
both_written crc payload file file₁ file₂ b s left left' v w h status = record {
  front = crc ++ w.front;
  left = w.left;
  whole = rw (append_assoc, w.whole);
  written = w.written ∙ rw (v.written, append_assoc, crc_written);
  all = λ e. w.all (h e);
  status = status;
}
  where
    crc_written : v.front ≡ crc
    crc_written = rw (v.all refl, append-nil) at v.whole

write_status_front :
    (crc payload file file₁ file₂ : Bytes) (a b c : Bool) (left left' : List ℕ)
    → WritesFront crc file (a, file₁, left)
    → WritesFront payload file₁ (b, file₂, left')
    → AppendsFront (crc ++ payload) file (write_status a b c file₁ file₂)
unfolding write_status
write_status_front crc payload file file₁ file₂ false b c left left' v w = record {
  front = v.front;
  left = v.left ++ payload;
  whole = rw (← append_assoc v.front v.left payload, v.whole);
  written = v.written;
  all = λ e. cc;
  status = inr refl;
}
write_status_front crc payload file file₁ file₂ true false c left left' v w =
    both_written crc payload file file₁ file₂ false io_error left left' v w (λ e. cc) (inr refl)
write_status_front crc payload file file₁ file₂ true true false left left' v w =
    both_written crc payload file file₁ file₂ true io_error left left' v w (λ e. cc) (inr refl)
write_status_front crc payload file file₁ file₂ true true true left left' v w =
    both_written crc payload file file₁ file₂ true ok left left' v w (λ _. refl) (inl refl)

write_record_front :
    (io : Io) (crc payload file : Bytes)
    → AppendsFront (crc ++ payload) file (write_record io crc payload file)
unfolding write_record
write_record_front io crc payload file =
    let (a, file₁, left) = write_all io.writes crc file in
    let (b, file₂, left') = write_all left payload file₁ in
    write_status_front crc payload file file₁ file₂ a b io.synced left left'
      (write_all_front io.writes crc file) (write_all_front left payload file₁)

record_payload-eq :
    (r : Record) → Fits r → record_payload r.type r.key r.value ≡ some (payload_of r)
unfolding record_payload
record_payload-eq r h = rw (
  mod-eq_of_lt {n = length r.key} {m = 2 ^ 32} (omega (arith, h.key_fits)),
  mod-eq_of_lt {n = length r.value} {m = 2 ^ 32} (omega (arith, h.value_fits)),
  mod-eq_of_lt {n = 1 + 4 + 4 + length r.key + length r.value} {m = 2 ^ 32}
      (omega (arith, h.key_fits, h.value_fits)),
  ==_refl (1 + 4 + 4 + length r.key + length r.value),
  take_all r.key,
  take_all r.value,
)

append-eq :
    (io : Io) (r : Record) (file : Bytes)
    → Fits r
    → append io r.type r.key r.value file
      ≡ some (write_record io (encode_u32_le (compute (payload_of r))) (payload_of r) file)
unfolding append
append-eq io r file h = rw (record_payload-eq r h)

pub log_bytes-append : (rs ss : List Record) → log_bytes (rs ++ ss) ≡ log_bytes rs ++ log_bytes ss
log_bytes-append [] ss = refl
log_bytes-append (r ∷ rs) ss = rw (log_bytes-append rs ss, append_assoc)

-- What `append` and a later `recover` make of a log with the records `rs` and a new record.
pub record Durable (rs : List Record) (r : Record) (out : Status × Bytes) : Type 0 where
  pub acknowledged : ((out.0 ≡ ok) × (out.1 ≡ log_bytes (rs ++ r ∷ []))) ⊎ (out.0 ≡ io_error)
  pub recovered :
      (recover out.1 ≡ some (rs ++ r ∷ [])) ⊎ ((out.0 ≡ io_error) × (recover out.1 ≡ some rs))

whole_written :
    (rs : List Record) (r : Record) (out : Status × Bytes)
    (w : AppendsFront (record_bytes r) (log_bytes rs) out)
    → w.left ≡ []
    → out.1 ≡ log_bytes (rs ++ r ∷ [])
whole_written rs r out w e =
    w.written
    ∙ rw (log_bytes-append rs (r ∷ []), append-nil (record_bytes r))
        (ap (λ (t : Bytes). log_bytes rs ++ t) (rw (e, append-nil) at w.whole))

AppendsFront→Durable :
    (rs : List Record) (r : Record) (out : Status × Bytes)
    → All Fits rs
    → Fits r
    → AppendsFront (record_bytes r) (log_bytes rs) out
    → Durable rs r out
AppendsFront→Durable rs r out hs h w = record {
  acknowledged = elim w.status [
    | inl e ↦ inl (e, whole_written rs r out w (w.all e))
    | inr e ↦ inr e
  ];
  recovered = elim (List-cases w.left) [
    | inl e ↦ inl (
        rw (whole_written rs r out w e)
          (recover_whole (rs ++ r ∷ []) (All-append Fits rs (r ∷ []) hs (h, tt))))
    | inr ne ↦ inr (
      elim w.status [ inl e ↦ absurd (ne (w.all e)) | inr e ↦ e ],
      rw w.written (recover_torn rs r w.front w.left hs h w.whole ne),
    )
  ];
}

-- On a log of records that fit, however the operating system cuts or fails the writes of an
-- `append`, it returns `OK` or `IO_ERROR`. After `OK` the log holds the new record behind the old
-- ones. A later `recover` returns all the old records and the new one, or, only after `IO_ERROR`,
-- the old ones alone.
pub append-recover :
    (io : Io) (rs : List Record) (r : Record)
    → All Fits rs
    → Fits r
    → (out : Status × Bytes) × (append io r.type r.key r.value (log_bytes rs) ≡ some out)
      × Durable rs r out
append-recover io rs r hs h = (
  write_record io (encode_u32_le (compute (payload_of r))) (payload_of r) (log_bytes rs),
  append-eq io r (log_bytes rs) h,
  AppendsFront→Durable rs r _ hs h (unfold record_bytes in write_record_front io _ _ _),
)

pub Durable-ok :
    (rs : List Record) (r : Record) (out : Status × Bytes)
    → Durable rs r out
    → out.0 ≡ ok
    → out.1 ≡ log_bytes (rs ++ r ∷ [])
Durable-ok rs r out d h = elim d.acknowledged [ inl p ↦ p.1 | inr e ↦ absurd (cc (h, e)) ]
