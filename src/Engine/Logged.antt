-- ===== src/Engine/Logged.antt =====
-- That the log holds what the table in memory holds, through a flush and a compaction.
use nexus_db_main.Common.{
  List, [], Bytes, true, false, Option, none, some, ◌≡◌, ◌≢◌, refl, sym, subst, All, Bool-cases,
  Option-cases, inl, inr, arith, is_empty, ltb, length,
}
use nexus_db_main.Encoding.{Status, ok, is_ok, Record}
use nexus_db_main.MemTable.{MemTable}
use nexus_db_main.MemTable as MemTable
use nexus_db_main.Wal as Wal
use nexus_db_main.Wal.Records.{Fits}
use nexus_db_main.Wal.Recovery.{log_bytes}
use nexus_db_main.SsTable.Reader.{open_file}
use nexus_db_main.Compaction.{compact}
use nexus_db_main.Engine.{
  Engine, Answers, flush_memtable, flush_built, flush_entries, install, maybe_compact, compacted,
  replace_tables, put_flushed, after_put, replay, compaction_threshold,
}

-- The table in memory is what the replay of the log makes of an empty one.
pub record Logged (log : Bytes) (m : MemTable) : Type 0 where
  pub records : List Record
  pub fit : All Fits records
  pub log_holds : log ≡ log_bytes records
  pub memory : m ≡ replay records (MemTable.empty m.flush_threshold)

-- The log and the table in memory are those of another state.
abbrev Same : Engine → Engine → Type 0
Same e e' = (e'.log ≡ e.log) × (e'.memtable ≡ e.memtable)

replace_tables-Same : (file : Bytes) (e : Engine) → Same e (replace_tables file e).1
unfolding replace_tables
replace_tables-Same file e = elim (Option-cases (open_file file)) [
  | inl n ↦ rw (n, replace_tables) (refl, refl)
  | inr (r, s) ↦ rw (s, replace_tables) (refl, refl)
]

compacted-Same : (out : Status × Option Bytes) (e : Engine) → Same e (compacted out e).1
unfolding compacted
compacted-Same (status, none) e = (refl, refl)
compacted-Same (status, some file) e = replace_tables-Same file e

pub some_injective {ℓ} : {A : Type ℓ} {a b : A} → some a ≡ some b → a ≡ b
some_injective h = cc

maybe_compact-Same :
    (answers : Answers) (e : Engine) (out : Status × Engine)
    → maybe_compact answers e ≡ some out
    → Same e out.1
unfolding maybe_compact
maybe_compact-Same answers e out h =
    elim (Bool-cases (ltb (length e.sstables) compaction_threshold)) [
      | inl c ↦
          let p : (ok, e) ≡ out = some_injective (rw (c, maybe_compact) at h) in
          subst (λ (o : Status × Engine). Same e o.1) p (refl, refl)
      | inr c ↦ elim (Option-cases (compact answers.compact_opened e.sstables)) [
        | inl n ↦ absurd (cc (rw (c, n, maybe_compact) at h))
        | inr (built, s) ↦
            let p : compacted built e ≡ out = some_injective (rw (c, s, maybe_compact) at h) in
            subst (λ (o : Status × Engine). Same e o.1) p (compacted-Same built e)
      ]
    ]

pub is_ok→eq : (s : Status) → is_ok s ≡ true → s ≡ ok
is_ok→eq s h = ground arith

pub not_ok : (s : Status) → is_ok s ≡ false → s ≢ ok
not_ok s h = λ p. ground arith

install-Logged :
    (answers : Answers) (file : Bytes) (e : Engine)
    → answers.truncated ≡ true
    → Logged e.log e.memtable
    → Logged (install answers file e).1.log (install answers file e).1.memtable
unfolding install Wal.clear MemTable.clear MemTable.empty replay
install-Logged answers file e t l = elim (Option-cases (open_file file)) [
  | inl n ↦ rw (n, install) l
  | inr (r, s) ↦
      rw (s, install, t) (record { records = []; fit = tt; log_holds = refl; memory = refl })
]

flush_built-Logged :
    (answers : Answers) (out : Status × Option Bytes) (e : Engine)
    → answers.truncated ≡ true
    → Logged e.log e.memtable
    → Logged (flush_built answers out e).1.log (flush_built answers out e).1.memtable
unfolding flush_built
flush_built-Logged answers (status, none) e t l = l
flush_built-Logged answers (status, some file) e t l = install-Logged answers file e t l

pub flush_memtable-Logged :
    (answers : Answers) (e : Engine)
    → answers.truncated ≡ true
    → Logged e.log e.memtable
    → Logged (flush_memtable answers e).1.log (flush_memtable answers e).1.memtable
unfolding flush_memtable flush_entries
flush_memtable-Logged answers e t l =
    elim (Bool-cases (is_empty (MemTable.dump_sorted e.memtable))) [
      | inl c ↦ rw c l
      | inr c ↦ rw c (flush_built-Logged answers _ e t l)
    ]

Same-Logged : (e e' : Engine) → Same e e' → Logged e.log e.memtable → Logged e'.log e'.memtable
Same-Logged e e' (a, b) l =
    subst (λ (g : Bytes). Logged g e'.memtable) (sym a)
      (subst (λ (m : MemTable). Logged e.log m) (sym b) l)

put_flushed-Logged :
    (answers : Answers) (out : Status × Engine) (e' : Engine)
    → Logged out.1.log out.1.memtable
    → put_flushed answers out ≡ some (ok, e')
    → Logged e'.log e'.memtable
unfolding put_flushed
put_flushed-Logged answers (status, e₁) e' l h = elim (Bool-cases (is_ok status)) [
  | inr c ↦
      let p : (ok, e₁) ≡ (ok, e') = some_injective (rw (c, put_flushed) at h) in
      subst (λ (o : Status × Engine). Logged o.1.log o.1.memtable) p l
  | inl c ↦ elim (Option-cases (maybe_compact answers e₁)) [
    | inl n ↦ absurd (cc (rw (c, n, put_flushed) at h))
    | inr (done, s) ↦
        let p : (ok, done.1) ≡ (ok, e') = some_injective (rw (c, s, put_flushed) at h) in
        subst (λ (o : Status × Engine). Logged o.1.log o.1.memtable) p
          (Same-Logged e₁ done.1 (maybe_compact-Same answers e₁ done s) l)
  ]
]

pub after_put-Logged :
    (answers : Answers) (e e' : Engine)
    → answers.truncated ≡ true
    → Logged e.log e.memtable
    → after_put answers e ≡ some (ok, e')
    → Logged e'.log e'.memtable
unfolding after_put
after_put-Logged answers e e' t l h = elim (Bool-cases (MemTable.should_flush e.memtable)) [
  | inr c ↦
      let p : (ok, e) ≡ (ok, e') = some_injective (rw (c, after_put) at h) in
      subst (λ (o : Status × Engine). Logged o.1.log o.1.memtable) p l
  | inl c ↦
      put_flushed-Logged answers (flush_memtable answers e) e' (flush_memtable-Logged answers e t l)
        (rw (c, after_put) at h)
]
