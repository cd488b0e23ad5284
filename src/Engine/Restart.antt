-- ===== src/Engine/Restart.antt =====
-- The log holds what the table in memory holds, so that a restart brings it back.
use nexus_db_main.Common.{
  List, [], ◌∷◌, ◌++◌, Bytes, true, false, Option, some, ◌≡◌, refl, sym, ap, subst, ◌∙◌, All-append,
  if◌then◌else◌, Bool-cases, inl, inr, is_empty,
}
use nexus_db_main.Encoding.{Status, ok, is_ok, OpType, Record}
use nexus_db_main.MemTable.{MemTable}
use nexus_db_main.MemTable as MemTable
use nexus_db_main.Wal as Wal
use nexus_db_main.Wal.Records.{Fits}
use nexus_db_main.Wal.Recovery.{recover_whole}
use nexus_db_main.Wal.Append.{Durable, Durable-ok, append-recover}
use nexus_db_main.Engine.{
  Engine, Answers, flush_memtable, put, after_remove, remove, replay, recover,
}
use nexus_db_main.Engine.Logged.{
  Logged, some_injective, is_ok→eq, not_ok, flush_memtable-Logged, after_put-Logged,
}

replay-append : (rs ss : List Record) (m : MemTable) → replay (rs ++ ss) m ≡ replay ss (replay rs m)
unfolding replay
replay-append [] ss m = refl
replay-append (r ∷ rs) ss m = replay-append rs ss _

-- The log and the table in memory with a new value.
written-Logged :
    (key value log : Bytes) (m : MemTable) (out : Status × Bytes) (l : Logged log m)
    → Durable l.records (record { type = OpType.put; key = key; value = value }) out
    → Fits (record { type = OpType.put; key = key; value = value })
    → is_ok out.0 ≡ true
    → Logged out.1 (MemTable.put key value m)
unfolding replay MemTable.put
written-Logged key value log m out l d f s = record {
  records = l.records ++ (record { type = OpType.put; key = key; value = value }) ∷ [];
  fit = All-append Fits l.records _ l.fit (f, tt);
  log_holds = Durable-ok l.records _ out d (is_ok→eq out.0 s);
  memory =
      ap (MemTable.put key value) l.memory
      ∙ sym (replay-append l.records _ (MemTable.empty m.flush_threshold));
}

-- After a `put` that returns OK the log again holds what the table in memory holds, if it did
-- before, however the writes to the log are cut, whichever `fopen` fails, and whether the table is
-- flushed or not. The key and the value are within what `recover` accepts, and the log can be
-- truncated.
pub put-Logged :
    (answers : Answers) (key value : Bytes) (e e' : Engine)
    → answers.truncated ≡ true
    → is_empty key ≡ false
    → Fits (record { type = OpType.put; key = key; value = value })
    → Logged e.log e.memtable
    → put answers key value e ≡ some (ok, e')
    → Logged e'.log e'.memtable
unfolding put
put-Logged answers key value e e' t n f l h =
    let r : Record = record { type = OpType.put; key = key; value = value } in
    let (out, a, d) = append-recover answers.append_io l.records r l.fit f in
    let a' : Wal.append answers.append_io OpType.put key value e.log ≡ some out =
      ap (λ (g : Bytes). Wal.append answers.append_io OpType.put key value g) l.log_holds ∙ a in
    elim (Bool-cases (is_ok out.0)) [
      | inl c ↦
          after_put-Logged answers
            (record e { log = out.1; memtable = MemTable.put key value e.memtable }) e' t
            (written-Logged key value e.log e.memtable out l d f c) (rw (n, a', c, put) at h)
      | inr c ↦
          let p : (out.0, record e { log = out.1 }) ≡ (ok, e') =
            some_injective (rw (n, a', c, put) at h) in
          absurd (not_ok out.0 c (ap (λ (o : Status × Engine). o.0) p))
    ]

erased-Logged :
    (key log : Bytes) (m : MemTable) (out : Status × Bytes) (l : Logged log m)
    → Durable l.records (record { type = OpType.delete; key = key; value = [] }) out
    → Fits (record { type = OpType.delete; key = key; value = [] })
    → is_ok out.0 ≡ true
    → Logged out.1 (MemTable.remove key m)
unfolding replay MemTable.remove
erased-Logged key log m out l d f s = record {
  records = l.records ++ (record { type = OpType.delete; key = key; value = [] }) ∷ [];
  fit = All-append Fits l.records _ l.fit (f, tt);
  log_holds = Durable-ok l.records _ out d (is_ok→eq out.0 s);
  memory =
      ap (MemTable.remove key) l.memory
      ∙ sym (replay-append l.records _ (MemTable.empty m.flush_threshold));
}

after_remove-Logged :
    (answers : Answers) (e : Engine)
    → answers.truncated ≡ true
    → Logged e.log e.memtable
    → Logged (after_remove answers e).1.log (after_remove answers e).1.memtable
unfolding after_remove
after_remove-Logged answers e t l = elim (Bool-cases (MemTable.should_flush e.memtable)) [
  | inr c ↦ rw (c, after_remove) l
  | inl c ↦ rw (c, after_remove) (flush_memtable-Logged answers e t l)
]

-- After a `remove` that returns OK the log again holds what the table in memory holds, if it did
-- before, under the conditions of a `put`.
pub remove-Logged :
    (answers : Answers) (key : Bytes) (e e' : Engine)
    → answers.truncated ≡ true
    → is_empty key ≡ false
    → Fits (record { type = OpType.delete; key = key; value = [] })
    → Logged e.log e.memtable
    → remove answers key e ≡ some (ok, e')
    → Logged e'.log e'.memtable
unfolding remove
remove-Logged answers key e e' t n f l h =
    let r : Record = record { type = OpType.delete; key = key; value = [] } in
    let (out, a, d) = append-recover answers.append_io l.records r l.fit f in
    let a' : Wal.append answers.append_io OpType.delete key [] e.log ≡ some out =
      ap (λ (g : Bytes). Wal.append answers.append_io OpType.delete key [] g) l.log_holds ∙ a in
    elim (Bool-cases (is_ok out.0)) [
      | inl c ↦
          let erased : Engine = record e {
            log = out.1;
            memtable = MemTable.remove key e.memtable;
          } in
          let p : after_remove answers erased ≡ (ok, e') =
            some_injective (rw (n, a', c, remove) at h) in
          subst (λ (o : Status × Engine). Logged o.1.log o.1.memtable) p
            (after_remove-Logged answers erased t (erased-Logged key e.log e.memtable out l d f c))
      | inr c ↦
          let p : (out.0, record e { log = out.1 }) ≡ (ok, e') =
            some_injective (rw (n, a', c, remove) at h) in
          absurd (not_ok out.0 c (ap (λ (o : Status × Engine). o.0) p))
    ]

-- A start of the engine over the log and the files that it left, before the replay.
abbrev pub restarted : Engine → Engine
restarted e = record e { memtable = MemTable.empty e.memtable.flush_threshold }

-- The end of `recover`, with the table in memory after the replay.
abbrev ended : Answers → Engine → MemTable → Option (Status × Engine)
ended answers e m = some (
    if MemTable.should_flush m
    then (ok, (flush_memtable answers (record e { memtable = m })).1)
    else (ok, record e { memtable = m }))

-- A restart over the same open files brings back the state: if the log holds what the table in memory holds, and that is not
-- due for a flush, the replay of the log ends in the state before.
pub recover-restarted :
    (answers : Answers) (e : Engine)
    → Logged e.log e.memtable
    → MemTable.should_flush e.memtable ≡ false
    → recover answers (restarted e) ≡ some (ok, e)
unfolding recover
recover-restarted answers e l f =
    let there : Wal.recover e.log ≡ some l.records =
      ap Wal.recover l.log_holds ∙ recover_whole l.records l.fit in
    rw (there, recover)
      (subst (λ (m : MemTable). ended answers e m ≡ some (ok, e)) l.memory (rw f refl))
