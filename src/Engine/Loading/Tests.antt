-- ===== src/Engine/Loading/Tests.antt =====
-- Small data directories.
use nexus_db_main.Common.{◌<◌, List, [], ◌∷◌, true, false, some, All, ◌≡◌, refl, arith, codes, map}
use nexus_db_main.Encoding.{ok, OpType, Record}
use nexus_db_main.StdMap.{assign, find}
use nexus_db_main.MemTable as MemTable
use nexus_db_main.Wal.Recovery.{log_bytes}
use nexus_db_main.Engine.{Engine, Answers, replay}
use nexus_db_main.Engine.Logged.{Logged}
use nexus_db_main.Engine.Loading.{
  sequence_of, sstable_name, found_files, load_sstables, open_engine,
}
use nexus_db_main.Engine.Loading.Names.{sequence_of-sstable_name}
use nexus_db_main.Engine.Loading.Order.{IsDescending, IsCounted, load_sstables-IsDescending}
use nexus_db_main.Engine.Loading.Restored.{
  Written, stored, found_files-stored, reader, Permutes, nothing, place, Descend,
  load_sstables-stored, open_engine-restores,
}

sequence_of-sstable_name_example : sequence_of (sstable_name 1234567) ≡ some 1234567
sequence_of-sstable_name_example = sequence_of-sstable_name 1234567 (omega arith)

abbrev older : Written
older = record {
  seq = 1;
  first = (codes "a", some (codes "1"));
  others = [];
  fits = record {
    sorted = (tt, tt);
    entries_fit = (omega arith, tt);
    count_fits = omega arith;
    room = omega arith;
  };
  counted = omega arith;
}

abbrev newer : Written
newer = record {
  seq = 3;
  first = (codes "a", some (codes "2"));
  others = [];
  fits = record {
    sorted = (tt, tt);
    entries_fit = (omega arith, tt);
    count_fits = omega arith;
    room = omega arith;
  };
  counted = omega arith;
}

-- The directory lists the older file first.
abbrev listed : List Written
listed = older ∷ newer ∷ []

abbrev in_order : List Written
in_order = newer ∷ older ∷ []

listed-Permutes : Permutes listed in_order
listed-Permutes = place older (newer ∷ []) (newer ∷ []) [] (place newer [] [] [] nothing)

in_order-Descend : Descend in_order
in_order-Descend = ((omega arith, tt), (tt, tt))

load_sstables-stored_example :
    ((load_sstables (map stored listed)).sstables ≡ map reader in_order)
    × ((load_sstables (map stored listed)).seqs ≡ map (λ (w : Written). w.seq) in_order)
load_sstables-stored_example = load_sstables-stored listed in_order listed-Permutes in_order-Descend

abbrev logged : List Record
logged = record { type = OpType.put; key = codes "b"; value = codes "3" } ∷ []

-- The table in memory is not due before a megabyte.
abbrev running : Engine
running = record {
  log = log_bytes logged;
  memtable = replay logged (MemTable.empty 1000000);
  sstables = map reader in_order;
  next_seq = 4;
}

running-Logged : Logged running.log running.memtable
unfolding replay MemTable.put MemTable.empty
running-Logged = record {
  records = logged;
  fit = (record { canonical = tt; key_fits = omega arith; value_fits = omega arith }, tt);
  log_holds = refl;
  memory = refl;
}

running_not_due : MemTable.should_flush running.memtable ≡ false
unfolding replay MemTable.should_flush MemTable.put MemTable.empty find assign
running_not_due = refl

abbrev answers : Answers
answers = record {
  append_io = record { writes = []; synced = true };
  flush_opened = true;
  compact_opened = true;
  truncated = true;
}

open_engine-restores_example :
    open_engine answers running.memtable.flush_threshold (map stored listed) running.log
    ≡ some (ok, record running { next_seq = (load_sstables (map stored listed)).next_seq })
open_engine-restores_example =
    open_engine-restores answers running listed in_order listed-Permutes in_order-Descend refl
      running-Logged running_not_due

listed-IsCounted : All IsCounted (found_files (map stored listed))
listed-IsCounted = rw (found_files-stored listed) (omega arith, (omega arith, tt))

load_sstables-IsDescending_example :
    IsDescending (load_sstables (map stored listed)).seqs
    × All
        (λ s. s < (load_sstables (map stored listed)).next_seq)
        (load_sstables (map stored listed)).seqs
load_sstables-IsDescending_example = load_sstables-IsDescending (map stored listed) listed-IsCounted
