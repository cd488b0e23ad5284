-- ===== src/Engine/Loading/Restored.antt =====
-- The files that the engine writes, found again when it starts.
use nexus_db_main.Common.{
  ℕ, ◌<◌, ◌^◌, List, [], ◌∷◌, ◌++◌, some, All, ◌≡◌, refl, arith, map, some, sym, ltb, lt→ltb, false,
  append_assoc, append-nil, ◌∙◌,
}
use nexus_db_main.SsTable.{DataEntry}
use nexus_db_main.SsTable.Reader.{SsTableReader}
use nexus_db_main.SsTable.Layout.{Fits, file_of}
use nexus_db_main.SsTable.Opening.{reader_of, open_file-file_of, validate-file_of}
use nexus_db_main.Encoding.{ok}
use nexus_db_main.MemTable as MemTable
use nexus_db_main.Engine.{Engine, Answers}
use nexus_db_main.Engine.Logged.{Logged}
use nexus_db_main.Engine.Restart.{recover-restarted}
use nexus_db_main.Engine.Loading.{
  StoredFile, sstable_name, Numbered, found_files, insert_file, sort_files, Loaded, push_reader,
  load_files, load_sstables, open_engine,
}
use nexus_db_main.Engine.Loading.Names.{sequence_of-sstable_name}

-- A file with the entries of a flush or a compaction, and its number.
pub record Written : Type 0 where
  pub seq : ℕ
  pub first : DataEntry
  pub others : List DataEntry
  pub fits : Fits (first ∷ others)
  pub counted : seq < 2 ^ 64

abbrev pub stored : Written → StoredFile
stored w = record { name = sstable_name w.seq; contents = file_of (w.first ∷ w.others) }

abbrev pub numbered : Written → Numbered
numbered w = record { seq = w.seq; contents = file_of (w.first ∷ w.others) }

abbrev pub reader : Written → SsTableReader
reader w = reader_of w.first w.others

-- Each number is less than those before it.
abbrev pub Descend : List Written → Type 0
Descend [] = Unit
Descend (w ∷ ws) = All (λ (v : Written). v.seq < w.seq) ws × Descend ws

-- The second list is the first in another order.
pub data Permutes : List Written → List Written → Type 0 where
  nothing : Permutes [] []
  place :
      (w : Written) (ws newer older : List Written)
      → Permutes ws (newer ++ older)
      → Permutes (w ∷ ws) (newer ++ (w ∷ older))

pub found_files-stored : (ws : List Written) → found_files (map stored ws) ≡ map numbered ws
unfolding found_files
found_files-stored [] = refl
found_files-stored (w ∷ ws) =
    rw
      (
        sequence_of-sstable_name w.seq w.counted,
        found_files-stored ws,
        validate-file_of (w.first ∷ w.others) w.fits,
      )
      refl

All-without :
    {A : Type 0} (P : A → Type 0) (xs : List A) (y : A) (zs : List A)
    → All P (xs ++ (y ∷ zs))
    → P y × All P (xs ++ zs)
All-without P [] y zs h = h
All-without P (x ∷ xs) y zs h = let rest = All-without P xs y zs h.1 in (rest.0, (h.0, rest.1))

Descend-without :
    (newer : List Written) (w : Written) (older : List Written)
    → Descend (newer ++ (w ∷ older))
    → Descend (newer ++ older)
Descend-without [] w older h = h.1
Descend-without (v ∷ newer) w older h =
    ((All-without _ newer w older h.0).1, Descend-without newer w older h.1)

not_below : (a b : ℕ) → b < a → ltb a b ≡ false
not_below a b h = ground arith

insert_file-place :
    (newer : List Written) (w : Written) (older : List Written)
    → Descend (newer ++ (w ∷ older))
    → insert_file (numbered w) (map numbered (newer ++ older)) ≡ map numbered (newer ++ (w ∷ older))
unfolding insert_file
insert_file-place [] w [] h = refl
insert_file-place [] w (v ∷ older) h = rw (not_below w.seq v.seq (omega (arith, h.0.0))) refl
insert_file-place (v ∷ newer) w older h =
    rw (lt→ltb w.seq v.seq (All-without _ newer w older h.0).0, insert_file-place newer w older h.1)
      refl

sort_files-Permutes :
    {ws sorted : List Written}
    → Permutes ws sorted
    → Descend sorted
    → sort_files (map numbered ws) ≡ map numbered sorted
unfolding sort_files
sort_files-Permutes nothing h = refl
sort_files-Permutes (place w ws newer older p) h =
    rw (sort_files-Permutes p (Descend-without newer w older h)) (insert_file-place newer w older h)

load_files-written :
    (ws : List Written) (loaded : Loaded)
    → ((load_files (map numbered ws) loaded).sstables ≡ loaded.sstables ++ map reader ws)
      × ((load_files (map numbered ws) loaded).seqs
          ≡ loaded.seqs ++ map (λ (w : Written). w.seq) ws)
unfolding load_files
load_files-written [] loaded =
    (rw (append-nil loaded.sstables) refl, rw (append-nil loaded.seqs) refl)
load_files-written (w ∷ ws) loaded =
    let rest = load_files-written ws (push_reader w.seq loaded (some (reader w))) in
    rw (load_files, open_file-file_of w.first w.others w.fits)
      (
        rest.0 ∙ append_assoc loaded.sstables (reader w ∷ []) (map reader ws),
        rest.1 ∙ append_assoc loaded.seqs (w.seq ∷ []) (map (λ (v : Written). v.seq) ws),
      )

-- When a directory holds, in any order, the files written for some lists of entries that the file
-- format has room for, with descending 64-bit numbers, `load_sstables` opens all of them, from the
-- newest to the oldest, and each reader is that of its list of entries.
pub load_sstables-stored :
    (ws sorted : List Written)
    → Permutes ws sorted
    → Descend sorted
    → ((load_sstables (map stored ws)).sstables ≡ map reader sorted)
      × ((load_sstables (map stored ws)).seqs ≡ map (λ (w : Written). w.seq) sorted)
unfolding load_sstables
load_sstables-stored ws sorted p h =
    rw (found_files-stored ws, sort_files-Permutes p h)
      (load_files-written sorted (record { sstables = []; seqs = []; next_seq = 0 }))

-- A restart brings the engine back: when its open files are those written for lists of entries, with
-- descending 64-bit numbers, the directory holds these in any order, the log holds what the table in
-- memory holds, and that is not due for a flush, the constructor ends in the state before, with the
-- next number of the files that it finds.
pub open_engine-restores :
    (answers : Answers) (e : Engine) (ws sorted : List Written)
    → Permutes ws sorted
    → Descend sorted
    → e.sstables ≡ map reader sorted
    → Logged e.log e.memtable
    → MemTable.should_flush e.memtable ≡ false
    → open_engine answers e.memtable.flush_threshold (map stored ws) e.log
      ≡ some (ok, record e { next_seq = (load_sstables (map stored ws)).next_seq })
unfolding open_engine
open_engine-restores answers e ws sorted p h r l f =
    rw ((load_sstables-stored ws sorted p h).0, sym r)
      (recover-restarted answers (record e { next_seq = (load_sstables (map stored ws)).next_seq })
        l f)
