-- ===== src/Compaction/Tests.antt =====
-- Runs of a compaction at small inputs.
use nexus_db_main.Common.{List, [], ◌∷◌, none, some, ◌≡◌, refl, codes}
use nexus_db_main.Text.{str_compare}
use nexus_db_main.StdMap.{assign}
use nexus_db_main.SsTable.{DataEntry}
use nexus_db_main.Compaction.{assign_all, merge, live_entries, filler, result_entries}
use nexus_db_main.Compaction.Merge.{Compacts, result_entries_lem}

abbrev newer : List DataEntry
newer = (codes "a", none) ∷ (codes "b", some (codes "2")) ∷ []

abbrev older : List DataEntry
older = (codes "a", some (codes "1")) ∷ (codes "c", some (codes "3")) ∷ []

result_entries_lem_example : Compacts (newer ∷ older ∷ []) (result_entries (newer ∷ older ∷ []))
unfolding str_compare
result_entries_lem_example =
    result_entries_lem (newer ∷ older ∷ []) (((refl, tt), (tt, tt)), (((refl, tt), (tt, tt)), tt))

newest_kept :
    result_entries (newer ∷ older ∷ [])
    ≡ (codes "b", some (codes "2")) ∷ (codes "c", some (codes "3")) ∷ []
unfolding result_entries merge assign_all assign live_entries str_compare
newest_kept = refl

-- Where only tombstones are left, the filler is written.
only_tombstones : result_entries (((codes "a", none) ∷ []) ∷ []) ≡ filler ∷ []
unfolding result_entries merge assign_all assign live_entries str_compare
only_tombstones = refl
