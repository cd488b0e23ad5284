-- ===== src/SsTable/Tests.antt =====
-- Runs of the writer and the reader at small inputs.
use nexus_db_main.Common.{List, [], ◌∷◌, true, none, some, ◌≡◌, refl, arith, codes, ◌>>=◌}
use nexus_db_main.Text.{str_compare}
use nexus_db_main.Encoding.{invalid_argument}
use nexus_db_main.StdMap.{find}
use nexus_db_main.StdMap.Ranges.{between}
use nexus_db_main.SsTable.{DataEntry}
use nexus_db_main.SsTable.Writer.{build}
use nexus_db_main.SsTable.Reader.{open_file, last_bytes, read_footer}
use nexus_db_main.SsTable.Queries.{get, scan, read_all_entries}
use nexus_db_main.SsTable.Loops.{found_entry}
use nexus_db_main.SsTable.Layout.{Fits}
use nexus_db_main.SsTable.Reopen.{reopen, reopen-read_all_entries}
use nexus_db_main.SsTable.Answers.{reopen-get, reopen-scan}

abbrev first : DataEntry
first = (codes "a", some (codes "1"))

abbrev others : List DataEntry
others = (codes "b", none) ∷ (codes "d", some (codes "4")) ∷ []

entries-Fit : Fits (first ∷ others)
unfolding str_compare
entries-Fit = record {
  sorted = ((refl, (refl, tt)), ((refl, tt), (tt, tt)));
  entries_fit = (omega arith, (omega arith, (omega arith, tt)));
  count_fits = omega arith;
  room = omega arith;
}

reopen-read_all_entries_example :
    (reopen (first ∷ others) >>= read_all_entries) ≡ some (first ∷ others)
reopen-read_all_entries_example = reopen-read_all_entries first others entries-Fit

reopen-get_example :
    (reopen (first ∷ others) >>= get (codes "d"))
    ≡ some (found_entry (find (codes "d") (first ∷ others)))
reopen-get_example = reopen-get first others (codes "d") entries-Fit

reopen-scan_example :
    (reopen (first ∷ others) >>= scan (codes "b") (codes "c"))
    ≡ some (between (codes "b") (codes "c") (first ∷ others))
reopen-scan_example = reopen-scan first others (codes "b") (codes "c") entries-Fit

-- No file is written for no entries.
build_nothing : build true [] ≡ (invalid_argument, none)
unfolding build
build_nothing = refl

-- A file of less than a footer is refused.
open_short : open_file (1 ∷ 2 ∷ 3 ∷ []) ≡ none
unfolding open_file read_footer last_bytes
open_short = refl
