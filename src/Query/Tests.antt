-- ===== src/Query/Tests.antt =====
-- The query language on fixed inputs.
use nexus_db_main.Common.{[], codes, ◌≡◌, refl}
use nexus_db_main.Text.{str_compare}
use nexus_db_main.Query.{
  command, put, scan, parse, skip_spaces, until_space, line_of, without_space,
}

command_of_text :
    parse (codes " put  k1  two words") ≡ command put (codes "k1") (codes " two words") []
unfolding parse skip_spaces until_space line_of without_space str_compare
command_of_text = refl

range_of_text : parse (codes "SCAN a z") ≡ command scan (codes "a") [] (codes "z")
unfolding parse skip_spaces until_space line_of without_space str_compare
range_of_text = refl
