-- ===== src/BloomFilter/Tests.antt =====
-- Runs of the filter at small inputs.
use nexus_db_main.Common.{List, [], ◌∷◌, Bytes, ◌≡◌, refl, arith, true, false, codes, All}
use nexus_db_main.BloomFilter.{create_for_entries, add, possibly_contains, fnv1a, murmur_mix}
use nexus_db_main.BloomFilter.Membership.{add_all, contains-add_all, create_for_entries-IsValid}

fnv1a_check : fnv1a (codes "foobar") ≡ 0xbf9cf968
unfolding fnv1a
fnv1a_check = refl

absent : possibly_contains (codes "grape") (add (codes "apple") (create_for_entries 2)) ≡ false
unfolding possibly_contains add create_for_entries fnv1a murmur_mix
absent = refl

abbrev fruit : List Bytes
fruit = codes "apple" ∷ codes "fig" ∷ []

contains-add_all_example :
    All (λ key. possibly_contains key (add_all fruit (create_for_entries 2)) ≡ true) fruit
contains-add_all_example =
    contains-add_all fruit (create_for_entries 2) (create_for_entries-IsValid 2 (omega arith))

-- At 429496729 entries `num_bits + 7` wraps to 1: the filter has no byte at all.
no_bytes : (create_for_entries 429496729).bits ≡ []
unfolding create_for_entries
no_bytes = refl
