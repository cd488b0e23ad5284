-- ===== src/BloomFilter/Membership.antt =====
-- The filter has no false negatives.
use nexus_db_main.Common.{
  ℕ, zero, suc, ◌+◌, ◌*◌, ◌^◌, ◌≤◌, ◌<◌, true, Bytes, IsByte, ◌≡◌, refl, arith, List, length,
  length-replicate, All, [], ◌∷◌, replicate,
}
use native.Mathlib.Nat.{mod-lt}
use nexus_db_main.BloomFilter.{
  BloomFilter, set_bit, get_bit, fnv1a, murmur_mix, position, add_loop, add, contains_loop,
  possibly_contains, create_for_entries,
}
use nexus_db_main.BloomFilter.Bit.{set_bit-IsByte, length-set_bit, get_bit-set_bit, set_bit_keeps}

-- The bits are bytes, and there are bytes enough for the positions.
pub record Holds (num_bits : ℕ) (bits : Bytes) : Type 0 where
  pub bytes : All IsByte bits
  pub room : num_bits ≤ 8 * length bits
  pub some_bits : 0 < num_bits

pub record IsValid (b : BloomFilter) : Type 0 where
  pub holds : Holds b.num_bits b.bits

-- Every bit that is set in the first is set in the second.
abbrev Within : Bytes → Bytes → Type 0
Within bits bits' = (j : ℕ) → get_bit j bits ≡ true → get_bit j bits' ≡ true

set_bit-Holds : (pos n : ℕ) (bits : Bytes) → Holds n bits → Holds n (set_bit pos bits)
set_bit-Holds pos n bits v = record {
  bytes = set_bit-IsByte pos bits v.bytes;
  room = rw (length-set_bit pos bits) v.room;
  some_bits = v.some_bits;
}

position-lt : (n h1 h2 i : ℕ) → 0 < n → position n h1 h2 i < n
unfolding position
position-lt n h1 h2 i h = mod-lt _ h

module _ (n h1 h2 : ℕ) where
  add_loop-Holds :
      (rounds i : ℕ) (bits : Bytes) → Holds n bits → Holds n (add_loop n rounds i h1 h2 bits)
  unfolding add_loop
  add_loop-Holds zero i bits v = v
  add_loop-Holds (suc rounds) i bits v =
      let pos = position n h1 h2 i in
      add_loop-Holds rounds (i + 1) (set_bit pos bits) (set_bit-Holds pos n bits v)

  add_loop_keeps :
      (rounds i : ℕ) (bits : Bytes) → Holds n bits → Within bits (add_loop n rounds i h1 h2 bits)
  unfolding add_loop
  add_loop_keeps zero i bits v j h = h
  add_loop_keeps (suc rounds) i bits v j h =
      let pos = position n h1 h2 i in
      add_loop_keeps rounds (i + 1) (set_bit pos bits) (set_bit-Holds pos n bits v) j
        (set_bit_keeps pos j bits v.bytes h)

  -- A filter with more bits set still answers yes.
  contains_loop-Within :
      (rounds i : ℕ) (bits bits' : Bytes)
      → Within bits bits'
      → contains_loop n rounds i h1 h2 bits ≡ true
      → contains_loop n rounds i h1 h2 bits' ≡ true
  unfolding contains_loop
  contains_loop-Within zero i bits bits' x h = refl
  contains_loop-Within (suc rounds) i bits bits' x h =
      ground (arith, x (position n h1 h2 i), contains_loop-Within rounds (i + 1) bits bits' x)

  contains_loop-add_loop :
      (rounds i : ℕ) (bits : Bytes)
      → Holds n bits
      → contains_loop n rounds i h1 h2 (add_loop n rounds i h1 h2 bits) ≡ true
  unfolding contains_loop add_loop
  contains_loop-add_loop zero i bits v = refl
  contains_loop-add_loop (suc rounds) i bits v =
      let pos = position n h1 h2 i in
      let w = set_bit-Holds pos n bits v in
      let here =
        get_bit-set_bit pos bits v.bytes
          (omega (arith, v.room, position-lt n h1 h2 i v.some_bits)) in
      rw (add_loop_keeps rounds (i + 1) (set_bit pos bits) w pos here)
        (contains_loop-add_loop rounds (i + 1) (set_bit pos bits) w)

pub add-IsValid : (key : Bytes) (b : BloomFilter) → IsValid b → IsValid (add key b)
unfolding add
add-IsValid key b v = record {
  holds = add_loop-Holds b.num_bits (fnv1a key) (murmur_mix key) b.num_hashes 0 b.bits v.holds;
}

-- A key that was added is reported as possibly there.
contains-add :
    (key : Bytes) (b : BloomFilter) → IsValid b → possibly_contains key (add key b) ≡ true
unfolding possibly_contains add
contains-add key b v =
    contains_loop-add_loop b.num_bits (fnv1a key) (murmur_mix key) b.num_hashes 0 b.bits v.holds

-- Adding a key withdraws no answer.
contains-add_other :
    (key j : Bytes) (b : BloomFilter)
    → IsValid b
    → possibly_contains j b ≡ true
    → possibly_contains j (add key b) ≡ true
unfolding possibly_contains add
contains-add_other key j b v h =
    contains_loop-Within b.num_bits (fnv1a j) (murmur_mix j) b.num_hashes 0 b.bits _
      (add_loop_keeps b.num_bits (fnv1a key) (murmur_mix key) b.num_hashes 0 b.bits v.holds) h

-- The keys added one after the other.
unfoldable pub add_all : List Bytes → BloomFilter → BloomFilter
add_all [] b = b
add_all (key ∷ keys) b = add_all keys (add key b)

contains-add_all_other :
    (keys : List Bytes) (j : Bytes) (b : BloomFilter)
    → IsValid b
    → possibly_contains j b ≡ true
    → possibly_contains j (add_all keys b) ≡ true
unfolding add_all
contains-add_all_other [] j b v h = h
contains-add_all_other (key ∷ keys) j b v h =
    contains-add_all_other keys j (add key b) (add-IsValid key b v) (contains-add_other key j b v h)

-- No false negatives: after any keys were added to a valid filter, one after the other, each of
-- them is reported as possibly there.
pub contains-add_all :
    (keys : List Bytes) (b : BloomFilter)
    → IsValid b
    → All (λ key. possibly_contains key (add_all keys b) ≡ true) keys
unfolding add_all
contains-add_all [] b v = tt
contains-add_all (key ∷ keys) b v = (
  contains-add_all_other keys key (add key b) (add-IsValid key b v) (contains-add key b v),
  contains-add_all keys (add key b) (add-IsValid key b v),
)

replicate-IsByte : (n : ℕ) → All IsByte (replicate n 0)
replicate-IsByte zero = tt
replicate-IsByte (suc n) = (omega arith, replicate-IsByte n)

length-zeros : (n : ℕ) → length (replicate {A = ℕ} n 0) ≡ n
length-zeros n = length-replicate n 0

-- The filter of an SSTable is valid, as long as ten bits for each entry and seven more fit 32 bits.
pub create_for_entries-IsValid : (n : ℕ) → n * 10 + 7 < 2 ^ 32 → IsValid (create_for_entries n)
unfolding create_for_entries
create_for_entries-IsValid n h = record {
  holds = record {
    bytes = replicate-IsByte _;
    room = rw length-zeros (ground arith);
    some_bits = ground arith;
  };
}
