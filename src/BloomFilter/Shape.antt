-- ===== src/BloomFilter/Shape.antt =====
-- What adding keys leaves as it was: the numbers of bits, hashes and bytes of a filter.
use nexus_db_main.Common.{
  replicate, ℕ, zero, suc, ◌+◌, ◌*◌, ◌^◌, ◌<◌, Bytes, ◌≡◌, refl, arith, List, length,
  length-replicate, [], ◌∷◌,
}
use nexus_db_main.BloomFilter.{BloomFilter, set_bit, position, add_loop, add, create_for_entries}
use nexus_db_main.BloomFilter.Bit.{length-set_bit}
use nexus_db_main.BloomFilter.Membership.{add_all}

length-add_loop :
    (n rounds i h1 h2 : ℕ) (bits : Bytes) → length (add_loop n rounds i h1 h2 bits) ≡ length bits
unfolding add_loop
length-add_loop n zero i h1 h2 bits = refl
length-add_loop n (suc rounds) i h1 h2 bits = rw (
  length-add_loop n rounds (i + 1) h1 h2 (set_bit (position n h1 h2 i) bits),
  length-set_bit (position n h1 h2 i) bits,
)

pub num_bits-add_all :
    (keys : List Bytes) (b : BloomFilter) → (add_all keys b).num_bits ≡ b.num_bits
unfolding add_all add
num_bits-add_all [] b = refl
num_bits-add_all (key ∷ keys) b = num_bits-add_all keys (add key b)

pub num_hashes-add_all :
    (keys : List Bytes) (b : BloomFilter) → (add_all keys b).num_hashes ≡ b.num_hashes
unfolding add_all add
num_hashes-add_all [] b = refl
num_hashes-add_all (key ∷ keys) b = num_hashes-add_all keys (add key b)

length-add : (key : Bytes) (b : BloomFilter) → length (add key b).bits ≡ length b.bits
unfolding add
length-add key b = length-add_loop b.num_bits b.num_hashes 0 _ _ b.bits

pub length-add_all :
    (keys : List Bytes) (b : BloomFilter) → length (add_all keys b).bits ≡ length b.bits
unfolding add_all
length-add_all [] b = refl
length-add_all (key ∷ keys) b = rw (length-add_all keys (add key b), length-add key b)

length-zeros : (n : ℕ) → length (replicate {A = ℕ} n 0) ≡ n
length-zeros n = length-replicate n 0

pub record Small (b : BloomFilter) : Type 0 where
  pub bits_fit : b.num_bits < 2 ^ 32
  pub hashes_fit : b.num_hashes < 2 ^ 32
  pub bytes_fit : 8 + length b.bits < 2 ^ 32

pub create_for_entries-Small : (n : ℕ) → n * 10 + 7 < 2 ^ 32 → Small (create_for_entries n)
unfolding create_for_entries
create_for_entries-Small n h = record {
  bits_fit = ground arith;
  hashes_fit = omega arith;
  bytes_fit = rw length-zeros (ground arith);
}

pub add_all-Small : (keys : List Bytes) (b : BloomFilter) → Small b → Small (add_all keys b)
add_all-Small keys b s = record {
  bits_fit = rw (num_bits-add_all keys b) s.bits_fit;
  hashes_fit = rw (num_hashes-add_all keys b) s.hashes_fit;
  bytes_fit = rw (length-add_all keys b) s.bytes_fit;
}
