-- ===== src/BloomFilter.antt =====
-- `class BloomFilter`: include/mosaicdb/bloom_filter.h and src/index/bloom_filter.cpp.
pub mod Bit
pub mod Membership
pub mod Shape
mod Tests
use nexus_db_main.Common.{
  ℕ, zero, suc, ◌+◌, ◌*◌, ◌/◌, ◌%◌, bit_and, bit_or, bit_xor, List, [], ◌∷◌, Bool, true, false, not,
  Bytes, u8, u32, ◌<<<◌, ◌>>>◌, get_or, set, replicate, ◌==◌, ltb, if◌then◌else◌,
}

pub record BloomFilter : Type 0 where
  pub bits : Bytes
  pub num_bits : ℕ
  pub num_hashes : ℕ

unfoldable pub empty : ℕ → ℕ → BloomFilter
empty num_bits num_hashes = record {
  bits = replicate (u32 (num_bits + 7) / 8) 0;
  num_bits = num_bits;
  num_hashes = num_hashes;
}

-- The constructor from stored bytes.
unfoldable pub from_data : Bytes → ℕ → ℕ → BloomFilter
from_data stored num_bits num_hashes = record {
  bits = stored;
  num_bits = num_bits;
  num_hashes = num_hashes;
}

unfoldable pub set_bit : ℕ → Bytes → Bytes
set_bit pos bits = set bits (pos / 8) (u8 (bit_or (get_or bits (pos / 8) 0) (1 <<< (pos % 8))))

unfoldable pub get_bit : ℕ → Bytes → Bool
get_bit pos bits = not (bit_and (get_or bits (pos / 8) 0) (1 <<< (pos % 8)) == 0)

fnv1a_loop : ℕ → Bytes → ℕ
fnv1a_loop hash [] = hash
fnv1a_loop hash (c ∷ key) = fnv1a_loop (u32 (bit_xor hash (u8 c) * 16777619)) key

unfoldable pub fnv1a : Bytes → ℕ
unfolding fnv1a_loop
fnv1a key = fnv1a_loop 2166136261 key

mix_round : ℕ → ℕ → ℕ
mix_round hash c =
    let k₁ = u32 (u8 c * 0x5bd1e995) in
    let k₂ = bit_xor k₁ (k₁ >>> 24) in
    let k₃ = u32 (k₂ * 0x5bd1e995) in bit_xor (u32 (hash * 0x5bd1e995)) k₃

murmur_loop : ℕ → Bytes → ℕ
murmur_loop hash [] = hash
murmur_loop hash (c ∷ key) = murmur_loop (mix_round hash c) key

unfoldable pub murmur_mix : Bytes → ℕ
unfolding murmur_loop mix_round
murmur_mix key =
    let h₁ = murmur_loop 0x5bd1e995 key in
    let h₂ = u32 (bit_xor h₁ (h₁ >>> 13) * 0x5bd1e995) in bit_xor h₂ (h₂ >>> 15)

-- The position of hash `i`. A filter of no bits would divide by zero.
pub position : ℕ → ℕ → ℕ → ℕ → ℕ
position num_bits h1 h2 i = u32 (h1 + u32 (i * h2)) % num_bits

-- The loops over the hashes, with the rounds left and the next `i`.
pub add_loop : ℕ → ℕ → ℕ → ℕ → ℕ → Bytes → Bytes
add_loop num_bits zero i h1 h2 bits = bits
add_loop num_bits (suc rounds) i h1 h2 bits =
    add_loop num_bits rounds (i + 1) h1 h2 (set_bit (position num_bits h1 h2 i) bits)

unfoldable pub add : Bytes → BloomFilter → BloomFilter
unfolding add_loop position set_bit
add key b = record b {
  bits = add_loop b.num_bits b.num_hashes 0 (fnv1a key) (murmur_mix key) b.bits;
}

pub contains_loop : ℕ → ℕ → ℕ → ℕ → ℕ → Bytes → Bool
contains_loop num_bits zero i h1 h2 bits = true
contains_loop num_bits (suc rounds) i h1 h2 bits =
    let rest = contains_loop num_bits rounds (i + 1) h1 h2 bits in
    if not (get_bit (position num_bits h1 h2 i) bits) then false else rest

unfoldable pub possibly_contains : Bytes → BloomFilter → Bool
unfolding contains_loop position get_bit
possibly_contains key b =
    contains_loop b.num_bits b.num_hashes 0 (fnv1a key) (murmur_mix key) b.bits

unfoldable pub create_for_entries : ℕ → BloomFilter
unfolding empty
create_for_entries num_entries =
    let num_bits = u32 (num_entries * 10) in empty (if ltb num_bits 64 then 64 else num_bits) 7
