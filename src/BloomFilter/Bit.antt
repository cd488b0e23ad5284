-- ===== src/BloomFilter/Bit.antt =====
-- One bit of the filter.
use nexus_db_main.Common.{
  set_out, ℕ, zero, suc, ◌*◌, ◌/◌, ◌%◌, ◌<◌, bit_and, bit_or, Bool, true, not, ◌||◌, Bytes, IsByte,
  u8, ◌<<<◌, ◌≡◌, refl, arith, get_or, set, length, length-set, get_or-set_self, get_or-set_ne, All,
  ◌==◌, [], ◌∷◌,
}
use native.Mathlib.Decide.{ℕ_discrete, dec_lt}
use nexus_db_main.Common.Folds.{all_below, all_below_sound}
use nexus_db_main.BloomFilter.{set_bit, get_bit}

bit_of : ℕ → ℕ → Bool
bit_of x i = not (bit_and x (1 <<< i) == 0)

with_bit : ℕ → ℕ → ℕ
with_bit x i = u8 (bit_or x (1 <<< i))

-- In every byte, setting one bit sets it and clears no other.
sets_it : ℕ → ℕ → Bool
sets_it x i = bit_of (with_bit x i) i

clears_none : ℕ → ℕ → ℕ → Bool
clears_none x i j = not (bit_of x j) || bit_of (with_bit x i) j

set_table : all_below 256 (λ x. all_below 8 (λ i. sets_it x i)) ≡ true
unfolding all_below sets_it with_bit bit_of
set_table = refl

keep_table : all_below 256 (λ x. all_below 8 (λ i. all_below 8 (λ j. clears_none x i j))) ≡ true
unfolding all_below clears_none with_bit bit_of
keep_table = refl

bit_of-with_bit : (x i : ℕ) → IsByte x → i < 8 → bit_of (with_bit x i) i ≡ true
unfolding sets_it
bit_of-with_bit x i hx hi =
    all_below_sound 8 (sets_it x) i
      (all_below_sound 256 (λ y. all_below 8 (λ k. sets_it y k)) x set_table hx) hi

with_bit_keeps :
    (x i j : ℕ) → IsByte x → i < 8 → j < 8 → bit_of x j ≡ true → bit_of (with_bit x i) j ≡ true
unfolding clears_none
with_bit_keeps x i j hx hi hj h = ground (
  arith,
  all_below_sound 8 (clears_none x i) j
      (all_below_sound 8 (λ k. all_below 8 (λ l. clears_none x k l)) i
        (all_below_sound 256 (λ y. all_below 8 (λ k. all_below 8 (λ l. clears_none y k l))) x
          keep_table hx)
        hi)
      hj,
)

get_or-IsByte : (bits : Bytes) (i : ℕ) → All IsByte bits → IsByte (get_or bits i 0)
get_or-IsByte [] i h = omega arith
get_or-IsByte (x ∷ bits) zero h = h.0
get_or-IsByte (x ∷ bits) (suc i) h = get_or-IsByte bits i h.1

set-IsByte : (bits : Bytes) (i v : ℕ) → IsByte v → All IsByte bits → All IsByte (set bits i v)
set-IsByte [] i v hv h = tt
set-IsByte (x ∷ bits) zero v hv h = (hv, h.1)
set-IsByte (x ∷ bits) (suc i) v hv h = (h.0, set-IsByte bits i v hv h.1)

pub set_bit-IsByte : (pos : ℕ) (bits : Bytes) → All IsByte bits → All IsByte (set_bit pos bits)
unfolding set_bit
set_bit-IsByte pos bits h = set-IsByte bits (pos / 8) _ (omega arith) h

pub length-set_bit : (pos : ℕ) (bits : Bytes) → length (set_bit pos bits) ≡ length bits
unfolding set_bit
length-set_bit pos bits = length-set bits (pos / 8) _

pub get_bit-set_bit :
    (pos : ℕ) (bits : Bytes)
    → All IsByte bits
    → pos < 8 * length bits
    → get_bit pos (set_bit pos bits) ≡ true
unfolding get_bit set_bit with_bit bit_of
get_bit-set_bit pos bits hb h =
    rw
      (get_or-set_self bits (pos / 8) (with_bit (get_or bits (pos / 8) 0) (pos % 8)) 0
        (omega arith))
      (bit_of-with_bit (get_or bits (pos / 8) 0) (pos % 8) (get_or-IsByte bits (pos / 8) hb)
        (omega arith))

same_byte :
    (bits : Bytes) (i k l : ℕ)
    → All IsByte bits
    → k < 8
    → l < 8
    → bit_of (get_or bits i 0) l ≡ true
    → bit_of (get_or (set bits i (with_bit (get_or bits i 0) k)) i 0) l ≡ true
same_byte bits i k l hb hk hl h = elim (dec_lt i (length bits)) [
  | yes p ↦
      rw (get_or-set_self bits i (with_bit (get_or bits i 0) k) 0 p)
        (with_bit_keeps (get_or bits i 0) k l (get_or-IsByte bits i hb) hk hl h)
  | no p ↦ rw (set_out bits i (with_bit (get_or bits i 0) k) (omega arith)) h
]

-- Setting a bit clears no bit of the filter.
pub set_bit_keeps :
    (pos j : ℕ) (bits : Bytes)
    → All IsByte bits
    → get_bit j bits ≡ true
    → get_bit j (set_bit pos bits) ≡ true
unfolding get_bit set_bit with_bit bit_of
set_bit_keeps pos j bits hb h = elim (ℕ_discrete (pos / 8) (j / 8)) [
  | yes e ↦ rw e (same_byte bits (j / 8) (pos % 8) (j % 8) hb (omega arith) (omega arith) h)
  | no ne ↦
      rw (get_or-set_ne bits (pos / 8) (j / 8) (with_bit (get_or bits (pos / 8) 0) (pos % 8)) 0 ne)
        h
]
