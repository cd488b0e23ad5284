-- ===== src/Engine/Loading/Names.antt =====
-- The engine reads back the number of a file from the name it gave it.
use nexus_db_main.Common.{
  ℕ, zero, suc, ◌-◌, ◌<◌, ◌^◌, [], ◌∷◌, ◌++◌, Bytes, true, false, some, codes, length, take, drop,
  lt→ltb, ◌≡◌, refl, ap, sym, ◌∙◌, arith, replicate, length-append, take-append, drop-append,
}
use nexus_db_main.Common.Ascii.{is_digit, to_string, zero_padded, read_digits, read_u64, stoull}
use nexus_db_main.Common.Ascii.Decimals.{
  StartsWithDigit, to_string-StartsWithDigit, read_digits-digits,
}
use nexus_db_main.Text.Order.{str_eq_refl}
use nexus_db_main.Engine.Loading.{sstable_name, is_sstable_name, sequence_of}

zeros-StartsWithDigit :
    (k : ℕ) (s : Bytes) → StartsWithDigit s → StartsWithDigit (replicate k b'0' ++ s)
zeros-StartsWithDigit zero s h = h
zeros-StartsWithDigit (suc k) s h = (b'0', replicate k b'0' ++ s, refl, refl)

read_digits_zeros : (k : ℕ) (s : Bytes) → read_digits 0 (replicate k b'0' ++ s) ≡ read_digits 0 s
unfolding read_digits
read_digits_zeros zero s = refl
read_digits_zeros (suc k) s = read_digits_zeros k s

stoull-digit :
    (c : ℕ) (rest : Bytes) → is_digit c ≡ true → stoull (c ∷ rest) ≡ read_u64 false (c ∷ rest)
unfolding stoull
stoull-digit c rest d = ground arith

read_u64-digit :
    (c : ℕ) (rest : Bytes)
    → is_digit c ≡ true
    → read_digits 0 (c ∷ rest) < 2 ^ 64
    → read_u64 false (c ∷ rest) ≡ some (read_digits 0 (c ∷ rest))
unfolding read_u64
read_u64-digit c rest d l = rw (d, lt→ltb (read_digits 0 (c ∷ rest)) (2 ^ 64) l) refl

stoull-StartsWithDigit :
    (s : Bytes) (n : ℕ) → StartsWithDigit s → read_digits 0 s ≡ n → n < 2 ^ 64 → stoull s ≡ some n
stoull-StartsWithDigit s n (c, rest, e, d) h l =
    let value : read_digits 0 (c ∷ rest) ≡ n = ap (read_digits 0) (sym e) ∙ h in
    rw e (stoull-digit c rest d ∙ (read_u64-digit c rest d (omega (arith, value)) ∙ ap some value))

read_digits-nil : (n : ℕ) → read_digits n [] ≡ n
unfolding read_digits
read_digits-nil n = refl

stoull-zero_padded : (width n : ℕ) → n < 2 ^ 64 → stoull (zero_padded width (to_string n)) ≡ some n
stoull-zero_padded width n h =
    stoull-StartsWithDigit (zero_padded width (to_string n)) n
      (zeros-StartsWithDigit _ (to_string n) (to_string-StartsWithDigit n))
      (read_digits_zeros _ (to_string n)
        ∙ (read_digits-digits (suc n) n [] (omega arith) ∙ read_digits-nil n))
      h

-- What stands between the four bytes of the front and the three of the end.
middle : (p : Bytes) → take (length (codes "sst_" ++ (p ++ codes ".db")) - 7) (p ++ codes ".db") ≡ p
middle p = ap (λ n. take n (p ++ codes ".db")) (the_length p) ∙ take-append p (codes ".db")
  where
    the_length : (p : Bytes) → length (codes "sst_" ++ (p ++ codes ".db")) - 7 ≡ length p
    the_length p = omega (arith, length-append p (codes ".db"))

ending :
    (p : Bytes)
    → drop (length (codes "sst_" ++ (p ++ codes ".db")) - 3) (codes "sst_" ++ (p ++ codes ".db"))
      ≡ codes ".db"
ending p =
    ap (λ n. drop n (codes "sst_" ++ (p ++ codes ".db"))) (the_length p)
    ∙ drop-append (codes "sst_" ++ p) (codes ".db")
  where
    the_length :
        (p : Bytes) → length (codes "sst_" ++ (p ++ codes ".db")) - 3 ≡ length (codes "sst_" ++ p)
    the_length p = omega (arith, length-append p (codes ".db"))

is_sstable_name-sstable_name : (n : ℕ) → is_sstable_name (sstable_name n) ≡ true
unfolding is_sstable_name sstable_name
is_sstable_name-sstable_name n =
    let p : Bytes = zero_padded 6 (to_string n) in
    rw
      (
        ending p,
        str_eq_refl (codes ".db"),
        str_eq_refl (codes "sst_"),
        lt→ltb 4 (length (codes "sst_" ++ (p ++ codes ".db")))
            (omega (arith, length-append p (codes ".db"))),
      )
      refl

-- For every 64-bit number, the engine reads the number of a file back from the name under which it
-- writes the file, so a restart finds the files of the run before.
pub sequence_of-sstable_name : (n : ℕ) → n < 2 ^ 64 → sequence_of (sstable_name n) ≡ some n
unfolding sequence_of sstable_name
sequence_of-sstable_name n h = rw (is_sstable_name-sstable_name n) (digits_between n h)
  where
    digits_between :
        (n : ℕ)
        → n < 2 ^ 64
        → stoull (take (length (sstable_name n) - 7) (drop 4 (sstable_name n))) ≡ some n
    digits_between n h = ap stoull (middle (zero_padded 6 (to_string n))) ∙ stoull-zero_padded 6 n h
