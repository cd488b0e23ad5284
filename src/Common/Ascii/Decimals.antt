-- ===== src/Common/Ascii/Decimals.antt =====
-- Decimal numbers read back what was written.
use Prim.Native.Nat.{ℕ, zero, suc, ◌+◌, ◌/◌, ◌%◌, ◌^◌, ◌<◌}
use mathlib.Core.Path.{◌≡◌, refl, ◌∙◌}
use mathlib.Core.Logic.{inl, inr}
use mathlib.Core.Bool.{Bool, true, false}
use mathlib.Core.List.{[], ◌∷◌}
use native.Mathlib.Omega.{arith}
use nexus_db_main.Common.Tests.{◌==◌, Bool-cases}
use nexus_db_main.Common.Words.{Bytes, codes}
use nexus_db_main.Common.Int.{ℤ, pos, negsuc, IsI64}
use nexus_db_main.Common.Results.{returned}
use nexus_db_main.Common.Ascii.{
  is_digit, digits, to_string, to_string_ℤ, read_digits, in_range, read_unsigned, read_signed,
  stoll,
}

pub read_digits-digits :
    (f n : ℕ) (acc : Bytes) → n < f → read_digits 0 (digits f n acc) ≡ read_digits n acc
unfolding digits read_digits
read_digits-digits zero n acc h = absurd (omega arith)
read_digits-digits (suc f) n acc h =
    ground (arith, read_digits-digits f (n / 10) ((48 + n % 10) ∷ acc))

abbrev pub StartsWithDigit : Bytes → Type 0
StartsWithDigit s = (c : ℕ) × (rest : Bytes) × (s ≡ c ∷ rest) × (is_digit c ≡ true)

digits-StartsWithDigit :
    (f n c : ℕ) (acc : Bytes) → is_digit c ≡ true → StartsWithDigit (digits f n (c ∷ acc))
unfolding digits
digits-StartsWithDigit zero n c acc h = (c, acc, refl, h)
digits-StartsWithDigit (suc f) n c acc h = elim (Bool-cases (n / 10 == 0)) [
  | inl e ↦ (48 + n % 10, c ∷ acc, rw (e, digits), ground arith)
  | inr e ↦
      rw (e, digits) (digits-StartsWithDigit f (n / 10) (48 + n % 10) (c ∷ acc) (ground arith))
]

pub to_string-StartsWithDigit : (n : ℕ) → StartsWithDigit (to_string n)
unfolding digits
to_string-StartsWithDigit n = elim (Bool-cases (n / 10 == 0)) [
  | inl e ↦ (48 + n % 10, [], rw (e, digits), ground arith)
  | inr e ↦ rw (e, digits) (digits-StartsWithDigit n (n / 10) (48 + n % 10) [] (ground arith))
]

module _ (name : Bytes) (bound : ℕ) where
  read_unsigned-to_string :
      (negative : Bool) (n : ℕ)
      → read_unsigned name bound negative (to_string n) ≡ in_range name bound negative n
  unfolding read_unsigned read_digits
  read_unsigned-to_string negative n =
      let (c, rest, d, k) = to_string-StartsWithDigit n in
      let value = read_digits-digits (suc n) n [] (omega arith) in
      rw (d, k, read_unsigned) (rw (← d) (rw value refl))

  read_signed-digit :
      (c : ℕ) (rest : Bytes)
      → is_digit c ≡ true
      → read_signed name bound (c ∷ rest) ≡ read_unsigned name bound false (c ∷ rest)
  unfolding read_signed
  read_signed-digit c rest k = ground arith

  read_signed-to_string :
      (n : ℕ) → read_signed name bound (to_string n) ≡ in_range name bound false n
  unfolding read_signed
  read_signed-to_string n =
      let (c, rest, d, k) = to_string-StartsWithDigit n in
      rw d (read_signed-digit c rest k ∙ rw (← d) (read_unsigned-to_string false n))

  in_range_positive : (n : ℕ) → n < bound → in_range name bound false n ≡ returned (pos n)
  unfolding in_range
  in_range_positive zero h = refl
  in_range_positive (suc n) h = ground arith

  in_range_negative : (n : ℕ) → n < bound → in_range name bound true (suc n) ≡ returned (negsuc n)
  unfolding in_range
  in_range_negative n h = ground arith

-- Reading what was written gives the number back, for every `int64_t`.
pub stoll-to_string_ℤ : (i : ℤ) → IsI64 i → stoll (to_string_ℤ i) ≡ returned i
unfolding read_signed to_string_ℤ
stoll-to_string_ℤ (pos n) h =
    read_signed-to_string (codes "stoll") (2 ^ 63) n ∙ in_range_positive _ _ n h
stoll-to_string_ℤ (negsuc n) h =
    read_unsigned-to_string (codes "stoll") (2 ^ 63) true (suc n) ∙ in_range_negative _ _ n h
