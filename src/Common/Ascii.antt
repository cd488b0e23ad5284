-- ===== src/Common/Ascii.antt =====
-- The character classes of <cctype> in the "C" locale, and decimal numbers as `std::to_string`
-- writes and `std::stoll` and `std::stoi` read them.
pub mod Decimals
use Prim.Native.Nat.{ℕ, zero, suc, ◌+◌, ◌-◌, ◌*◌, ◌/◌, ◌%◌, ◌^◌, ◌≤◌, ◌<◌}
use mathlib.Core.Path.{◌≡◌, refl, ◌∙◌}
use mathlib.Core.Logic.{◌⊎◌, inl, inr}
use mathlib.Core.Bool.{Bool, true, false, not, ◌&&◌, ◌||◌}
use mathlib.Core.Option.{Option, none, some}
use mathlib.Core.List.{List, [], ◌∷◌, ◌++◌, map}
use native.Mathlib.Omega.{arith}
use nexus_db_main.Common.Tests.{ltb, leb, ◌==◌, if◌then◌else◌, Bool-cases}
use nexus_db_main.Common.Lists.{length, replicate}
use nexus_db_main.Common.Words.{Bytes, codes}
use nexus_db_main.Common.Int.{ℤ, pos, negsuc, IsI64}
use nexus_db_main.Common.Results.{Result, returned, raised}

abbrev pub is_space : ℕ → Bool
is_space c = c == 32 || (leb 9 c && leb c 13)

abbrev pub is_digit : ℕ → Bool
is_digit c = leb 48 c && leb c 57

abbrev pub is_lower : ℕ → Bool
is_lower c = leb 97 c && leb c 122

abbrev pub is_alpha : ℕ → Bool
is_alpha c = is_lower c || (leb 65 c && leb c 90)

abbrev pub to_upper : ℕ → ℕ
to_upper c = if is_lower c then c - 32 else c

-- The fuel is one more than the number: a digit divides it by ten.
unfoldable pub digits : ℕ → ℕ → Bytes → Bytes
digits zero n acc = acc
digits (suc f) n acc =
    let here = (48 + n % 10) ∷ acc in
    elim (n / 10 == 0) [ true ↦ here | false ↦ digits f (n / 10) here ]

abbrev pub to_string : ℕ → Bytes
to_string n = digits (suc n) n []

-- Zeros in front, up to the width.
abbrev pub zero_padded : ℕ → Bytes → Bytes
zero_padded width s = replicate (width - length s) b'0' ++ s

unfoldable pub to_string_ℤ : ℤ → Bytes
to_string_ℤ (pos n) = to_string n
to_string_ℤ (negsuc n) = 45 ∷ to_string (suc n)

unfoldable pub read_digits : ℕ → Bytes → ℕ
read_digits acc [] = acc
read_digits acc (c ∷ cs) = elim (is_digit c) [
  | true ↦ read_digits (acc * 10 + (c - 48)) cs
  | false ↦ acc
]

-- `bound` is 2 ^ 63 for `long long` and 2 ^ 31 for `int`; the text of the exception is the name of
-- the function, as in libstdc++.
unfoldable pub in_range : Bytes → ℕ → Bool → ℕ → Result ℤ
in_range name bound negative zero = returned (pos zero)
in_range name bound negative (suc n) =
    if negative
    then (if leb (suc n) bound then returned (negsuc n) else raised name)
    else if ltb (suc n) bound
    then returned (pos (suc n))
    else raised name

unfoldable pub read_unsigned : Bytes → ℕ → Bool → Bytes → Result ℤ
read_unsigned name bound negative [] = raised name
read_unsigned name bound negative (c ∷ cs) =
    if is_digit c then in_range name bound negative (read_digits 0 (c ∷ cs)) else raised name

unfoldable pub read_signed : Bytes → ℕ → Bytes → Result ℤ
read_signed name bound [] = raised name
read_signed name bound (c ∷ cs) = elim (is_space c) [
  | true ↦ read_signed name bound cs
  | false ↦
      if c == 45
      then read_unsigned name bound true cs
      else if c == 43
      then read_unsigned name bound false cs
      else read_unsigned name bound false (c ∷ cs)
]

abbrev pub stoll : Bytes → Result ℤ
stoll = read_signed (codes "stoll") (2 ^ 63)

abbrev pub stoi : Bytes → Result ℤ
stoi = read_signed (codes "stoi") (2 ^ 31)

unfoldable pub read_u64 : Bool → Bytes → Option ℕ
read_u64 negative [] = none
read_u64 negative (c ∷ cs) =
    let n = read_digits 0 (c ∷ cs) in
    if not (is_digit c)
    then none
    else if not (ltb n (2 ^ 64))
    then none
    else if negative
    then some ((2 ^ 64 - n) % 2 ^ 64)
    else some n

-- `std::stoull`, where `none` is an exception: a number with a minus sign is negated modulo 2 ^ 64.
unfoldable pub stoull : Bytes → Option ℕ
stoull [] = none
stoull (c ∷ cs) = elim (is_space c) [
  | true ↦ stoull cs
  | false ↦
      if c == b'-'
      then read_u64 true cs
      else if c == b'+'
      then read_u64 false cs
      else read_u64 false (c ∷ cs)
]
