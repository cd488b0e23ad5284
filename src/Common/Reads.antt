-- ===== src/Common/Reads.antt =====
-- Reading an exact number of bytes from what a file or a socket still holds, and what a cut text
-- shares with the whole.
use Prim.Native.Nat.{ℕ, zero, suc, ◌+◌, ◌≤◌, ◌<◌}
use mathlib.Core.Path.{◌≡◌, refl}
use mathlib.Core.Logic.{inl, inr}
use mathlib.Core.List.{List, [], ◌∷◌, ◌++◌}
use mathlib.Core.Option.{Option, none, some}
use native.Mathlib.Omega.{arith}
use nexus_db_main.Common.Tests.{Option-cases}
use nexus_db_main.Common.Lists.{length}

module _ {ℓ} {A : Type ℓ} where
  -- `none` if fewer than `n` are left.
  unfoldable pub read_exactly : ℕ → List A → Option (List A × List A)
  read_exactly zero xs = some ([], xs)
  read_exactly (suc n) [] = none
  read_exactly (suc n) (x ∷ xs) = elim (read_exactly n xs) [
    | none ↦ none
    | some (ys, rest) ↦ some (x ∷ ys, rest)
  ]

  pub read_exactly-append :
      (n : ℕ) (xs ys : List A) → length xs ≡ n → read_exactly n (xs ++ ys) ≡ some (xs, ys)
  unfolding read_exactly
  read_exactly-append zero [] ys h = refl
  read_exactly-append zero (x ∷ xs) ys h = absurd (omega arith)
  read_exactly-append (suc n) [] ys h = absurd (omega arith)
  read_exactly-append (suc n) (x ∷ xs) ys h = rw (read_exactly-append n xs ys (omega arith))

  pub read_exactly_short : (n : ℕ) (xs : List A) → length xs < n → read_exactly n xs ≡ none
  unfolding read_exactly
  read_exactly_short zero xs h = absurd (omega arith)
  read_exactly_short (suc n) [] h = refl
  read_exactly_short (suc n) (x ∷ xs) h = rw (read_exactly_short n xs (omega arith))

  -- What was read and what is left make up the whole.
  pub read_exactly_parts :
      (n : ℕ) (xs : List A) {ys rest : List A}
      → read_exactly n xs ≡ some (ys, rest)
      → (length ys ≡ n) × (length xs ≡ n + length rest)
  unfolding read_exactly
  read_exactly_parts zero xs h = ground arith
  read_exactly_parts (suc n) [] h = cc
  read_exactly_parts (suc n) (x ∷ xs) {ys} {rest} h = elim (Option-cases (read_exactly n xs)) [
    | inl e ↦ absurd (cc (rw (e, read_exactly) at h))
    | inr ((zs, r), e) ↦ ground (arith, read_exactly_parts n xs e)
  ]

  -- A front that reaches past `as` holds it.
  pub split_front :
      (ys zs p q : List A)
      → p ++ q ≡ ys ++ zs
      → length ys ≤ length p
      → (p' : List A) × (p ≡ ys ++ p') × (p' ++ q ≡ zs)
  split_front [] zs p q e h = (p, refl, e)
  split_front (a ∷ ys) zs [] q e h = absurd (omega arith)
  split_front (a ∷ ys) zs (x ∷ p) q e h =
      let (p', e₁, e₂) = split_front ys zs p q (cc) (omega arith) in (p', cc, e₂)
