-- ===== src/Common/Results.antt =====
-- Outcomes of code that may throw, and postconditions on them. `raised` carries the text of the
-- exception; `out_of_fuel` has no counterpart in the program.
use mathlib.Core.Logic.{◌≢◌}
use nexus_db_main.Common.Words.{Bytes}

pub data Result {ℓ} (A : Type ℓ) : Type ℓ where
  returned : A → Result A
  raised : Bytes → Result A
  out_of_fuel : Result A

infixl 5 ◌>>=◌
abbrev pub ◌>>=◌ {ℓ κ} : {A : Type ℓ} {B : Type κ} → Result A → (A → Result B) → Result B
returned a >>= f = f a
raised e >>= f = raised e
out_of_fuel >>= f = out_of_fuel

-- The run stayed within its fuel, and `P` holds of what it returned, if it did.
abbrev pub Ensures {ℓ} : {A : Type ℓ} → (A → Type 0) → Result A → Type 0
Ensures P (returned a) = P a
Ensures P (raised e) = Unit
Ensures P out_of_fuel = ⊥

module _ {ℓ κ} {A : Type ℓ} {B : Type κ} where
  pub Ensures-bind :
      (P : A → Type 0) (Q : B → Type 0) (r : Result A) (f : A → Result B)
      → Ensures P r
      → ((a : A) → P a → Ensures Q (f a))
      → Ensures Q (r >>= f)
  Ensures-bind P Q (returned a) f h k = k a h
  Ensures-bind P Q (raised e) f h k = tt
  Ensures-bind P Q out_of_fuel f h k = elim h [ ]

module _ {ℓ} {A : Type ℓ} where
  pub Ensures-weaken :
      (P Q : A → Type 0) (r : Result A) → Ensures P r → ((a : A) → P a → Q a) → Ensures Q r
  Ensures-weaken P Q (returned a) h k = k a h
  Ensures-weaken P Q (raised e) h k = tt
  Ensures-weaken P Q out_of_fuel h k = elim h [ ]

  pub Ensures-in_fuel : (P : A → Type 0) (r : Result A) → Ensures P r → r ≢ out_of_fuel
  Ensures-in_fuel P (returned a) h = λ e. cc
  Ensures-in_fuel P (raised x) h = λ e. cc
  Ensures-in_fuel P out_of_fuel h = elim h [ ]
