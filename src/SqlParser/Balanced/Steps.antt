-- ===== src/SqlParser/Balanced/Steps.antt =====
-- Properties of what a step of the parser returns.
use nexus_db_main.Common.{Bytes, Bool-cases, inl, inr}
use nexus_db_main.Common.Results
use nexus_db_main.Common.Results.{Result, returned, raised, out_of_fuel}
use nexus_db_main.SqlTokenizer.Kinds.{TokenType}
use nexus_db_main.SqlParser.Cursor.{Parser, Reader, ◌>>=◌, matches, when_matches}

-- What the step returns, if it does, has the property.
pub data Returns {A : Type 0} (P : A → Type 0) : Result (A × Parser) → Type 0 where
  gave : {a : A} {p : Parser} → P a → Returns P (returned (a, p))
  threw : {e : Bytes} → Returns P (raised e)
  spent : Returns P out_of_fuel

abbrev pub Always : {A : Type 0} → (A → Type 0) → Reader A → Type 0
Always P m = (p : Parser) → Returns P (m p)

module _ {B : Type 0} (P : B → Type 0) where
  pub Always-after :
      {A : Type 0} (Q : A → Type 0) (m : Reader A) (f : A → Reader B)
      → Always Q m
      → ((a : A) → Q a → Always P (f a))
      → Always P (m >>= f)
  Always-after {A} Q m f h k p = by_result (m p) (h p)
    where
      by_result :
          (r : Result (A × Parser)) → Returns Q r → Returns P (Results.◌>>=◌ r λ (a, q). f a q)
      by_result (returned (a, q)) (gave x) = k a x q
      by_result (raised e) x = threw
      by_result out_of_fuel x = spent

  pub Always-bind :
      {A : Type 0} (m : Reader A) (f : A → Reader B)
      → ((a : A) → Always P (f a))
      → Always P (m >>= f)
  Always-bind {A} m f k p = by_result (m p)
    where
      by_result : (r : Result (A × Parser)) → Returns P (Results.◌>>=◌ r λ (a, q). f a q)
      by_result (returned (a, q)) = k a q
      by_result (raised e) = threw
      by_result out_of_fuel = spent

  pub Always-when :
      (t : TokenType) (here other : Reader B)
      → Always P here
      → Always P other
      → Always P (when_matches t here other)
  Always-when t here other h k p = elim (Bool-cases (matches t p)) [
    | inl m ↦ rw (m, when_matches) (h p)
    | inr m ↦ rw (m, when_matches) (k p)
  ]
