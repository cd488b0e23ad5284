-- ===== src/SqlParser/Progress.antt =====
-- How far a step of the parser leaves its cursor from the last token, and that it ends.
pub mod Values
pub mod Columns
pub mod Loops
pub mod Statements
use nexus_db_main.Common.{
  ℕ, zero, suc, ◌+◌, ◌≤◌, ◌<◌, List, [], ◌∷◌, Bytes, Bool, true, false, ◌||◌, ◌≡◌, refl, arith,
  length, ◌==◌, if◌then◌else◌, Bool-cases, inl, inr,
}
use nexus_db_main.Common.Results
use nexus_db_main.Common.Results.{Result, returned, raised, out_of_fuel}
use nexus_db_main.SqlTokenizer.{Token}
use nexus_db_main.SqlTokenizer.Kinds.{TokenType, same_type, type_code, end_of_input}
use nexus_db_main.SqlParser.Cursor.{
  Parser, Reader, pure, ◌>>=◌, matches, at_end, move, advance, expect, when_matches, remaining,
}

abbrev pub EndsWith : Token → List Token → Type 0
EndsWith t [] = same_type t.type end_of_input ≡ true
EndsWith t (u ∷ us) = EndsWith u us

-- The last token is END_OF_INPUT.
abbrev pub Ended : Parser → Type 0
Ended p = EndsWith p.current p.following

-- The step throws, or it leaves fewer than `n` tokens behind the current one.
pub data Runs {A : Type 0} (n : ℕ) : Result (A × Parser) → Type 0 where
  stopped : {a : A} {q : Parser} → Ended q → remaining q < n → Runs n (returned (a, q))
  thrown : {e : Bytes} → Runs n (raised e)

-- A step that ends.
abbrev pub Shrinks : {A : Type 0} → Reader A → Type 0
Shrinks m = (p : Parser) (n : ℕ) → Ended p → remaining p < n → Runs n (m p)

-- A step that ends and takes a token.
abbrev pub Consumes : {A : Type 0} → Reader A → Type 0
Consumes m = (p : Parser) (n : ℕ) → Ended p → remaining p ≤ n → Runs n (m p)

module _ {A : Type 0} where
  pub Runs-weaken : {m n : ℕ} {r : Result (A × Parser)} → Runs m r → m ≤ n → Runs n r
  Runs-weaken (stopped h k) l = stopped h (omega arith)
  Runs-weaken thrown l = thrown

  pub Consumes-Shrinks : (m : Reader A) → Consumes m → Shrinks m
  Consumes-Shrinks m h p n e k = h p n e (omega arith)

  pub pure-Shrinks : (a : A) → Shrinks (pure a)
  pure-Shrinks a p n e k = stopped e k

module _ {A B : Type 0} where
  pub Runs-bind :
      {k n : ℕ} (r : Result (A × Parser)) (f : A → Reader B)
      → Runs k r
      → ((a : A) (q : Parser) → Ended q → remaining q < k → Runs n (f a q))
      → Runs n (Results.◌>>=◌ r λ (a, q). f a q)
  Runs-bind (returned (a, q)) f (stopped e h) c = c a q e h
  Runs-bind (raised x) f thrown c = thrown
  Runs-bind out_of_fuel f h c = elim h [ ]

  -- A round of a loop: a step that takes a token, and the loop on one unit of fuel less.
  pub round-Runs :
      {f k n : ℕ} (r : Result (A × Parser)) (loop : A → Reader B)
      → Runs k r
      → ((a : A) (q : Parser) (m : ℕ) → Ended q → remaining q < m → m ≤ f → Runs m (loop a q))
      → k < n
      → n ≤ suc f
      → Runs n (Results.◌>>=◌ r λ (a, q). loop a q)
  round-Runs {f} {k} r loop h ih l m =
      Runs-weaken (Runs-bind r loop h (λ a q e l'. ih a q k e l' (omega arith))) (omega arith)

  pub Consumes-bind :
      (m : Reader A) (f : A → Reader B)
      → Consumes m
      → ((a : A) → Shrinks (f a))
      → Consumes (m >>= f)
  Consumes-bind m f h k p n e l = Runs-bind (m p) f (h p n e l) (λ a q e' l'. k a q n e' l')

  pub Shrinks-bind :
      (m : Reader A) (f : A → Reader B) → Shrinks m → ((a : A) → Shrinks (f a)) → Shrinks (m >>= f)
  Shrinks-bind m f h k p n e l = Runs-bind (m p) f (h p n e l) (λ a q e' l'. k a q n e' l')

pub advance-Shrinks : Shrinks advance
unfolding advance
advance-Shrinks p n e l = go p.previous p.current p.following e l
  where
    go :
        (prev t : Token) (ts : List Token)
        → EndsWith t ts
        → length ts < n
        → Runs n (advance (record { previous = prev; current = t; following = ts }))
    go prev t [] e l = stopped e l
    go prev t (u ∷ us) e l = stopped e (omega arith)

module _ (t : TokenType) (ne : same_type t end_of_input ≡ false) where
  -- Where the current token is of a kind that is not END_OF_INPUT, another follows it.
  pub advance-Consumes :
      (p : Parser) (n : ℕ) → Ended p → matches t p ≡ true → remaining p ≤ n → Runs n (advance p)
  unfolding advance
  advance-Consumes p n e m l = go p.previous p.current p.following e m l
    where
      go :
          (prev c : Token) (ts : List Token)
          → EndsWith c ts
          → same_type c.type t ≡ true
          → length ts ≤ n
          → Runs n (advance (record { previous = prev; current = c; following = ts }))
      go prev c [] e m l = absurd (ground arith)
      go prev c (u ∷ us) e m l = stopped e (omega arith)

  pub expect-Consumes : Consumes (expect t)
  unfolding expect
  expect-Consumes p n e l = elim (Bool-cases (matches t p)) [
    | inl m ↦
        rw m (
          Runs-bind (advance p) (λ u. pure p.current) (advance-Consumes p n e m l) (λ a q. stopped))
    | inr m ↦ rw m thrown
  ]

module _ {A : Type 0} where
  pub when_matches-Runs :
      (t : TokenType) (here other : Reader A) (p : Parser) {n : ℕ}
      → (matches t p ≡ true → Runs n (here p))
      → Runs n (other p)
      → Runs n (when_matches t here other p)
  when_matches-Runs t here other p h k = elim (Bool-cases (matches t p)) [
    | inl m ↦ rw (m, when_matches) (h m)
    | inr m ↦ rw (m, when_matches) k
  ]

  pub when_matches-Shrinks :
      (t : TokenType) (here other : Reader A)
      → Shrinks here
      → Shrinks other
      → Shrinks (when_matches t here other)
  when_matches-Shrinks t here other h k p n e l = elim (Bool-cases (matches t p)) [
    | inl m ↦ rw (m, when_matches) (h p n e l)
    | inr m ↦ rw (m, when_matches) (k p n e l)
  ]

  pub when_matches-Consumes :
      (t : TokenType) (here other : Reader A)
      → Consumes here
      → Consumes other
      → Consumes (when_matches t here other)
  when_matches-Consumes t here other h k p n e l = elim (Bool-cases (matches t p)) [
    | inl m ↦ rw (m, when_matches) (h p n e l)
    | inr m ↦ rw (m, when_matches) (k p n e l)
  ]

  -- The step that a token's kind selects, and that passes that token first.
  pub advance_first :
      (t : TokenType)
      → same_type t end_of_input ≡ false
      → (rest : Reader A) → Shrinks rest
      → (p : Parser) (n : ℕ) → Ended p
      → matches t p ≡ true
      → remaining p ≤ n
      → Runs n ((advance >>= λ u. rest) p)
  advance_first t ne rest h p n e m l =
      Runs-bind (advance p) (λ u. rest) (advance-Consumes t ne p n e m l) (λ u q. h q n)
