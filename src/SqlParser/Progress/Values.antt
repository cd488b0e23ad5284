-- ===== src/SqlParser/Progress/Values.antt =====
-- `parse_value`, `parse_condition` and `parse_where` end.
use nexus_db_main.Common.{
  ℕ, zero, suc, ◌≤◌, ◌<◌, [], ◌∷◌, Bytes, Bool, true, false, ◌≡◌, refl, arith, Option, none, some,
  if◌then◌else◌, Bool-cases, Option-cases, ==_refl, inl, inr,
}
use nexus_db_main.Common.Ascii.{is_digit, read_digits, read_signed, read_unsigned, in_range}
use nexus_db_main.Common.Int.{ℤ}
use nexus_db_main.Common.Results
use nexus_db_main.Common.Results.{Result, returned, raised, out_of_fuel, Ensures}
use nexus_db_main.Types.{Value, text, make_int, make_float, make_text, make_bool, make_null}
use nexus_db_main.Types.Floats.{Floats}
use nexus_db_main.SqlTokenizer.Kinds.{
  TokenType, same_type, type_code, end_of_input, integer_lit, float_lit, string_lit, kw_true,
  kw_false, kw_null, kw_and, kw_or, kw_where, identifier, op_eq, op_ne, op_lt, op_gt, op_le, op_ge,
}
use nexus_db_main.SqlParser.Syntax.{CompOp, WhereClause, LogicOp, logic_and, logic_or}
use nexus_db_main.SqlParser.Cursor.{
  Parser, pure, ◌>>=◌, matches, advance, expect, when_matches, remaining,
}
use nexus_db_main.SqlParser.Values.{
  read_double, take_value, parse_value, comp_op, parse_operator, parse_condition, parse_joined,
  parse_conditions, parse_where,
}
use nexus_db_main.SqlParser.Progress.{
  Ended, Runs, stopped, thrown, Consumes, Runs-weaken, Runs-bind, Consumes-bind, Consumes-Shrinks,
  advance-Consumes, advance_first, round-Runs, expect-Consumes, pure-Shrinks, Shrinks-bind,
}

-- The conversion returns or throws.
abbrev pub Decides {ℓ} : {A : Type ℓ} → Result A → Type 0
Decides r = Ensures (λ a. Unit) r

in_range-Decides :
    (name : Bytes) (bound : ℕ) (negative : Bool) (n : ℕ) → Decides (in_range name bound negative n)
unfolding in_range
in_range-Decides name bound negative zero = tt
in_range-Decides name bound negative (suc n) = ground arith

Decides-if : (b : Bool) (x y : Result ℤ) → Decides x → Decides y → Decides (if b then x else y)
Decides-if true x y h k = h
Decides-if false x y h k = k

read_unsigned-Decides :
    (name : Bytes) (bound : ℕ) (negative : Bool) (s : Bytes)
    → Decides (read_unsigned name bound negative s)
unfolding read_unsigned
read_unsigned-Decides name bound negative [] = tt
read_unsigned-Decides name bound negative (c ∷ cs) =
    Decides-if (is_digit c) _ (raised name)
      (in_range-Decides name bound negative (read_digits 0 (c ∷ cs))) tt

pub read_signed-Decides :
    (name : Bytes) (bound : ℕ) (s : Bytes) → Decides (read_signed name bound s)
unfolding read_signed
read_signed-Decides name bound [] = tt
read_signed-Decides name bound (c ∷ cs) = ground (
  arith,
  read_signed-Decides name bound cs,
  read_unsigned-Decides name bound true cs,
  read_unsigned-Decides name bound false cs,
  read_unsigned-Decides name bound false (c ∷ cs),
)

Decides-bind :
    {A : Type 0} (r : Result A) (f : A → Value)
    → Decides r
    → Decides (Results.◌>>=◌ r (λ a. returned (f a)))
Decides-bind (returned a) f d = tt
Decides-bind (raised x) f d = tt
Decides-bind out_of_fuel f d = elim d [ ]

read_double-Decides : (o : Option ℕ) → Decides (read_double o)
read_double-Decides none = tt
read_double-Decides (some v) = tt

take_value-Consumes :
    (t : TokenType)
    → same_type t end_of_input ≡ false
    → (v : Result Value) (p : Parser) (n : ℕ) → Decides v
    → Ended p
    → matches t p ≡ true
    → remaining p ≤ n
    → Runs n (take_value v p)
take_value-Consumes t ne (returned v) p n d e m l =
    Runs-bind (advance p) (λ u. pure v) (advance-Consumes t ne p n e m l) (λ u q. stopped)
take_value-Consumes t ne (raised x) p n d e m l = thrown
take_value-Consumes t ne out_of_fuel p n d e m l = elim d [ ]

Runs-if :
    (b : Bool) {n : ℕ} {x y : Result (Value × Parser)}
    → (b ≡ true → Runs n x)
    → Runs n y
    → Runs n (if b then x else y)
Runs-if true h k = h refl
Runs-if false h k = k

pub parse_value-Consumes : (floats : Floats) → Consumes (parse_value floats)
unfolding parse_value type_code
parse_value-Consumes floats p n e l =
    Runs-if (matches integer_lit p)
      (λ m.
        take_value-Consumes integer_lit refl _ p n
          (Decides-bind _ make_int (read_signed-Decides _ _ p.current.value)) e m l)
      (Runs-if (matches float_lit p)
        (λ m.
          take_value-Consumes float_lit refl _ p n
            (Decides-bind _ make_float (read_double-Decides (floats.stod p.current.value))) e m l)
        (Runs-if (matches string_lit p)
          (λ m.
            take_value-Consumes string_lit refl (returned (make_text p.current.value)) p n tt e m l)
          (Runs-if (matches kw_true p)
            (λ m. take_value-Consumes kw_true refl (returned (make_bool true)) p n tt e m l)
            (Runs-if (matches kw_false p)
              (λ m. take_value-Consumes kw_false refl (returned (make_bool false)) p n tt e m l)
              (Runs-if (matches kw_null p)
                (λ m. take_value-Consumes kw_null refl (returned (make_null text)) p n tt e m l)
                thrown)))))

comp_op_ends :
    (t : TokenType) {op : CompOp} → comp_op t ≡ some op → same_type t end_of_input ≡ false
unfolding comp_op type_code
comp_op_ends op_eq h = refl
comp_op_ends op_ne h = refl
comp_op_ends op_lt h = refl
comp_op_ends op_gt h = refl
comp_op_ends op_le h = refl
comp_op_ends op_ge h = refl
comp_op_ends end_of_input h = cc
comp_op_ends _ h = refl

parse_operator-Consumes : Consumes parse_operator
unfolding parse_operator type_code
parse_operator-Consumes p n e l = elim (Option-cases (comp_op p.current.type)) [
  | inl h ↦ rw (h, parse_operator) thrown
  | inr (op, h) ↦
      rw (h, parse_operator)
        (Runs-bind (advance p) (λ u. pure op)
          (advance-Consumes p.current.type (comp_op_ends p.current.type h) p n e
            (==_refl (type_code p.current.type)) l)
          (λ u q. stopped))
]

pub parse_condition-Consumes : (floats : Floats) → Consumes (parse_condition floats)
unfolding parse_condition type_code
parse_condition-Consumes floats =
    Consumes-bind (expect identifier) _ (expect-Consumes identifier refl) λ col.
      Shrinks-bind parse_operator _ (Consumes-Shrinks parse_operator parse_operator-Consumes) λ op.
        Shrinks-bind (parse_value floats) _
          (Consumes-Shrinks (parse_value floats) (parse_value-Consumes floats)) λ v. pure-Shrinks _

parse_joined-Runs :
    (floats : Floats) (w : WhereClause) (op : LogicOp) (t : TokenType)
    → same_type t end_of_input ≡ false
    → (p : Parser) → Ended p
    → matches t p ≡ true
    → Runs (remaining p) (parse_joined floats w op p)
unfolding parse_joined
parse_joined-Runs floats w op t ne p e m =
    advance_first t ne _
      (Shrinks-bind (parse_condition floats) _
        (Consumes-Shrinks (parse_condition floats) (parse_condition-Consumes floats))
        (λ c. pure-Shrinks _))
      p (remaining p) e m (omega arith)

joined-Runs :
    (floats : Floats) (f : ℕ) (w : WhereClause) (p : Parser) (n : ℕ)
    → ((v : WhereClause) (q : Parser) (k : ℕ)
        → Ended q
        → remaining q < k
        → k ≤ f
        → Runs k (parse_conditions floats f v q))
    → Ended p
    → remaining p < n
    → n ≤ suc f
    → (op : LogicOp) (t : TokenType) → same_type t end_of_input ≡ false
    → matches t p ≡ true
    → Runs n ((parse_joined floats w op >>= λ v. parse_conditions floats f v) p)
joined-Runs floats f w p n ih e l m op t ne h =
    round-Runs (parse_joined floats w op p) (λ v. parse_conditions floats f v)
      (parse_joined-Runs floats w op t ne p e h) ih l m

parse_conditions-Runs :
    (floats : Floats) (f : ℕ) (w : WhereClause) (p : Parser) (n : ℕ)
    → Ended p
    → remaining p < n
    → n ≤ f
    → Runs n (parse_conditions floats f w p)
unfolding parse_conditions type_code
parse_conditions-Runs floats zero w p n e l m = absurd (omega arith)
parse_conditions-Runs floats (suc f) w p n e l m =
    let joined = joined-Runs floats f w p n (λ v q k. parse_conditions-Runs floats f v q k) e l m in
    elim (Bool-cases (matches kw_and p)) [
      | inl h ↦ rw (h, parse_conditions, when_matches) (joined logic_and kw_and refl h)
      | inr h ↦ elim (Bool-cases (matches kw_or p)) [
        | inl g ↦ rw (h, g, parse_conditions, when_matches) (joined logic_or kw_or refl g)
        | inr g ↦ rw (h, g, parse_conditions, when_matches) (stopped e l)
      ]
    ]

pub parse_where-Consumes : (floats : Floats) → Consumes (parse_where floats)
unfolding parse_where type_code
parse_where-Consumes floats = Consumes-bind (expect kw_where) _ (expect-Consumes kw_where refl) λ t.
    Shrinks-bind (parse_condition floats) _
      (Consumes-Shrinks (parse_condition floats) (parse_condition-Consumes floats))
      λ c p n e l.
        Runs-weaken
          (parse_conditions-Runs floats (suc (remaining p)) _ p (suc (remaining p)) e (omega arith)
            (omega arith))
          (omega arith)
