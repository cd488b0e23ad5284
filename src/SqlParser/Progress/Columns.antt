-- ===== src/SqlParser/Progress/Columns.antt =====
-- `parse_column_type` and the loops of `parse_create_table` end.
use nexus_db_main.Common.{
  ℕ, zero, suc, ◌≤◌, ◌<◌, Bytes, true, false, ◌||◌, ◌≡◌, refl, arith, Bool-cases, inl, inr,
}
use nexus_db_main.Types.{text}
use nexus_db_main.Schema.{ColumnDef}
use nexus_db_main.SqlTokenizer.Kinds.{
  TokenType, same_type, type_code, end_of_input, kw_int, kw_integer, kw_float, kw_real, kw_double,
  kw_text, kw_string, kw_varchar, kw_bool, kw_boolean, lparen, rparen, comma, kw_primary, kw_key,
  kw_not, kw_null, identifier,
}
use nexus_db_main.SqlParser.Cursor.{
  Parser, pure, ◌>>◌, matches, at_end, advance, expect, when_matches, remaining,
}
use nexus_db_main.SqlParser.Columns.{
  skip_length, column_type, parse_column_type, Created, parse_constraints, parse_primary_key,
  parse_column, skip_comma, parse_columns,
}
use nexus_db_main.SqlParser.Progress.{
  Ended, Runs, stopped, thrown, Shrinks, Consumes, Runs-weaken, Runs-bind, Consumes-bind,
  Consumes-Shrinks, advance-Consumes, advance-Shrinks, advance_first, round-Runs, expect-Consumes,
  pure-Shrinks, Shrinks-bind, when_matches-Shrinks,
}

pub expect-Shrinks : (t : TokenType) → same_type t end_of_input ≡ false → Shrinks (expect t)
expect-Shrinks t ne = Consumes-Shrinks (expect t) (expect-Consumes t ne)

pub skip_comma-Shrinks : Shrinks skip_comma
skip_comma-Shrinks = when_matches-Shrinks comma advance (pure tt) advance-Shrinks (pure-Shrinks tt)

skip_length-Shrinks : Shrinks skip_length
unfolding skip_length type_code
skip_length-Shrinks =
    when_matches-Shrinks lparen _ (pure text)
      (Shrinks-bind advance _ advance-Shrinks λ u.
        Shrinks-bind advance _ advance-Shrinks
          λ u. Shrinks-bind (expect rparen) _ (expect-Shrinks rparen refl) λ t. pure-Shrinks text)
      (pure-Shrinks text)

column_type-Shrinks : (t : TokenType) → Shrinks (column_type t)
unfolding column_type
column_type-Shrinks kw_int = pure-Shrinks _
column_type-Shrinks kw_integer = pure-Shrinks _
column_type-Shrinks kw_float = pure-Shrinks _
column_type-Shrinks kw_real = pure-Shrinks _
column_type-Shrinks kw_double = pure-Shrinks _
column_type-Shrinks kw_text = skip_length-Shrinks
column_type-Shrinks kw_string = skip_length-Shrinks
column_type-Shrinks kw_varchar = skip_length-Shrinks
column_type-Shrinks kw_bool = pure-Shrinks _
column_type-Shrinks kw_boolean = pure-Shrinks _
column_type-Shrinks _ = λ p n e l. thrown

parse_column_type-Shrinks : Shrinks parse_column_type
unfolding parse_column_type
parse_column_type-Shrinks p n e l =
    Runs-bind (advance p) (λ u. column_type p.current.type) (advance-Shrinks p n e l)
      (λ u q. column_type-Shrinks p.current.type q n)

-- Past the first token of a constraint, its second, and the loop behind.
constraint-Runs :
    (f n : ℕ) (t next : TokenType)
    → same_type t end_of_input ≡ false
    → same_type next end_of_input ≡ false
    → (p : Parser) (col : ColumnDef) (pk : Bytes)
    → ((q : Parser) (k : ℕ)
        → Ended q
        → remaining q < k
        → k ≤ f
        → Runs k (parse_constraints f col pk q))
    → Ended p
    → matches t p ≡ true
    → remaining p < n
    → n ≤ suc f
    → Runs n ((advance >> (expect next >> parse_constraints f col pk)) p)
constraint-Runs f n t next ne ne' p col pk ih e h l m =
    round-Runs (advance p) (λ u. expect next >> parse_constraints f col pk)
      (advance-Consumes t ne p (remaining p) e h (omega arith))
      (λ u q k e' l' m'.
        Runs-bind (expect next q) (λ t. parse_constraints f col pk)
          (expect-Shrinks next ne' q k e' l') (λ t r e'' l''. ih r k e'' l'' m'))
      l m

parse_constraints-Runs :
    (f : ℕ) (col : ColumnDef) (pk : Bytes) (p : Parser) (n : ℕ)
    → Ended p
    → remaining p < n
    → n ≤ f
    → Runs n (parse_constraints f col pk p)
unfolding parse_constraints type_code
parse_constraints-Runs zero col pk p n e l m = absurd (omega arith)
parse_constraints-Runs (suc f) col pk p n e l m =
    elim (Bool-cases (matches comma p || matches rparen p || at_end p)) [
      | inl h ↦ rw (h, parse_constraints) (stopped e l)
      | inr h ↦
          rw (h, parse_constraints)
            (elim (Bool-cases (matches kw_primary p)) [
              | inl g ↦
                  rw (g, when_matches)
                    (constraint-Runs f n kw_primary kw_key refl refl p _ _
                      (λ q k. parse_constraints-Runs f _ _ q k) e g l m)
              | inr g ↦ elim (Bool-cases (matches kw_not p)) [
                | inl i ↦
                    rw (g, i, when_matches)
                      (constraint-Runs f n kw_not kw_null refl refl p _ _
                        (λ q k. parse_constraints-Runs f _ _ q k) e i l m)
                | inr i ↦ rw (g, i, when_matches) (stopped e l)
              ]
            ])
    ]

parse_primary_key-Runs :
    (made : Created) (p : Parser)
    → Ended p
    → matches kw_primary p ≡ true
    → Runs (remaining p) (parse_primary_key made p)
unfolding parse_primary_key type_code
parse_primary_key-Runs made p e h =
    advance_first kw_primary refl _
      (Shrinks-bind (expect kw_key) _ (expect-Shrinks kw_key refl) λ t.
        Shrinks-bind (expect lparen) _ (expect-Shrinks lparen refl) λ t.
          Shrinks-bind (expect identifier) _ (expect-Shrinks identifier refl)
            λ pk. Shrinks-bind (expect rparen) _ (expect-Shrinks rparen refl) λ t. pure-Shrinks _)
      p (remaining p) e h (omega arith)

parse_column-Consumes : (made : Created) → Consumes (parse_column made)
unfolding parse_column type_code
parse_column-Consumes made =
    Consumes-bind (expect identifier) _ (expect-Consumes identifier refl) λ name.
      Shrinks-bind parse_column_type _ parse_column_type-Shrinks λ t.
        Shrinks-bind
          (λ p.
            parse_constraints (suc (remaining p))
              (record { name = name.value; type = t; not_null = false; is_primary_key = false })
              made.primary_key p)
          _
          (λ p n e l.
            Runs-weaken
              (parse_constraints-Runs (suc (remaining p)) _ _ p (suc (remaining p)) e (omega arith)
                (omega arith))
              (omega arith))
          λ c. pure-Shrinks _

next_column-Runs :
    (made : Created) (p : Parser)
    → Ended p
    → Runs (remaining p) (when_matches kw_primary (parse_primary_key made) (parse_column made) p)
next_column-Runs made p e = elim (Bool-cases (matches kw_primary p)) [
  | inl h ↦ rw (h, when_matches) (parse_primary_key-Runs made p e h)
  | inr h ↦ rw (h, when_matches) (parse_column-Consumes made p (remaining p) e (omega arith))
]

parse_columns-Runs :
    (f : ℕ) (made : Created) (p : Parser) (n : ℕ)
    → Ended p
    → remaining p < n
    → n ≤ f
    → Runs n (parse_columns f made p)
unfolding parse_columns
parse_columns-Runs zero made p n e l m = absurd (omega arith)
parse_columns-Runs (suc f) made p n e l m = elim (Bool-cases (matches rparen p || at_end p)) [
  | inl h ↦ rw (h, parse_columns) (stopped e l)
  | inr h ↦
      rw (h, parse_columns)
        (round-Runs (when_matches kw_primary (parse_primary_key made) (parse_column made) p)
          (λ next. skip_comma >> parse_columns f next) (next_column-Runs made p e)
          (λ next q k e' l' m'.
            Runs-bind (skip_comma q) (λ u. parse_columns f next) (skip_comma-Shrinks q k e' l')
              (λ u r e'' l''. parse_columns-Runs f next r k e'' l'' m'))
          l m)
]

pub parse_columns-Shrinks :
    (made : Created) → Shrinks (λ p. parse_columns (suc (remaining p)) made p)
parse_columns-Shrinks made p n e l =
    Runs-weaken
      (parse_columns-Runs (suc (remaining p)) made p (suc (remaining p)) e (omega arith)
        (omega arith))
      (omega arith)
