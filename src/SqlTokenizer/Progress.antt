-- ===== src/SqlTokenizer/Progress.antt =====
-- Every token takes at least one byte, so `tokenize` ends, and the positions ascend.
pub mod Tokens
pub mod Rounds
use nexus_db_main.Common.{
  ℕ, zero, suc, ◌+◌, ◌≤◌, ◌<◌, map, List, [], ◌∷◌, Bool, true, false, Bytes, ◌≡◌, refl, subst,
  arith, length, ◌==◌, if◌then◌else◌, Bool-cases, inl, inr,
}
use nexus_db_main.Common.Ascii.{is_space, is_digit, to_upper}
use nexus_db_main.Common.Results.{Result, returned, raised, out_of_fuel, Ensures, Ensures-bind}
use nexus_db_main.SqlTokenizer.Kinds.{
  TokenType, identifier, integer_lit, float_lit, string_lit, end_of_input, type_code, same_type,
  keyword_type, keywords, first_keyword, Keyword,
}
use nexus_db_main.SqlTokenizer.{
  Token, Cursor, Scanned, cons_value, skip_whitespace, read_number_loop, read_number, read_string,
  read_word, is_word, read_identifier_or_keyword, less, greater, bang, scan_token, tokenize_round,
  tokenize_loop, tokenize,
}

-- The cursor moved from `p`, `n` bytes before the end, to the end of what was scanned.
pub record Covers (n p : ℕ) (s : Scanned) : Type 0 where
  pub moved : s.pos + length s.rest ≡ p + n
  pub forward : p ≤ s.pos
  pub kind : same_type s.type end_of_input ≡ false

pub Covers-cons :
    {n p : ℕ} {s : Scanned} (c : ℕ) → Covers n (p + 1) s → Covers (suc n) p (cons_value c s)
Covers-cons c h = record {
  moved = omega (arith, h.moved);
  forward = omega (arith, h.forward);
  kind = h.kind;
}

pub Covers-here :
    (t : TokenType) (cs : Bytes) (p : ℕ)
    → same_type t end_of_input ≡ false
    → Covers (length cs) p (record { type = t; value = []; rest = cs; pos = p })
Covers-here t cs p h = record { moved = refl; forward = omega arith; kind = h }

-- A byte that the text does not keep.
pub Covers-step : {n p : ℕ} {s : Scanned} → Covers n (p + 1) s → Covers (suc n) p s
Covers-step h = record {
  moved = omega (arith, h.moved);
  forward = omega (arith, h.forward);
  kind = h.kind;
}

Covers-at : {n p q : ℕ} {s : Scanned} → p ≡ q → Covers n p s → Covers n q s
Covers-at {n} {s = s} e h = subst (λ x. Covers n x s) e h

Covers-split :
    (b : Bool) {n p : ℕ} {s t : Scanned}
    → Covers n p s
    → Covers n p t
    → Covers n p (elim b [ true ↦ s | false ↦ t ])
Covers-split true h k = h
Covers-split false h k = k

pub Covers-if :
    (b : Bool) {n p : ℕ} {s t : Scanned}
    → Covers n p s
    → Covers n p t
    → Covers n p (if b then s else t)
Covers-if true h k = h
Covers-if false h k = k

pub skip_whitespace-pos :
    (cs : Bytes) (p : ℕ)
    → ((skip_whitespace cs p).pos + length (skip_whitespace cs p).rest ≡ p + length cs)
      × (p ≤ (skip_whitespace cs p).pos)
unfolding skip_whitespace
skip_whitespace-pos [] p = ground arith
skip_whitespace-pos (c ∷ cs) p = ground (arith, skip_whitespace-pos cs (p + 1))

pub read_number_loop-Covers :
    (has_dot : Bool) (cs : Bytes) (p : ℕ) → Covers (length cs) p (read_number_loop has_dot cs p)
unfolding read_number_loop type_code
read_number_loop-Covers true [] p = Covers-here float_lit [] p refl
read_number_loop-Covers false [] p = Covers-here integer_lit [] p refl
read_number_loop-Covers true (c ∷ cs) p =
    Covers-split (c == b'.') (Covers-here float_lit (c ∷ cs) p refl) (
      Covers-split (is_digit c) (Covers-cons c (read_number_loop-Covers true cs (p + 1)))
        (Covers-here float_lit (c ∷ cs) p refl))
read_number_loop-Covers false (c ∷ cs) p =
    Covers-split (c == b'.') (Covers-cons c (read_number_loop-Covers true cs (p + 1))) (
      Covers-split (is_digit c) (Covers-cons c (read_number_loop-Covers false cs (p + 1)))
        (Covers-here integer_lit (c ∷ cs) p refl))

pub read_string-Covers :
    (quote : ℕ) (cs : Bytes) (p : ℕ) → Covers (length cs) p (read_string quote cs p)
unfolding read_string type_code
read_string-Covers quote [] p = Covers-here string_lit [] p refl
read_string-Covers quote (c ∷ []) p =
    Covers-if (c == quote) (Covers-step (Covers-here string_lit [] (p + 1) refl))
      (Covers-cons c (Covers-here string_lit [] (p + 1) refl))
read_string-Covers quote (c ∷ d ∷ cs) p =
    Covers-split (c == quote)
      (Covers-split (d == quote)
        (Covers-cons quote
          (Covers-step (Covers-at (omega arith) (read_string-Covers quote cs (p + 2)))))
        (Covers-step (Covers-here string_lit (d ∷ cs) (p + 1) refl)))
      (Covers-cons c (read_string-Covers quote (d ∷ cs) (p + 1)))

pub read_word-Covers : (cs : Bytes) (p : ℕ) → Covers (length cs) p (read_word cs p)
unfolding read_word type_code
read_word-Covers [] p = Covers-here identifier [] p refl
read_word-Covers (c ∷ cs) p =
    Covers-split (is_word c) (Covers-cons c (read_word-Covers cs (p + 1)))
      (Covers-here identifier (c ∷ cs) p refl)

abbrev none_ends : List Keyword → Bool
none_ends [] = true
none_ends (k ∷ ks) = if same_type k.kind end_of_input then false else none_ends ks

first_keyword-kind :
    (ks : List Keyword) (word : Bytes)
    → none_ends ks ≡ true
    → same_type (first_keyword ks word) end_of_input ≡ false
unfolding first_keyword type_code
first_keyword-kind [] word h = refl
first_keyword-kind (k ∷ ks) word h = ground (arith, first_keyword-kind ks word)

pub keyword_type-kind : (word : Bytes) → same_type (keyword_type word) end_of_input ≡ false
unfolding keyword_type keywords type_code
keyword_type-kind word = first_keyword-kind keywords (map to_upper word) refl

pub Covers-kind :
    {n p : ℕ} {s : Scanned} (t : TokenType) (v : Bytes)
    → Covers n p s
    → same_type t end_of_input ≡ false
    → Covers n p (record s { type = t; value = v })
Covers-kind t v h k = record { moved = h.moved; forward = h.forward; kind = k }

read_identifier_or_keyword-Covers :
    (cs : Bytes) (p : ℕ) → Covers (length cs) p (read_identifier_or_keyword cs p)
unfolding read_identifier_or_keyword
read_identifier_or_keyword-Covers cs p =
    Covers-if (same_type (keyword_type (read_word cs p).value) identifier) (read_word-Covers cs p)
      (Covers-kind _ _ (read_word-Covers cs p) (keyword_type-kind (read_word cs p).value))
