-- ===== src/SqlTokenizer/Progress/Tokens.antt =====
-- Each token takes at least one byte.
use nexus_db_main.Common.{
  ℕ, suc, ◌+◌, ◌<◌, [], ◌∷◌, Bool, true, false, ◌&&◌, ◌||◌, Bytes, ◌≡◌, refl, arith, length, ◌==◌,
  if◌then◌else◌, Bool-cases, inl, inr, codes,
}
use nexus_db_main.Common.Ascii.{is_alpha, is_digit}
use nexus_db_main.Common.Results.{Result, returned, raised}
use nexus_db_main.SqlTokenizer.Kinds.{
  TokenType, identifier, lparen, rparen, comma, semicolon, star, dot, op_eq, op_le, op_ne, op_lt,
  op_ge, op_gt, end_of_input, type_code, same_type, keyword_type,
}
use nexus_db_main.SqlTokenizer.{
  Scanned, cons_value, symbol, is_word, peek, read_number, read_word, read_identifier_or_keyword,
  less, greater, bang, scan_token, read_number_loop,
}
use nexus_db_main.SqlTokenizer.Progress.{
  Covers, Covers-step, Covers-cons, read_number_loop-Covers, read_string-Covers, read_word-Covers,
  Covers-kind, keyword_type-kind,
}

-- The token begins at `p`, `n` bytes and one more before the end, and takes at least that one.
pub record Advances (n p : ℕ) (s : Scanned) : Type 0 where
  pub covers : Covers (suc n) p s
  pub past : p < s.pos

-- A token that advances, or an exception.
pub data Scans (n p : ℕ) : Result Scanned → Type 0 where
  token : {s : Scanned} → Advances n p s → Scans n p (returned s)
  thrown : {e : Bytes} → Scans n p (raised e)

Advances-step : {n p : ℕ} {s : Scanned} → Covers n (p + 1) s → Advances n p s
Advances-step h = record { covers = Covers-step h; past = omega (arith, h.forward) }

Advances-cons : {n p : ℕ} {s : Scanned} (c : ℕ) → Covers n (p + 1) s → Advances n p (cons_value c s)
Advances-cons c h = record { covers = Covers-cons c h; past = omega (arith, h.forward) }

Advances-if :
    (b : Bool) {n p : ℕ} {s t : Scanned}
    → Advances n p s
    → Advances n p t
    → Advances n p (if b then s else t)
Advances-if true h k = h
Advances-if false h k = k

Scans-if :
    (b : Bool) {n p : ℕ} {x y : Result Scanned}
    → (b ≡ true → Scans n p x)
    → (b ≡ false → Scans n p y)
    → Scans n p (if b then x else y)
Scans-if true h k = h refl
Scans-if false h k = k refl

read_word-Advances :
    (c : ℕ) (cs : Bytes) (p : ℕ) → is_word c ≡ true → Advances (length cs) p (read_word (c ∷ cs) p)
unfolding read_word
read_word-Advances c cs p h = rw (h, read_word) (Advances-cons c (read_word-Covers cs (p + 1)))

read_identifier_or_keyword-Advances :
    (c : ℕ) (cs : Bytes) (p : ℕ)
    → is_word c ≡ true
    → Advances (length cs) p (read_identifier_or_keyword (c ∷ cs) p)
unfolding read_identifier_or_keyword
read_identifier_or_keyword-Advances c cs p h =
    let a = read_word-Advances c cs p h in
    let word = (read_word (c ∷ cs) p).value in
    Advances-if (same_type (keyword_type word) identifier) a
      (record { covers = Covers-kind _ _ a.covers (keyword_type-kind word); past = a.past })

first_digit-Advances :
    (c : ℕ) (cs : Bytes) (p : ℕ)
    → is_digit c ≡ true
    → (c == b'.') ≡ false
    → Advances (length cs) p (read_number_loop false (c ∷ cs) p)
unfolding read_number_loop
first_digit-Advances c cs p d k =
    rw (k, d, read_number_loop) (Advances-cons c (read_number_loop-Covers false cs (p + 1)))

read_number-Advances :
    (c : ℕ) (cs : Bytes) (p : ℕ)
    → (is_digit c || (c == b'-' && is_digit (peek cs))) ≡ true
    → Advances (length cs) p (read_number (c ∷ cs) p)
unfolding read_number
read_number-Advances c cs p h = elim (Bool-cases (c == b'-')) [
  | inl e ↦ rw e (Advances-cons c (read_number_loop-Covers false cs (p + 1)))
  | inr e ↦ rw e (first_digit-Advances c cs p (ground arith) (ground arith))
]

symbol-Scans :
    (t : TokenType) (text : Bytes) (cs : Bytes) (p n : ℕ)
    → same_type t end_of_input ≡ false
    → 0 < length text
    → length text + length cs ≡ suc n
    → Scans n p (symbol t text cs p)
symbol-Scans t text cs p n h k l = token (record {
  covers = record { moved = omega arith; forward = omega arith; kind = h };
  past = omega arith;
})

less-Scans : (cs : Bytes) (p : ℕ) → Scans (length cs) p (less cs p)
unfolding less type_code
less-Scans [] p = symbol-Scans op_lt (codes "<") [] p 0 refl (omega arith) refl
less-Scans (d ∷ cs) p =
    Scans-if (d == b'=')
      (λ e. symbol-Scans op_le (codes "<=") cs p _ refl (omega arith) (omega arith))
      λ e.
        Scans-if (d == b'>')
          (λ e. symbol-Scans op_ne (codes "<>") cs p _ refl (omega arith) (omega arith))
          λ e. symbol-Scans op_lt (codes "<") (d ∷ cs) p _ refl (omega arith) (omega arith)

greater-Scans : (cs : Bytes) (p : ℕ) → Scans (length cs) p (greater cs p)
unfolding greater type_code
greater-Scans [] p = symbol-Scans op_gt (codes ">") [] p 0 refl (omega arith) refl
greater-Scans (d ∷ cs) p =
    Scans-if (d == b'=')
      (λ e. symbol-Scans op_ge (codes ">=") cs p _ refl (omega arith) (omega arith))
      λ e. symbol-Scans op_gt (codes ">") (d ∷ cs) p _ refl (omega arith) (omega arith)

bang-Scans : (cs : Bytes) (p : ℕ) → Scans (length cs) p (bang cs p)
unfolding bang type_code
bang-Scans [] p = thrown
bang-Scans (d ∷ cs) p =
    Scans-if (d == b'=')
      (λ e. symbol-Scans op_ne (codes "!=") cs p _ refl (omega arith) (omega arith)) λ e. thrown

one_byte :
    (t : TokenType) (c : ℕ) (cs : Bytes) (p : ℕ)
    → same_type t end_of_input ≡ false
    → Scans (length cs) p (symbol t (c ∷ []) cs p)
one_byte t c cs p h = symbol-Scans t (c ∷ []) cs p _ h (omega arith) (omega arith)

pub scan_token-Scans : (c : ℕ) (cs : Bytes) (p : ℕ) → Scans (length cs) p (scan_token c cs p)
unfolding scan_token type_code
scan_token-Scans c cs p =
    Scans-if (is_alpha c || c == b'_')
      (λ e. token (read_identifier_or_keyword-Advances c cs p (ground arith)))
      λ e.
        Scans-if (is_digit c || (c == b'-' && is_digit (peek cs)))
          (λ e. token (read_number-Advances c cs p e))
          λ e.
            Scans-if (c == b'\'' || c == b'"')
              (λ e. token (Advances-step (read_string-Covers c cs (p + 1))))
              λ e.
                Scans-if (c == b'(') (λ e. one_byte lparen b'(' cs p refl)
                  λ e.
                    Scans-if (c == b')') (λ e. one_byte rparen b')' cs p refl)
                      λ e.
                        Scans-if (c == b',') (λ e. one_byte comma b',' cs p refl)
                          λ e.
                            Scans-if (c == b';') (λ e. one_byte semicolon b';' cs p refl)
                              λ e.
                                Scans-if (c == b'*') (λ e. one_byte star b'*' cs p refl)
                                  λ e.
                                    Scans-if (c == b'.') (λ e. one_byte dot b'.' cs p refl)
                                      λ e.
                                        Scans-if (c == b'=') (λ e. one_byte op_eq b'=' cs p refl)
                                          λ e.
                                            Scans-if (c == b'<') (λ e. less-Scans cs p)
                                              λ e.
                                                Scans-if (c == b'>') (λ e. greater-Scans cs p)
                                                  λ e.
                                                    Scans-if (c == b'!') (λ e. bang-Scans cs p)
                                                      λ e. thrown
