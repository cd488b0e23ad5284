-- ===== src/SqlTokenizer/Progress/Rounds.antt =====
-- The loop of `tokenize` ends on every input, with tokens at ascending positions.
use nexus_db_main.Common.{
  ℕ, zero, suc, ◌+◌, ◌≤◌, ◌<◌, List, [], ◌∷◌, false, Bytes, ◌≡◌, refl, arith, length,
}
use nexus_db_main.Common.Results.{Result, returned, Ensures, Ensures-bind, ◌>>=◌}
use nexus_db_main.SqlTokenizer.Kinds.{end_of_input, same_type}
use nexus_db_main.SqlTokenizer.Progress.{skip_whitespace-pos}
use nexus_db_main.SqlTokenizer.Progress.Tokens.{Scans, token, thrown, scan_token-Scans}
use nexus_db_main.SqlTokenizer.{
  Token, Cursor, Scanned, skip_whitespace, scan_token, token_at, tokenize_round, tokenize_loop,
  tokenize,
}

-- Tokens at ascending positions from `low`, then END_OF_INPUT, which stands nowhere else, at `high`.
pub data Ascending (high : ℕ) : ℕ → List Token → Type 0 where
  finish :
      {low : ℕ} {t : Token}
      → t.type ≡ end_of_input
      → t.position ≡ high
      → Ascending high low (t ∷ [])
  more :
      {low : ℕ} {t : Token} {ts : List Token}
      → low ≤ t.position
      → t.position < high
      → same_type t.type end_of_input ≡ false
      → Ascending high (t.position + 1) ts
      → Ascending high low (t ∷ ts)

module _ (high : ℕ) where
  -- The loop that a round goes on with, on the rest of the input.
  abbrev Continues : ℕ → (Cursor → Result (List Token)) → Type 0
  Continues n next =
      (cs : Bytes) (p low : ℕ)
      → length cs ≤ n
      → low ≤ p
      → p + length cs ≡ high
      → Ensures (Ascending high low) (next (record { rest = cs; pos = p }))

  tokenize_round-Ascending :
      (next : Cursor → Result (List Token)) (cs : Bytes) (p low n : ℕ)
      → Continues n next
      → length cs ≤ suc n
      → low ≤ p
      → p + length cs ≡ high
      → Ensures (Ascending high low) (tokenize_round next cs p)
  unfolding tokenize_round
  tokenize_round-Ascending next [] p low n k h l e = finish refl (omega arith)
  tokenize_round-Ascending next (c ∷ cs) p low n k h l e =
      go (scan_token c cs p) (scan_token-Scans c cs p)
    where
      go :
          (r : Result Scanned)
          → Scans (length cs) p r
          → Ensures (Ascending high low) (
              r >>= λ s. next (record { rest = s.rest; pos = s.pos }) >>= λ tokens.
              returned (token_at p s ∷ tokens))
      go (returned s) (token a) =
          let c = a.covers in
          Ensures-bind _ _ (next (record { rest = s.rest; pos = s.pos })) _
            (k s.rest s.pos (p + 1) (omega (arith, c.moved, a.past)) (omega (arith, a.past))
              (omega (arith, c.moved)))
            (λ tokens ascending. more l (omega (arith, c.moved, a.past)) c.kind ascending)
      go _ thrown = tt

  tokenize_round_empty :
      (next : Cursor → Result (List Token)) (cs : Bytes) (p low : ℕ)
      → length cs ≤ 0
      → p + length cs ≡ high
      → Ensures (Ascending high low) (tokenize_round next cs p)
  unfolding tokenize_round
  tokenize_round_empty next [] p low h e = finish refl (omega arith)
  tokenize_round_empty next (c ∷ cs) p low h e = absurd (omega arith)

  tokenize_loop-Ascending : (f : ℕ) → Continues f (λ at. tokenize_loop (suc f) at)
  unfolding tokenize_loop
  tokenize_loop-Ascending zero cs p low h l e =
      let at = skip_whitespace cs p in
      let (moved, forward) = skip_whitespace-pos cs p in
      tokenize_round_empty _ at.rest at.pos low (omega arith) (omega arith)
  tokenize_loop-Ascending (suc f) cs p low h l e =
      let at = skip_whitespace cs p in
      let (moved, forward) = skip_whitespace-pos cs p in
      tokenize_round-Ascending _ at.rest at.pos low f (tokenize_loop-Ascending f) (omega arith)
        (omega arith) (omega arith)

-- `tokenize` ends on every input: it throws, or its tokens stand at ascending positions inside the
-- input, followed by one END_OF_INPUT, at the length of the input.
pub tokenize-Ascending : (input : Bytes) → Ensures (Ascending (length input) 0) (tokenize input)
unfolding tokenize
tokenize-Ascending input =
    tokenize_loop-Ascending (length input) (length input) input 0 0 (omega arith) (omega arith)
      (omega arith)
