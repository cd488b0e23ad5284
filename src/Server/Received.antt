-- ===== src/Server/Received.antt =====
-- What is received does not depend on how the connection cuts it up.
use nexus_db_main.Common.{
  ℕ, zero, suc, ◌+◌, ◌-◌, ◌≤◌, ◌<◌, min, [], ◌∷◌, ◌++◌, Bytes, true, false, Option, none, some,
  length, take, drop, ◌==◌, ◌≡◌, refl, ◌∙◌, sym, ap, arith, Bool-cases, inl, inr, length-take,
  Option-cases,
}
use nexus_db_main.Common.Reads.{read_exactly, read_exactly_short}
use nexus_db_main.Server.Sockets.{Socket, recv, recv_loop, recv_all}

-- The bytes received and those still to come.
abbrev pub taken : Option (Bytes × Socket) → Option (Bytes × Bytes)
taken none = none
taken (some (bytes, s)) = some (bytes, s.incoming)

abbrev joined : Bytes → Option (Bytes × Bytes) → Option (Bytes × Bytes)
joined front none = none
joined front (some (more, rest)) = some (front ++ more, rest)

joined-cons :
    (x : ℕ) (xs : Bytes) (o : Option (Bytes × Bytes))
    → joined (x ∷ []) (joined xs o) ≡ joined (x ∷ xs) o
joined-cons x xs none = refl
joined-cons x xs (some (more, rest)) = refl

read_exactly-cons :
    (n x : ℕ) (xs : Bytes) → read_exactly (suc n) (x ∷ xs) ≡ joined (x ∷ []) (read_exactly n xs)
unfolding read_exactly
read_exactly-cons n x xs = elim (Option-cases (read_exactly n xs)) [
  | inl e ↦ rw (e, read_exactly) refl
  | inr ((ys, rest), e) ↦ rw (e, read_exactly) refl
]

joined-nil : (o : Option (Bytes × Bytes)) → joined [] o ≡ o
joined-nil none = refl
joined-nil (some (more, rest)) = refl

read_exactly-take :
    (n k len : ℕ) (xs : Bytes)
    → len ≡ length (take n xs) + k
    → read_exactly len xs ≡ joined (take n xs) (read_exactly k (drop n xs))
read_exactly-take zero k len xs h =
    ap (λ m. read_exactly m xs) (the_same h) ∙ sym (joined-nil (read_exactly k xs))
  where
    the_same : len ≡ 0 + k → len ≡ k
    the_same e = omega arith
read_exactly-take (suc n) k len [] h =
    ap (λ m. read_exactly m []) (the_same h) ∙ sym (joined-nil (read_exactly k []))
  where
    the_same : len ≡ 0 + k → len ≡ k
    the_same e = omega arith
read_exactly-take (suc n) k zero (x ∷ xs) h = absurd (omega arith)
read_exactly-take (suc n) k (suc len) (x ∷ xs) h =
    read_exactly-cons len x xs
    ∙ (ap (joined (x ∷ [])) (read_exactly-take n k len xs (omega arith))
        ∙ joined-cons x (take n xs) (read_exactly k (drop n xs)))

taken-joined :
    (front : Bytes) (o : Option (Bytes × Socket))
    → taken (elim o [ none ↦ none | some (more, s) ↦ some (front ++ more, s) ])
      ≡ joined front (taken o)
taken-joined front none = refl
taken-joined front (some (more, s)) = refl

is_zero : (m : ℕ) → (m == 0) ≡ true → m ≡ 0
is_zero m h = ground arith

not_zero : (m : ℕ) → (m == 0) ≡ false → 0 < m
not_zero m h = ground arith

recv_loop-taken :
    (f len : ℕ) (s : Socket) → len ≤ f → taken (recv_loop f len s) ≡ read_exactly len s.incoming
unfolding recv_loop read_exactly recv
recv_loop-taken zero zero s h = refl
recv_loop-taken zero (suc len) s h = absurd (omega arith)
recv_loop-taken (suc f) zero s h = refl
recv_loop-taken (suc f) (suc len) s h =
    let n : ℕ = min (suc len) (1 + s.received s.calls) in
    let front : Bytes = take n s.incoming in
    let s₁ : Socket = record s { incoming = drop n s.incoming; calls = suc s.calls } in
    let k : ℕ = suc len - length front in
    let cut = length-take n s.incoming in
    elim (Bool-cases (length front == 0)) [
      | inl e ↦
          rw (e, recv_loop)
            (sym (
              read_exactly_short (suc len) s.incoming
                (omega (arith, cut, is_zero (length front) e))))
      | inr e ↦
          rw (e, recv_loop)
            (taken-joined front (recv_loop f k s₁)
              ∙ (ap (joined front)
                    (recv_loop-taken f k s₁ (omega (arith, cut, not_zero (length front) e)))
                  ∙ sym (read_exactly-take n k (suc len) s.incoming (omega (arith, cut)))))
    ]

-- However the operating system cuts up the bytes of a connection, `recv_all` gets the next `len` of
-- them and leaves the rest, or fails if the peer closes before.
pub recv_all-read_exactly :
    (len : ℕ) (s : Socket) → taken (recv_all len s) ≡ read_exactly len s.incoming
unfolding recv_all
recv_all-read_exactly len s = recv_loop-taken len len s (omega arith)
