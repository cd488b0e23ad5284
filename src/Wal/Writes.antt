-- ===== src/Wal/Writes.antt =====
-- `write_all` appends a front of its bytes, and all of them if it succeeds.
use nexus_db_main.Common.{
  ℕ, zero, suc, List, [], ◌∷◌, ◌++◌, Bool, true, false, Bytes, ◌≡◌, refl, sym, take, drop,
  append-nil, append_assoc, take-append-drop, ap, subst,
}
use nexus_db_main.Wal.{write_all}

pub record WritesFront (bytes file : Bytes) (r : Bool × Bytes × List ℕ) : Type 0 where
  pub front : Bytes
  pub left : Bytes
  pub whole : front ++ left ≡ bytes
  pub written : r.1 ≡ file ++ front
  pub all : r.0 ≡ true → left ≡ []

nothing_written :
    (bytes file : Bytes) (b : Bool) (ns : List ℕ)
    → (b ≡ true → bytes ≡ [])
    → WritesFront bytes file (b, file, ns)
nothing_written bytes file b ns h = record {
  front = [];
  left = bytes;
  whole = refl;
  written = sym (append-nil file);
  all = h;
}

-- A chunk written before the rest.
chunk_first :
    (chunk bytes file : Bytes) (r : Bool × Bytes × List ℕ)
    → WritesFront bytes (file ++ chunk) r
    → WritesFront (chunk ++ bytes) file r
chunk_first chunk bytes file r w = record {
  front = chunk ++ w.front;
  left = w.left;
  whole = rw (append_assoc, w.whole);
  written = rw (w.written, append_assoc);
  all = w.all;
}

pub write_all_front :
    (ns : List ℕ) (bytes file : Bytes) → WritesFront bytes file (write_all ns bytes file)
unfolding write_all
write_all_front [] [] file = nothing_written [] file true [] (λ _. refl)
write_all_front [] (x ∷ xs) file = nothing_written (x ∷ xs) file false [] (λ e. cc)
write_all_front (zero ∷ ns) [] file = nothing_written [] file true (zero ∷ ns) (λ _. refl)
write_all_front (zero ∷ ns) (x ∷ xs) file = nothing_written (x ∷ xs) file false ns (λ e. cc)
write_all_front (suc n ∷ ns) [] file = nothing_written [] file true (suc n ∷ ns) (λ _. refl)
write_all_front (suc n ∷ ns) (x ∷ xs) file =
    subst (λ bytes. WritesFront bytes file (write_all ns (drop n xs) (file ++ x ∷ take n xs)))
      (ap (λ (t : Bytes). x ∷ t) (take-append-drop n xs))
      (chunk_first (x ∷ take n xs) (drop n xs) file _
        (write_all_front ns (drop n xs) (file ++ x ∷ take n xs)))
