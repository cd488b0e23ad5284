-- ===== src/Engine/Loading/Order.antt =====
-- The engine takes the files from the newest to the oldest, and the next number is a fresh one.
use nexus_db_main.Common.{
  ℕ, ◌+◌, ◌≤◌, ◌<◌, ◌^◌, List, [], ◌∷◌, ◌++◌, false, Option, none, some, All, All-append, ltb, ◌≡◌,
  arith, Bool-cases, inl, inr, ltb→lt, add_u64-eq,
}
use nexus_db_main.SsTable.Reader.{SsTableReader, open_file}
use nexus_db_main.Engine.Loading.{
  StoredFile, Numbered, found_files, insert_file, sort_files, Loaded, push_reader, load_files,
  next_after, load_sstables,
}

-- From the greatest to the least.
abbrev pub IsDescending : List ℕ → Type 0
IsDescending [] = Unit
IsDescending (n ∷ ns) = All (λ m. m ≤ n) ns × IsDescending ns

abbrev AreSorted : List Numbered → Type 0
AreSorted [] = Unit
AreSorted (x ∷ xs) = All (λ (y : Numbered). y.seq ≤ x.seq) xs × AreSorted xs

abbrev pub IsCounted : Numbered → Type 0
IsCounted x = x.seq + 1 < 2 ^ 64

All-weaken :
    {A : Type 0} (P Q : A → Type 0) (xs : List A) → ((x : A) → P x → Q x) → All P xs → All Q xs
All-weaken P Q [] f h = tt
All-weaken P Q (x ∷ xs) f h = (f x h.0, All-weaken P Q xs f h.1)

insert_file-All :
    (P : Numbered → Type 0) (x : Numbered) (xs : List Numbered)
    → P x
    → All P xs
    → All P (insert_file x xs)
unfolding insert_file
insert_file-All P x [] h k = (h, tt)
insert_file-All P x (y ∷ ys) h k = ground (arith, insert_file-All P x ys h k.1)

sort_files-All : (P : Numbered → Type 0) (xs : List Numbered) → All P xs → All P (sort_files xs)
unfolding sort_files
sort_files-All P [] h = tt
sort_files-All P (x ∷ xs) h = insert_file-All P x (sort_files xs) h.0 (sort_files-All P xs h.1)

not_below : (a b : ℕ) → ltb a b ≡ false → b ≤ a
not_below a b h = ground arith

insert_file-AreSorted :
    (x : Numbered) (xs : List Numbered) → AreSorted xs → AreSorted (insert_file x xs)
unfolding insert_file
insert_file-AreSorted x [] h = (tt, tt)
insert_file-AreSorted x (y ∷ ys) h = elim (Bool-cases (ltb x.seq y.seq)) [
  | inl e ↦
      rw (e, insert_file)
        (
          insert_file-All (λ z. z.seq ≤ y.seq) x ys (omega (arith, ltb→lt x.seq y.seq e)) h.0,
          insert_file-AreSorted x ys h.1,
        )
  | inr e ↦
      rw (e, insert_file)
        (
          (
            not_below x.seq y.seq e,
            All-weaken _ _ ys (λ z l. omega (arith, l, not_below x.seq y.seq e)) h.0,
          ),
          h,
        )
]

sort_files-AreSorted : (xs : List Numbered) → AreSorted (sort_files xs)
unfolding sort_files
sort_files-AreSorted [] = tt
sort_files-AreSorted (x ∷ xs) = insert_file-AreSorted x (sort_files xs) (sort_files-AreSorted xs)

append-IsDescending :
    (ns : List ℕ) (n : ℕ) → IsDescending ns → All (λ m. n ≤ m) ns → IsDescending (ns ++ (n ∷ []))
append-IsDescending [] n h k = (tt, tt)
append-IsDescending (m ∷ ns) n h k =
    (All-append (λ l. l ≤ m) ns (n ∷ []) h.0 (k.0, tt), append-IsDescending ns n h.1 k.1)

-- The loaded numbers descend, lie above those to come, and below the next one.
record IsFresh (xs : List Numbered) (loaded : Loaded) : Type 0 where
  descending : IsDescending loaded.seqs
  above : All (λ s. All (λ (x : Numbered). x.seq ≤ s) xs) loaded.seqs
  below : All (λ s. s < loaded.next_seq) loaded.seqs

next_after_bounds :
    (seq next : ℕ) → seq + 1 < 2 ^ 64 → (seq < next_after seq next) × (next ≤ next_after seq next)
next_after_bounds seq next c = elim (Bool-cases (ltb seq next)) [
  | inl e ↦ rw (e) (ltb→lt seq next e, omega arith)
  | inr e ↦ rw (e, add_u64-eq seq 1 c) (omega arith, omega (arith, not_below seq next e))
]

push_reader-IsFresh :
    (x : Numbered) (xs : List Numbered) (loaded : Loaded) (reader : Option SsTableReader)
    → AreSorted (x ∷ xs)
    → IsCounted x
    → IsFresh (x ∷ xs) loaded
    → IsFresh xs (push_reader x.seq loaded reader)
push_reader-IsFresh x xs loaded none s c h = record {
  descending = h.descending;
  above = All-weaken _ _ loaded.seqs (λ n k. k.1) h.above;
  below = h.below;
}
push_reader-IsFresh x xs loaded (some reader) s c h = record {
  descending =
      append-IsDescending loaded.seqs x.seq h.descending
        (All-weaken _ _ loaded.seqs (λ n k. k.0) h.above);
  above =
      All-append _ loaded.seqs (x.seq ∷ []) (All-weaken _ _ loaded.seqs (λ n k. k.1) h.above)
        (s.0, tt);
  below =
      All-append _ loaded.seqs (x.seq ∷ [])
        (All-weaken _ _ loaded.seqs
          (λ n k. omega (arith, k, (next_after_bounds x.seq loaded.next_seq c).1)) h.below)
        ((next_after_bounds x.seq loaded.next_seq c).0, tt);
}

load_files-IsFresh :
    (xs : List Numbered) (loaded : Loaded)
    → AreSorted xs
    → All IsCounted xs
    → IsFresh xs loaded
    → IsFresh [] (load_files xs loaded)
unfolding load_files
load_files-IsFresh [] loaded s c h = h
load_files-IsFresh (x ∷ xs) loaded s c h =
    load_files-IsFresh xs (push_reader x.seq loaded (open_file x.contents)) s.1 c.1
      (push_reader-IsFresh x xs loaded (open_file x.contents) s c.0 h)

-- When the numbers of the files that are found stay below the end of 64 bits by at least two, the
-- numbers of the files that `load_sstables` opens descend, and each lies below the next number.
pub load_sstables-IsDescending :
    (files : List StoredFile)
    → All IsCounted (found_files files)
    → IsDescending (load_sstables files).seqs
      × All (λ s. s < (load_sstables files).next_seq) (load_sstables files).seqs
unfolding load_sstables
load_sstables-IsDescending files c =
    let h =
      load_files-IsFresh (sort_files (found_files files)) _ (sort_files-AreSorted _)
        (sort_files-All IsCounted _ c) (record { descending = tt; above = tt; below = tt }) in
    (h.descending, h.below)
