-- ===== src/SsTable/Search.antt =====
-- The binary search lands on the last index entry whose key is not above the wanted one.
use nexus_db_main.Common.{
  ℕ, zero, suc, ◌+◌, ◌-◌, ◌/◌, ◌<◌, ◌≤◌, List, Bytes, true, false, some, ◌≡◌, refl, sym, ap, ◌∙◌,
  ◌⊎◌, inl, inr, length, arith, ◌==◌, leb, le→leb, Bool-cases,
}
use native.Mathlib.Decide.{dec_lt}
use nexus_db_main.Text.{str_le}
use nexus_db_main.SsTable.{IndexEntry}
use nexus_db_main.SsTable.Queries.{search, key_at}

leb-false : (a b : ℕ) → b < a → leb a b ≡ false
leb-false a b h = ground arith

equal : (a b : ℕ) → (a == b) ≡ true → a ≡ b
equal a b h = ground arith

nonzero : (a : ℕ) → (a == 0) ≡ false → 0 < a
nonzero a h = ground arith

abbrev middle : ℕ → ℕ → ℕ
middle lo hi = lo + (hi - lo) / 2

middle-bounds : (lo hi : ℕ) → lo ≤ hi → (lo ≤ middle lo hi) × (middle lo hi ≤ hi)
middle-bounds lo hi h = (omega arith, omega arith)

module _ (index : List IndexEntry) (key : Bytes) where
  abbrev pub Below : ℕ → Type 0
  Below i = str_le (key_at index i) key ≡ true

  abbrev pub NotBelow : ℕ → Type 0
  NotBelow i = str_le (key_at index i) key ≡ false

  -- The index entries that are not above the key come first.
  abbrev pub IsAscending : Type 0
  IsAscending = (i j : ℕ) → i ≤ j → j < length index → NotBelow i → NotBelow j

  pub record Landed (idx : ℕ) : Type 0 where
    pub inside : idx < length index
    pub here : Below idx ⊎ (idx ≡ 0)
    pub next : suc idx < length index → NotBelow (suc idx)

  record Between (lo hi idx : ℕ) : Type 0 where
    bounded : hi < length index
    left : ((lo ≡ 0) × (idx ≡ 0)) ⊎ ((lo ≡ suc idx) × Below idx)
    right : suc hi < length index → NotBelow (suc hi)
    met : lo ≤ suc hi

  module _ (fuel lo hi idx : ℕ) where
    search_end : hi < lo → search (suc fuel) index key lo hi idx ≡ some idx
    unfolding search
    search_end h = rw (leb-false lo hi h, search)

    search_take :
        lo ≤ hi
        → Below (middle lo hi)
        → (middle lo hi == hi) ≡ true
        → search (suc fuel) index key lo hi idx ≡ some (middle lo hi)
    unfolding search
    search_take h p e = rw (le→leb lo hi h, search, p, e)

    search_right :
        lo ≤ hi
        → Below (middle lo hi)
        → (middle lo hi == hi) ≡ false
        → search (suc fuel) index key lo hi idx
          ≡ search fuel index key (suc (middle lo hi)) hi (middle lo hi)
    unfolding search
    search_right h p e = rw (le→leb lo hi h, search, p, e)

    search_first :
        lo ≤ hi
        → NotBelow (middle lo hi)
        → (middle lo hi == 0) ≡ true
        → search (suc fuel) index key lo hi idx ≡ some idx
    unfolding search
    search_first h p e = rw (le→leb lo hi h, search, p, e)

    search_left :
        lo ≤ hi
        → NotBelow (middle lo hi)
        → (middle lo hi == 0) ≡ false
        → search (suc fuel) index key lo hi idx ≡ search fuel index key lo (middle lo hi - 1) idx
    unfolding search
    search_left h p e = rw (le→leb lo hi h, search, p, e)

  ended : (lo hi idx : ℕ) → hi < lo → Between lo hi idx → Landed idx
  ended lo hi idx h b = record {
    inside = elim b.left [
      | inl l ↦ absurd (omega (arith, l.0))
      | inr l ↦ omega (arith, b.met, b.bounded, l.0)
    ];
    here = elim b.left [ inl l ↦ inr l.1 | inr l ↦ inl l.1 ];
    next = elim b.left [
      | inl l ↦ absurd (omega (arith, l.0))
      | inr l ↦ let there : suc hi ≡ suc idx = omega (arith, b.met, l.0) in rw there at b.right
    ];
  }

  taken :
      (lo hi idx : ℕ)
      → Below (middle lo hi)
      → (middle lo hi == hi) ≡ true
      → Between lo hi idx
      → Landed (middle lo hi)
  taken lo hi idx p e b =
      let there = equal (middle lo hi) hi e in
      record {
        inside = omega (arith, b.bounded);
        here = inl p;
        next = rw (sym (ap suc there)) at b.right;
      }

  -- The first entry is above the key, and so are all others.
  first :
      (lo hi idx : ℕ)
      → IsAscending
      → lo ≤ hi
      → NotBelow (middle lo hi)
      → (middle lo hi == 0) ≡ true
      → Between lo hi idx
      → Landed idx
  first lo hi idx asc le p e b =
      let zeroth = equal (middle lo hi) 0 e in
      let low : lo ≡ 0 = omega (arith, middle-bounds lo hi le) in
      record {
        inside = elim b.left [
          | inl l ↦ omega (arith, l.1, b.bounded)
          | inr l ↦ absurd (omega (arith, l.0))
        ];
        here = elim b.left [ inl l ↦ inr l.1 | inr l ↦ inl l.1 ];
        next = λ h. asc 0 (suc idx) (omega arith) h (rw zeroth at p);
      }

  lefter :
      (lo hi idx : ℕ)
      → lo ≤ hi
      → NotBelow (middle lo hi)
      → (middle lo hi == 0) ≡ false
      → Between lo hi idx
      → Between lo (middle lo hi - 1) idx
  lefter lo hi idx le p e b =
      let n0 = nonzero (middle lo hi) e in
      let back : suc (middle lo hi - 1) ≡ middle lo hi = omega arith in
      record {
        bounded = omega (arith, b.bounded, middle-bounds lo hi le);
        left = b.left;
        right = λ h. rw back p;
        met = omega (arith, middle-bounds lo hi le);
      }

  -- What `search` returns, with the fuel that is enough.
  Lands : ℕ → ℕ → ℕ → ℕ → Type 0
  Lands fuel lo hi idx = (i : ℕ) × (search fuel index key lo hi idx ≡ some i) × Landed i

  search-Lands :
      (fuel lo hi idx : ℕ)
      → IsAscending
      → suc hi < fuel + lo
      → Between lo hi idx
      → Lands fuel lo hi idx
  unfolding Lands
  search-Lands zero lo hi idx asc f b = absurd (omega (arith, b.met))
  search-Lands (suc fuel) lo hi idx asc f b = elim (dec_lt hi lo) [
    | yes h ↦ (idx, search_end fuel lo hi idx h, ended lo hi idx h b)
    | no h ↦
        let le : lo ≤ hi = omega arith in
        let m = middle-bounds lo hi le in
        elim (Bool-cases (str_le (key_at index (middle lo hi)) key)) [
          | inl p ↦ elim (Bool-cases (middle lo hi == hi)) [
            | inl e ↦ (middle lo hi, search_take fuel lo hi idx le p e, taken lo hi idx p e b)
            | inr e ↦
                let (i, s, l) =
                  search-Lands fuel (suc (middle lo hi)) hi (middle lo hi) asc (omega arith)
                    (record {
                      bounded = b.bounded;
                      left = inr (refl, p);
                      right = b.right;
                      met = omega arith;
                    }) in
                (i, search_right fuel lo hi idx le p e ∙ s, l)
          ]
          | inr p ↦ elim (Bool-cases (middle lo hi == 0)) [
            | inl e ↦ (idx, search_first fuel lo hi idx le p e, first lo hi idx asc le p e b)
            | inr e ↦
                let (i, s, l) =
                  search-Lands fuel lo (middle lo hi - 1) idx asc
                    (omega (arith, nonzero (middle lo hi) e)) (lefter lo hi idx le p e b) in
                (i, search_left fuel lo hi idx le p e ∙ s, l)
          ]
        ]
  ]

  -- The search over the whole index, with the fuel and the bounds that the queries give it.
  pub search_whole :
      IsAscending
      → 0 < length index
      → (i : ℕ) × (search (suc (length index)) index key 0 (length index - 1) 0 ≡ some i) × Landed i
  unfolding Lands
  search_whole asc h =
      search-Lands (suc (length index)) 0 (length index - 1) 0 asc (omega arith) (record {
        bounded = omega arith;
        left = inl (refl, refl);
        right = λ p. absurd (omega arith);
        met = omega arith;
      })
