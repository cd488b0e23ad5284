-- ===== src/StdMap/Parts.antt =====
-- A map in two parts: which part an operation on a key looks at.
use nexus_db_main.Common.{lt, [], ◌∷◌, ◌++◌, true, false, Bytes, ◌≡◌, refl, none, arith}
use nexus_db_main.Text.{str_compare, str_le, str_lt}
use nexus_db_main.Text.Order.{compare_refl, eq_of_compare, gt_of_lt, lt_of_gt, lt_trans}
use nexus_db_main.StdMap.{Map, find, Above, IsSorted}
use nexus_db_main.StdMap.Find.{find-Above}
use nexus_db_main.StdMap.Ranges.{between, between_skip, between-nil}

below : (lo j k : Bytes) → str_compare j k ≡ lt → str_le k lo ≡ true → str_le lo j ≡ false
below lo j k h e = ground (arith, lt_trans j k lo, eq_of_compare k lo, gt_of_lt j lo)

past : (lo k last : Bytes) → str_le k last ≡ true → str_lt last lo ≡ true → str_le lo k ≡ false
past lo k last h e = ground (arith, lt_trans k last lo, eq_of_compare k last, gt_of_lt k lo)

module _ {ℓ} {V : Type ℓ} where
  pub IsSorted-right : (xs ys : Map V) → IsSorted (xs ++ ys) → IsSorted ys
  IsSorted-right [] ys s = s
  IsSorted-right ((k, v) ∷ xs) ys s = IsSorted-right xs ys s.1

  Above-left : (b : Bytes) (xs ys : Map V) → Above b (xs ++ ys) → Above b xs
  Above-left b [] ys a = tt
  Above-left b ((k, v) ∷ xs) ys a = (a.0, Above-left b xs ys a.1)

  pub IsSorted-left : (xs ys : Map V) → IsSorted (xs ++ ys) → IsSorted xs
  IsSorted-left [] ys s = tt
  IsSorted-left ((k, v) ∷ xs) ys s = (Above-left k xs ys s.0, IsSorted-left xs ys s.1)

  Above-middle :
      (b : Bytes) (xs : Map V) (k : Bytes) (v : V) (ys : Map V)
      → Above b (xs ++ (k, v) ∷ ys)
      → str_compare b k ≡ lt
  Above-middle b [] k v ys a = a.0
  Above-middle b ((j, w) ∷ xs) k v ys a = Above-middle b xs k v ys a.1

  -- A key at or above the first of the second part is looked up there.
  pub find-right :
      (xs : Map V) (k : Bytes) (v : V) (ys : Map V) (q : Bytes)
      → IsSorted (xs ++ (k, v) ∷ ys)
      → str_le k q ≡ true
      → find q (xs ++ (k, v) ∷ ys) ≡ find q ((k, v) ∷ ys)
  unfolding find
  find-right [] k v ys q s h = refl
  find-right ((j, w) ∷ xs) k v ys q s h = ground (
    arith,
    find-right xs k v ys q s.1 h,
    Above-middle j xs k v ys s.0,
    eq_of_compare j q,
    eq_of_compare k q,
    gt_of_lt j k,
    lt_trans j k q,
    compare_refl q,
  )

  -- A key below the first of the second part is looked up in the first.
  pub find-left :
      (xs : Map V) (k : Bytes) (v : V) (ys : Map V) (q : Bytes)
      → IsSorted (xs ++ (k, v) ∷ ys)
      → str_le k q ≡ false
      → find q (xs ++ (k, v) ∷ ys) ≡ find q xs
  unfolding find
  find-left [] k v ys q s h = ground (arith, find-Above k q ys s.0, lt_of_gt k q)
  find-left ((j, w) ∷ xs) k v ys q s h = ground (arith, find-left xs k v ys q s.1 h)

  -- An interval that starts at or above the first of the second part is found there.
  pub between-right :
      (xs : Map V) (k : Bytes) (v : V) (ys : Map V) (lo hi : Bytes)
      → IsSorted (xs ++ (k, v) ∷ ys)
      → str_le k lo ≡ true
      → between lo hi (xs ++ (k, v) ∷ ys) ≡ between lo hi ((k, v) ∷ ys)
  between-right [] k v ys lo hi s h = refl
  between-right ((j, w) ∷ xs) k v ys lo hi s h = rw (
    between_skip lo hi j w (xs ++ (k, v) ∷ ys) (below lo j k (Above-middle j xs k v ys s.0) h),
    between-right xs k v ys lo hi s.1 h,
  )

  -- The last key, or the key given if there is none.
  abbrev pub last_of : Bytes → Map V → Bytes
  last_of last [] = last
  last_of last ((k, v) ∷ m) = last_of k m

  last_of-le :
      (k : Bytes) (v : V) (m : Map V) → IsSorted ((k, v) ∷ m) → str_le k (last_of k m) ≡ true
  last_of-le k v [] s = ground (arith, compare_refl k)
  last_of-le k v ((j, w) ∷ m) s = ground (
    arith,
    last_of-le j w m s.1,
    s.0.0,
    lt_trans k j (last_of j m),
    eq_of_compare j (last_of j m),
  )

  -- Above the last key there is no entry.
  pub find_past_last :
      (q k : Bytes) (v : V) (m : Map V)
      → IsSorted ((k, v) ∷ m)
      → str_lt (last_of k m) q ≡ true
      → find q ((k, v) ∷ m) ≡ none
  unfolding find
  find_past_last q k v [] s h = ground (arith, compare_refl k, eq_of_compare k q)
  find_past_last q k v ((j, w) ∷ m) s h = ground (
    arith,
    find_past_last q j w m s.1 h,
    last_of-le k v ((j, w) ∷ m) s,
    eq_of_compare k q,
    gt_of_lt (last_of j m) q,
  )

  pub between_past_last :
      (lo hi k : Bytes) (v : V) (m : Map V)
      → IsSorted ((k, v) ∷ m)
      → str_lt (last_of k m) lo ≡ true
      → between lo hi ((k, v) ∷ m) ≡ []
  between_past_last lo hi k v [] s h = rw (
    between_skip lo hi k v [] (past lo k k (ground (arith, compare_refl k)) h),
    between-nil {V = V} lo hi,
  )
  between_past_last lo hi k v ((j, w) ∷ m) s h = rw (
    between_skip lo hi k v ((j, w) ∷ m) (past lo k (last_of j m) (last_of-le k v ((j, w) ∷ m) s) h),
    between_past_last lo hi j w m s.1 h,
  )
