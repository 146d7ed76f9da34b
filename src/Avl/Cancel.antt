-- ===== src/Avl/Cancel.antt =====
-- The specification of src/avltree.h: adding an entry and erasing a key, one after the other.
use xrossfire.Base.{◌≡◌, refl, none, some, List, [], ◌∷◌, arith, All, head?, ◌⊎◌, inl}
use xrossfire.Order.{Comparator, is_lt, is_eq, is_gt, sign}
use xrossfire.Avl.{Entry}
use xrossfire.Avl.Sorted.{Above, IsIncreasing, insert_entry, find_key, erase_key}

module _ {ℓ κ} {K : Type ℓ} {V : Type κ} ⦃o : Comparator K⦄ where
  pub erase_key-insert_entry :
      (x : Entry K V) (xs : List (Entry K V))
      → find_key x.key xs ≡ none
      → erase_key x.key (insert_entry x xs) ≡ xs
  unfolding erase_key insert_entry find_key
  erase_key-insert_entry x [] f = rw (o.refl_eq x.key)
  erase_key-insert_entry x (y ∷ ys) f = ground (arith, o.refl_eq x.key, erase_key-insert_entry x ys)

  pub find_key-insert_entry :
      (x : Entry K V) (xs : List (Entry K V))
      → find_key x.key xs ≡ none
      → find_key x.key (insert_entry x xs) ≡ some x
  unfolding insert_entry find_key
  find_key-insert_entry x [] f = rw (o.refl_eq x.key)
  find_key-insert_entry x (y ∷ ys) f = ground (arith, o.refl_eq x.key, find_key-insert_entry x ys)

  find_key-Above : (k : K) (xs : List (Entry K V)) → Above k xs → find_key k xs ≡ none
  unfolding find_key
  find_key-Above k [] a = refl
  find_key-Above k (y ∷ ys) a = rw (a.0, find_key) (find_key-Above k ys a.1)

  pub find_key-erase_key :
      (k : K) (xs : List (Entry K V)) → IsIncreasing xs → find_key k (erase_key k xs) ≡ none
  unfolding find_key erase_key
  find_key-erase_key k [] s = refl
  find_key-erase_key k (y ∷ ys) s = elim (sign (o.compare k y.key)) [
    | is_lt p ↦ rw (p, erase_key) (rw (p, find_key) (find_key-erase_key k ys s.1))
    | is_gt p ↦ rw (p, erase_key) (rw (p, find_key) (find_key-erase_key k ys s.1))
    | is_eq p ↦ rw (p, erase_key) (rw (o.eq_same k y.key p) (find_key-Above y.key ys s.0))
  ]

  pub insert_entry-All {μ} :
      (P : Entry K V → Type μ) (x : Entry K V) (xs : List (Entry K V))
      → P x
      → All P xs
      → All P (insert_entry x xs)
  unfolding insert_entry
  insert_entry-All P x [] p a = (p, tt)
  insert_entry-All P x (y ∷ ys) p a = elim (sign (o.compare x.key y.key)) [
    | is_lt q ↦ rw (q, insert_entry) (p, a)
    | is_eq q ↦ rw (q, insert_entry) a
    | is_gt q ↦ rw (q, insert_entry) (a.0, insert_entry-All P x ys p a.1)
  ]

  pub erase_key-All {μ} :
      (P : Entry K V → Type μ) (k : K) (xs : List (Entry K V)) → All P xs → All P (erase_key k xs)
  unfolding erase_key
  erase_key-All P k [] a = tt
  erase_key-All P k (y ∷ ys) a = elim (sign (o.compare k y.key)) [
    | is_lt q ↦ rw (q, erase_key) (a.0, erase_key-All P k ys a.1)
    | is_eq q ↦ rw (q, erase_key) a.1
    | is_gt q ↦ rw (q, erase_key) (a.0, erase_key-All P k ys a.1)
  ]

  -- An entry that is put first or stays first.
  pub head?-insert_entry :
      (x : Entry K V) (xs : List (Entry K V))
      → (head? (insert_entry x xs) ≡ some x) ⊎ (head? (insert_entry x xs) ≡ head? xs)
  unfolding insert_entry
  head?-insert_entry x [] = inl refl
  head?-insert_entry x (y ∷ ys) = ground arith
