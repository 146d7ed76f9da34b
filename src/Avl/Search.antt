-- ===== src/Avl/Search.antt =====
-- Where the list operations act in a list that is split at a node of the tree: on the side that the
-- comparison with the node's key points to.
use Prim.Native.Nat.Ordering.{lt, eq, gt}
use xrossfire.Base.{◌≡◌, refl, ap, none, some, List, [], ◌∷◌, ◌++◌, arith}
use xrossfire.Order.{Comparator, ◌≺◌, compare-gt_of_lt, compare-gt_of_eq}
use xrossfire.Avl.{Entry}
use xrossfire.Avl.Sorted.{Below, Above, insert_entry, find_key, erase_key}

module _ {ℓ κ} {K : Type ℓ} {V : Type κ} ⦃o : Comparator K⦄ where
  pub insert_entry_left :
      (x : Entry K V) (l : List (Entry K V)) (e : Entry K V) (r : List (Entry K V))
      → o.compare x.key e.key ≡ lt
      → insert_entry x (l ++ (e ∷ r)) ≡ insert_entry x l ++ (e ∷ r)
  unfolding insert_entry
  insert_entry_left x [] e r p = rw p
  insert_entry_left x (y ∷ ys) e r p = ground (arith, insert_entry_left x ys e r p)

  pub insert_entry_right :
      (x : Entry K V) (l : List (Entry K V)) (e : Entry K V) (r : List (Entry K V))
      → Below e.key l
      → o.compare x.key e.key ≡ gt
      → insert_entry x (l ++ (e ∷ r)) ≡ l ++ (e ∷ insert_entry x r)
  unfolding insert_entry
  insert_entry_right x [] e r b p = rw p
  insert_entry_right x (y ∷ ys) e r b p =
      rw (compare-gt_of_lt x.key e.key y.key p b.0)
        (ap (λ zs. y ∷ zs) (insert_entry_right x ys e r b.1 p))

  pub insert_entry_here :
      (x : Entry K V) (l : List (Entry K V)) (e : Entry K V) (r : List (Entry K V))
      → Below e.key l
      → o.compare x.key e.key ≡ eq
      → insert_entry x (l ++ (e ∷ r)) ≡ l ++ (e ∷ r)
  unfolding insert_entry
  insert_entry_here x [] e r b p = rw p
  insert_entry_here x (y ∷ ys) e r b p =
      rw (compare-gt_of_eq x.key e.key y.key p b.0)
        (ap (λ zs. y ∷ zs) (insert_entry_here x ys e r b.1 p))

  find_key-Above : (k j : K) (xs : List (Entry K V)) → k ≺ j → Above j xs → find_key k xs ≡ none
  unfolding find_key
  find_key-Above k j [] p a = refl
  find_key-Above k j (y ∷ ys) p a =
      rw (o.trans_lt k j y.key p a.0, find_key) (find_key-Above k j ys p a.1)

  pub find_key_left :
      (k : K) (l : List (Entry K V)) (e : Entry K V) (r : List (Entry K V))
      → Above e.key r
      → o.compare k e.key ≡ lt
      → find_key k (l ++ (e ∷ r)) ≡ find_key k l
  unfolding find_key
  find_key_left k [] e r a p = rw p (find_key-Above k e.key r p a)
  find_key_left k (y ∷ ys) e r a p = ground (arith, find_key_left k ys e r)

  pub find_key_right :
      (k : K) (l : List (Entry K V)) (e : Entry K V) (r : List (Entry K V))
      → Below e.key l
      → o.compare k e.key ≡ gt
      → find_key k (l ++ (e ∷ r)) ≡ find_key k r
  unfolding find_key
  find_key_right k [] e r b p = rw p
  find_key_right k (y ∷ ys) e r b p =
      rw (compare-gt_of_lt k e.key y.key p b.0) (find_key_right k ys e r b.1 p)

  pub find_key_here :
      (k : K) (l : List (Entry K V)) (e : Entry K V) (r : List (Entry K V))
      → Below e.key l
      → o.compare k e.key ≡ eq
      → find_key k (l ++ (e ∷ r)) ≡ some e
  unfolding find_key
  find_key_here k [] e r b p = rw p
  find_key_here k (y ∷ ys) e r b p =
      rw (compare-gt_of_eq k e.key y.key p b.0) (find_key_here k ys e r b.1 p)

  erase_key-Above : (k j : K) (xs : List (Entry K V)) → k ≺ j → Above j xs → erase_key k xs ≡ xs
  unfolding erase_key
  erase_key-Above k j [] p a = refl
  erase_key-Above k j (y ∷ ys) p a =
      rw (o.trans_lt k j y.key p a.0, erase_key) (ap (λ zs. y ∷ zs) (erase_key-Above k j ys p a.1))

  pub erase_key_left :
      (k : K) (l : List (Entry K V)) (e : Entry K V) (r : List (Entry K V))
      → Above e.key r
      → o.compare k e.key ≡ lt
      → erase_key k (l ++ (e ∷ r)) ≡ erase_key k l ++ (e ∷ r)
  unfolding erase_key
  erase_key_left k [] e r a p = rw p (ap (λ zs. e ∷ zs) (erase_key-Above k e.key r p a))
  erase_key_left k (y ∷ ys) e r a p = ground (arith, erase_key_left k ys e r)

  pub erase_key_right :
      (k : K) (l : List (Entry K V)) (e : Entry K V) (r : List (Entry K V))
      → Below e.key l
      → o.compare k e.key ≡ gt
      → erase_key k (l ++ (e ∷ r)) ≡ l ++ (e ∷ erase_key k r)
  unfolding erase_key
  erase_key_right k [] e r b p = rw p
  erase_key_right k (y ∷ ys) e r b p =
      rw (compare-gt_of_lt k e.key y.key p b.0) (ap (λ zs. y ∷ zs) (erase_key_right k ys e r b.1 p))

  pub erase_key_here :
      (k : K) (l : List (Entry K V)) (e : Entry K V) (r : List (Entry K V))
      → Below e.key l
      → o.compare k e.key ≡ eq
      → erase_key k (l ++ (e ∷ r)) ≡ l ++ r
  unfolding erase_key
  erase_key_here k [] e r b p = rw p
  erase_key_here k (y ∷ ys) e r b p =
      rw (compare-gt_of_eq k e.key y.key p b.0) (ap (λ zs. y ∷ zs) (erase_key_here k ys e r b.1 p))
