-- ===== src/Avl/Sorted.antt =====
-- The specification of src/avltree.h: a list of entries with increasing keys.
use Prim.Native.Nat.Ordering.{lt, eq, gt}
use xrossfire.Base.{
  Option, none, some, List, [], ◌∷◌, ◌++◌, arith, All, All-append, All-append_left,
  All-append_right, All-imp,
}
use xrossfire.Order.{Comparator, ◌≺◌}
use xrossfire.Avl.{Entry}

module _ {ℓ κ} {K : Type ℓ} {V : Type κ} ⦃o : Comparator K⦄ where
  abbrev pub Below : K → List (Entry K V) → Type 0
  Below k xs = All (λ x. x.key ≺ k) xs

  abbrev pub Above : K → List (Entry K V) → Type 0
  Above k xs = All (λ x. k ≺ x.key) xs

  -- Keys increase from left to right.
  abbrev pub IsIncreasing : List (Entry K V) → Type 0
  IsIncreasing [] = Unit
  IsIncreasing (x ∷ xs) = Above x.key xs × IsIncreasing xs

  -- Adds an entry at its place; an entry with that key stays as it is.
  unfoldable pub insert_entry : Entry K V → List (Entry K V) → List (Entry K V)
  insert_entry x [] = x ∷ []
  insert_entry x (y ∷ ys) = elim (o.compare x.key y.key) [
    | lt ↦ x ∷ y ∷ ys
    | eq ↦ y ∷ ys
    | gt ↦ y ∷ insert_entry x ys
  ]

  unfoldable pub find_key : K → List (Entry K V) → Option (Entry K V)
  find_key k [] = none
  find_key k (y ∷ ys) = elim (o.compare k y.key) [
    | lt ↦ find_key k ys
    | eq ↦ some y
    | gt ↦ find_key k ys
  ]

  unfoldable pub erase_key : K → List (Entry K V) → List (Entry K V)
  erase_key k [] = []
  erase_key k (y ∷ ys) = elim (o.compare k y.key) [
    | lt ↦ y ∷ erase_key k ys
    | eq ↦ ys
    | gt ↦ y ∷ erase_key k ys
  ]

  module _ (l : List (Entry K V)) (e : Entry K V) (r : List (Entry K V)) where
    pub IsIncreasing-append :
        Below e.key l
        → Above e.key r
        → IsIncreasing l
        → IsIncreasing r
        → IsIncreasing (l ++ (e ∷ r))
    IsIncreasing-append = build l
      where
        build :
            (l : List (Entry K V))
            → Below e.key l
            → Above e.key r
            → IsIncreasing l
            → IsIncreasing r
            → IsIncreasing (l ++ (e ∷ r))
        build [] b a il ir = (a, ir)
        build (x ∷ xs) b a il ir = (
          All-append (λ y. x.key ≺ y.key) xs (e ∷ r) il.0
              (b.0, All-imp (λ y h. o.trans_lt x.key e.key y.key b.0 h) r a),
          build xs b.1 a il.1 ir,
        )

  -- The parts of an increasing list.
  pub IsIncreasing-parts :
      (l : List (Entry K V)) (e : Entry K V) (r : List (Entry K V))
      → IsIncreasing (l ++ (e ∷ r))
      → Below e.key l × Above e.key r × IsIncreasing l × IsIncreasing r
  IsIncreasing-parts [] e r h = (tt, h.0, tt, h.1)
  IsIncreasing-parts (x ∷ xs) e r h =
      let (b, a, il, ir) = IsIncreasing-parts xs e r h.1 in
      (
        ((All-append_right (λ y. x.key ≺ y.key) xs (e ∷ r) h.0).0, b),
        a,
        (All-append_left (λ y. x.key ≺ y.key) xs (e ∷ r) h.0, il),
        ir,
      )

  pub Above-weaken : (j k : K) (xs : List (Entry K V)) → j ≺ k → Above k xs → Above j xs
  Above-weaken j k xs p a = All-imp (λ x q. o.trans_lt j k x.key p q) xs a

  insert_entry-Above :
      (k : K) (x : Entry K V) (xs : List (Entry K V))
      → k ≺ x.key
      → Above k xs
      → Above k (insert_entry x xs)
  unfolding insert_entry
  insert_entry-Above k x [] p a = (p, tt)
  insert_entry-Above k x (y ∷ ys) p a = ground (arith, insert_entry-Above k x ys)

  pub insert_entry-IsIncreasing :
      (x : Entry K V) (xs : List (Entry K V)) → IsIncreasing xs → IsIncreasing (insert_entry x xs)
  unfolding insert_entry
  insert_entry-IsIncreasing x [] h = (tt, tt)
  insert_entry-IsIncreasing x (y ∷ ys) h = ground (
    arith,
    insert_entry-IsIncreasing x ys,
    insert_entry-Above y.key x ys,
    o.swap_gt x.key y.key,
    Above-weaken x.key y.key ys,
  )

  erase_key-Above : (k j : K) (xs : List (Entry K V)) → Above k xs → Above k (erase_key j xs)
  unfolding erase_key
  erase_key-Above k j [] a = tt
  erase_key-Above k j (y ∷ ys) a = ground (arith, erase_key-Above k j ys)

  pub erase_key-IsIncreasing :
      (j : K) (xs : List (Entry K V)) → IsIncreasing xs → IsIncreasing (erase_key j xs)
  unfolding erase_key
  erase_key-IsIncreasing j [] h = tt
  erase_key-IsIncreasing j (y ∷ ys) h =
      ground (arith, erase_key-IsIncreasing j ys, erase_key-Above y.key j ys)
