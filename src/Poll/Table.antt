-- ===== src/Poll/Table.antt =====
-- src/poll.c: the table of procedures as a list in order of registration.
use native.Mathlib.Numerals.{add-one}
use xrossfire.Base.{
  ℕ, zero, suc, ◌+◌, ◌≤◌, ◌<◌, ◌≡◌, refl, sym, ap, ◌∙◌, ◌⊎◌, inl, inr, none, some, List, [], ◌∷◌,
  ◌++◌, ltb, set, take, length, arith, Returns, Bool-cases, ltb→lt,
}
use xrossfire.Poll.{Pollings, store, poll_add}

abbrev pub capacity : ℕ
capacity = 16

pub record IsValid (s : Pollings) : Type 0 where
  pub slots : length s.pollings ≡ capacity
  pub bounded : s.n_pollings ≤ capacity

-- The procedures in use.
abbrev pub registered : Pollings → List ℕ
registered s = take s.n_pollings s.pollings

pub length-set : (xs : List ℕ) (i v : ℕ) → length (set xs i v) ≡ length xs
length-set [] i v = refl
length-set (x ∷ xs) zero v = refl
length-set (x ∷ xs) (suc i) v = ap suc (length-set xs i v)

take-set :
    (xs : List ℕ) (n v : ℕ) → n < length xs → take (suc n) (set xs n v) ≡ take n xs ++ (v ∷ [])
take-set [] n v h = elim h [ ]
take-set (x ∷ xs) zero v h = refl
take-set (x ∷ xs) (suc n) v h = ap (λ ys. x ∷ ys) (take-set xs n v (omega arith))

pub store_in_range : (xs : List ℕ) (i v : ℕ) → i < length xs → store xs i v ≡ some (set xs i v)
unfolding store
store_in_range xs i v h = ground arith

full_or_room : (n : ℕ) → n ≤ capacity → (n < capacity) ⊎ (n ≡ capacity)
full_or_room n h = elim (Bool-cases (ltb n capacity)) [
  | inl p ↦ inl (ltb→lt n capacity p)
  | inr p ↦ inr (ground (arith, h))
]

store_full : (slots : List ℕ) (n v : ℕ) → length slots ≡ n → store slots n v ≡ none
unfolding store
store_full slots n v h = ground arith

-- Adding a procedure to a valid table with a free slot registers it as the last and leaves the
-- table valid; with all 16 slots taken the write is out of bounds.
pub poll_add_lem :
    (s : Pollings) (obj : ℕ)
    → IsValid s
    → (s.n_pollings < capacity)
        × Returns
            (poll_add s obj)
            (λ out. IsValid out × (registered out ≡ registered s ++ (obj ∷ [])))
      ⊎ (s.n_pollings ≡ capacity) × (poll_add s obj ≡ none)
unfolding poll_add
poll_add_lem s obj v = elim (full_or_room s.n_pollings v.bounded) [
  | inl h ↦ inl (
    h,
    (
      record { n_pollings = s.n_pollings + 1; pollings = set s.pollings s.n_pollings obj },
      rw (store_in_range s.pollings s.n_pollings obj (omega (arith, v.slots))) refl,
      (
        record { slots = length-set s.pollings s.n_pollings obj ∙ v.slots; bounded = omega arith },
        rw add-one (take-set s.pollings s.n_pollings obj (omega (arith, v.slots))),
      ),
    ),
  )
  | inr h ↦ inr (h, rw (store_full s.pollings s.n_pollings obj (v.slots ∙ sym h)) refl)
]
