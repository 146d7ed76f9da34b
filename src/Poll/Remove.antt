-- ===== src/Poll/Remove.antt =====
-- src/poll.c: `xf_poll_remove` takes the first occurrence out of the list of procedures.
use native.Mathlib.Numerals.{add-one}
use xrossfire.Base.{
  ℕ, zero, suc, ◌-◌, ◌≤◌, ◌<◌, ◌≡◌, refl, sym, ap, ◌∙◌, ◌⊎◌, inl, inr, true, false, Option, none,
  some, List, [], ◌∷◌, ◌==◌, ◌>>=◌, if◌then◌else◌, get_elem?, take, length, arith, Returns,
  Bool-cases,
}
use xrossfire.Poll.{Pollings, store, shift, poll_remove_from, poll_remove}
use xrossfire.Poll.Table.{capacity, IsValid, registered, store_in_range}

-- Takes out the first occurrence.
pub erase_first : ℕ → List ℕ → List ℕ
erase_first obj [] = []
erase_first obj (p ∷ ps) = if p == obj then ps else p ∷ erase_first obj ps

store-suc :
    (x : ℕ) (xs : List ℕ) (j p : ℕ)
    → store (x ∷ xs) (suc j) p ≡ (store xs j p >>= λ ys. some (x ∷ ys))
unfolding store
store-suc x xs j p = ground arith

module _ (n j x : ℕ)
    (ih : (ys : List ℕ) → shift n (suc j) (x ∷ ys) ≡ (shift n j ys >>= λ zs. some (x ∷ zs))) where
  shift_rest :
      (m : Option (List ℕ))
      → (m >>= (λ ys. some (x ∷ ys)) >>= λ zs. shift n (suc j) zs)
        ≡ (m >>= (λ zs. shift n j zs) >>= λ ys. some (x ∷ ys))
  shift_rest none = refl
  shift_rest (some ys) = ih ys

  shift_round :
      (xs : List ℕ) (i : ℕ) (g : Option ℕ)
      → (g >>= λ p. store (x ∷ xs) (suc i) p >>= λ zs. shift n (suc j) zs)
        ≡ (g >>= (λ p. store xs i p >>= λ zs. shift n j zs) >>= λ ys. some (x ∷ ys))
  shift_round xs i none = refl
  shift_round xs i (some p) = rw (store-suc x xs i p) (shift_rest (store xs i p))

-- Both loops leave the slots before their index alone.
shift-suc :
    (n j x : ℕ) (xs : List ℕ) → shift n (suc j) (x ∷ xs) ≡ (shift n j xs >>= λ ys. some (x ∷ ys))
unfolding shift
shift-suc zero j x xs = refl
shift-suc (suc n) j x xs =
    simp add-one
      (shift_round n (suc j) x (λ ys. shift-suc n (suc j) x ys) xs j (get_elem? xs (suc j)))

shift_lem :
    (n x : ℕ) (xs : List ℕ)
    → n ≤ length xs
    → Returns (shift n 0 (x ∷ xs)) λ out. (length out ≡ suc (length xs)) × (take n out ≡ take n xs)
unfolding shift
shift_lem zero x xs h = (x ∷ xs, refl, (refl, refl))
shift_lem (suc n) x [] h = absurd (omega arith)
shift_lem (suc n) x (y ∷ ys) h =
    let (out, ran, (len, same)) = shift_lem n y ys (omega arith) in
    (
      y ∷ out,
      rw (store_in_range (x ∷ y ∷ ys) 0 y (omega arith))
          (shift-suc n 0 y (y ∷ ys) ∙ ap (λ m. m >>= λ zs. some (y ∷ zs)) ran),
      (ap suc len, ap (λ zs. y ∷ zs) same),
    )

-- A table with a slot more in front.
abbrev behind : ℕ → Pollings → Pollings
behind x s = record { n_pollings = s.n_pollings; pollings = x ∷ s.pollings }

unlink_suc :
    (N x : ℕ) (m : Option (List ℕ))
    → (m >>= (λ ys. some (x ∷ ys)) >>= λ slots. some (record { n_pollings = N; pollings = slots }))
      ≡ (m >>= (λ slots. some (record { n_pollings = N; pollings = slots })) >>= λ s.
          some (behind x s))
unlink_suc N x none = refl
unlink_suc N x (some ys) = refl

module _ (n i N x : ℕ) (xs : List ℕ) (obj : ℕ)
    (ih : poll_remove_from n (suc (suc i)) (record { n_pollings = N; pollings = x ∷ xs }) obj ≡ (
      poll_remove_from n (suc i) (record { n_pollings = N; pollings = xs }) obj >>= λ s.
      some (behind x s))) where
  remove_round :
      (g : Option ℕ)
      → (g >>= λ p.
          if p == obj
          then (shift n (suc i) (x ∷ xs) >>= λ slots.
              some (record { n_pollings = N - 1; pollings = slots }))
          else poll_remove_from n (suc (suc i)) (record { n_pollings = N; pollings = x ∷ xs }) obj)
        ≡ (g
            >>= (λ p.
                if p == obj
                then (shift n i xs >>= λ slots.
                    some (record { n_pollings = N - 1; pollings = slots }))
                else poll_remove_from n (suc i) (record { n_pollings = N; pollings = xs }) obj)
            >>= λ s. some (behind x s))
  remove_round none = refl
  remove_round (some p) = elim (Bool-cases (p == obj)) [
    | inl hit ↦ rw hit (rw (shift-suc n i x xs) (unlink_suc (N - 1) x (shift n i xs)))
    | inr miss ↦ rw miss ih
  ]

poll_remove_from-suc :
    (n i N x : ℕ) (xs : List ℕ) (obj : ℕ)
    → poll_remove_from n (suc i) (record { n_pollings = N; pollings = x ∷ xs }) obj ≡ (
        poll_remove_from n i (record { n_pollings = N; pollings = xs }) obj >>= λ s.
        some (behind x s))
unfolding poll_remove_from
poll_remove_from-suc zero i N x xs obj = refl
poll_remove_from-suc (suc n) i N x xs obj =
    simp add-one
      (remove_round n i N x xs obj (poll_remove_from-suc n (suc i) N x xs obj) (get_elem? xs i))

-- What the search makes of the first `n` slots.
abbrev Unlinks : ℕ → ℕ → List ℕ → ℕ → Pollings → Type 0
Unlinks n N slots obj out =
    (length out.pollings ≡ length slots)
    × (((0 < n)
          × (out.n_pollings ≡ N - 1)
          × (take (n - 1) out.pollings ≡ erase_first obj (take n slots)))
        ⊎ ((out.n_pollings ≡ N) × (take n out.pollings ≡ erase_first obj (take n slots))))

pred_suc : (n : ℕ) → suc n - 1 ≡ n
pred_suc n = omega arith

pred_pos : (n : ℕ) → 0 < n → suc n - 1 ≡ suc (n - 1)
pred_pos n h = omega arith

erase_first_hit : (x obj : ℕ) (xs : List ℕ) → (x == obj) ≡ true → erase_first obj (x ∷ xs) ≡ xs
unfolding erase_first
erase_first_hit x obj xs h = rw h

erase_first_miss :
    (x obj : ℕ) (xs : List ℕ)
    → (x == obj) ≡ false
    → erase_first obj (x ∷ xs) ≡ x ∷ erase_first obj xs
unfolding erase_first
erase_first_miss x obj xs h = rw h

behind-Unlinks :
    (n N x : ℕ) (xs : List ℕ) (obj : ℕ) (out : Pollings)
    → (x == obj) ≡ false
    → Unlinks n N xs obj out
    → Unlinks (suc n) N (x ∷ xs) obj (behind x out)
behind-Unlinks n N x xs obj out miss (len, inl (some_left, fewer, same)) = (
  ap suc len,
  inl (
    omega arith,
    fewer,
    rw (pred_pos n some_left)
        (ap (λ zs. x ∷ zs) same ∙ sym (erase_first_miss x obj (take n xs) miss)),
  ),
)
behind-Unlinks n N x xs obj out miss (len, inr (all, same)) =
    (ap suc len, inr (all, ap (λ zs. x ∷ zs) same ∙ sym (erase_first_miss x obj (take n xs) miss)))

poll_remove_from-Unlinks :
    (n N : ℕ) (slots : List ℕ) (obj : ℕ)
    → n ≤ length slots
    → Returns
        (poll_remove_from n 0 (record { n_pollings = N; pollings = slots }) obj)
        (Unlinks n N slots obj)
unfolding poll_remove_from erase_first
poll_remove_from-Unlinks zero N slots obj h = (_, refl, (refl, inr (refl, refl)))
poll_remove_from-Unlinks (suc n) N [] obj h = absurd (omega arith)
poll_remove_from-Unlinks (suc n) N (x ∷ xs) obj h = elim (Bool-cases (x == obj)) [
  | inl hit ↦
      let (out, ran, (len, same)) = shift_lem n x xs (omega arith) in
      (
        record { n_pollings = N - 1; pollings = out },
        rw hit (rw ran),
        (
          len,
          inl (
            omega arith,
            refl,
            ap (λ k. take k out) (pred_suc n) ∙ same ∙ sym (erase_first_hit x obj (take n xs) hit),
          ),
        ),
      )
  | inr miss ↦
      let (out, ran, u) = poll_remove_from-Unlinks n N xs obj (omega arith) in
      (
        behind x out,
        rw miss (rw (poll_remove_from-suc n 0 N x xs obj, ran)),
        behind-Unlinks n N x xs obj out miss u,
      )
]

-- On a valid table, removing a procedure never faults, leaves a valid table, and takes the first
-- occurrence of the procedure out of those registered.
pub poll_remove_lem :
    (s : Pollings) (obj : ℕ)
    → IsValid s
    → Returns
        (poll_remove s obj)
        λ out. IsValid out × (registered out ≡ erase_first obj (registered s))
unfolding poll_remove
poll_remove_lem s obj v =
    let (out, ran, (len, u)) =
      poll_remove_from-Unlinks s.n_pollings s.n_pollings s.pollings obj
        (omega (arith, v.slots, v.bounded)) in
    (out, ran, settled out (len ∙ v.slots) u)
  where
    settled :
        (out : Pollings)
        → length out.pollings ≡ capacity
        → ((0 < s.n_pollings)
            × (out.n_pollings ≡ s.n_pollings - 1)
            × (take (s.n_pollings - 1) out.pollings ≡ erase_first obj (registered s)))
          ⊎ ((out.n_pollings ≡ s.n_pollings)
              × (take s.n_pollings out.pollings ≡ erase_first obj (registered s)))
        → IsValid out × (registered out ≡ erase_first obj (registered s))
    settled out len (inl (p, fewer, same)) = (
      record { slots = len; bounded = omega (arith, fewer, v.bounded) },
      ap (λ n. take n out.pollings) fewer ∙ same,
    )
    settled out len (inr (all, same)) = (
      record { slots = len; bounded = omega (arith, all, v.bounded) },
      ap (λ n. take n out.pollings) all ∙ same,
    )
