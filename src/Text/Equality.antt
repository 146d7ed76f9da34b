-- ===== src/Text/Equality.antt =====
-- src/string.c: `xf_string_equals` compares what the strings hold.
use xrossfire.Base.{
  ℕ, zero, suc, ◌+◌, ◌≤◌, ◌≡◌, ◌↔◌, refl, sym, ap, ◌∙◌, inl, inr, true, false, Option, none, some,
  List, [], ◌∷◌, ◌++◌, ◌==◌, ==_iff, ==_self, take, length, get_elem?, get_elem?-lt, Bool-cases,
  arith, Returns, length-append, subst, ◌⊎◌,
}
use xrossfire.Base.Int.{ℤ, pos, negsuc, leb_ℤ, ◌<ℤ◌, ◌≤ℤ◌}
use xrossfire.Text.{
  Text, initializer, empty, list_eq, equals, copy_units, to_count, new, Created, created,
  out_of_memory, hash_units, get_hashcode,
}

-- The buffer holds the units and the terminator.
pub record IsValid (s : Text) : Type 0 where
  pub sized : length s.buf ≡ suc s.length
  pub terminated : get_elem? s.buf s.length ≡ some 0

-- The units of a string.
abbrev pub contents : Text → List ℕ
contents s = take s.length s.buf

pub list_eq_same : (xs : List ℕ) → list_eq xs xs ≡ true
list_eq_same [] = refl
list_eq_same (x ∷ xs) = rw (==_self x) (list_eq_same xs)

pub same_list : (xs ys : List ℕ) → list_eq xs ys ≡ true → xs ≡ ys
same_list [] [] h = refl
same_list [] (y ∷ ys) h = cc
same_list (x ∷ xs) [] h = cc
same_list (x ∷ xs) (y ∷ ys) h = ground (arith, same_list xs ys)

length-take : (n : ℕ) (xs : List ℕ) → n ≤ length xs → length (take n xs) ≡ n
length-take zero xs h = refl
length-take (suc n) [] h = absurd (omega arith)
length-take (suc n) (x ∷ xs) h = ap suc (length-take n xs (omega arith))

-- Two valid strings, which are the same record if they stand at one address, are equal for
-- `xf_string_equals` exactly when their units are the same.
pub equals_iff :
    (a b : Text)
    → IsValid a
    → IsValid b
    → (a.address ≡ b.address → a ≡ b)
    → (equals (some a) (some b) ≡ true) ↔ (contents a ≡ contents b)
unfolding equals
equals_iff a b va vb coherent = elim (Bool-cases (a.address == b.address)) [
  | inl same ↦
      let e = coherent ((==_iff a.address b.address).0 same) in
      (λ _. ap contents e, λ _. rw same refl)
  | inr apart ↦ rw apart (elim (Bool-cases (a.length == b.length)) [
    | inr longer ↦ rw longer ((λ h. cc), λ h. absurd (no_length longer (lengths h)))
    | inl level ↦
        let e = (==_iff a.length b.length).0 level in
        rw level (
          (λ h. same_list (contents a) (take a.length b.buf) h ∙ ap (λ n. take n b.buf) e),
          λ h. units (contents a) (take a.length b.buf) (h ∙ ap (λ n. take n b.buf) (sym e)),
        )
  ])
]
  where
    no_length : (a.length == b.length) ≡ false → a.length ≡ b.length → ⊥
    no_length h e = ground arith

    lengths : contents a ≡ contents b → a.length ≡ b.length
    lengths h =
        sym (length-take a.length a.buf (rw va.sized (omega arith)))
        ∙ ap (λ xs. length xs) h
        ∙ length-take b.length b.buf (rw vb.sized (omega arith))

    units : (xs ys : List ℕ) → xs ≡ ys → list_eq xs ys ≡ true
    units xs ys h = subst (λ zs. list_eq xs zs ≡ true) h (list_eq_same xs)

copy_units-take :
    (n : ℕ) (chars : List ℕ) → n ≤ length chars → copy_units n chars ≡ some (take n chars)
unfolding copy_units
copy_units-take zero chars h = refl
copy_units-take (suc n) [] h = absurd (omega arith)
copy_units-take (suc n) (c ∷ chars) h = rw (copy_units-take n chars (omega arith)) refl

get_elem?-append : (xs : List ℕ) (y : ℕ) → get_elem? (xs ++ y ∷ []) (length xs) ≡ some y
get_elem?-append [] y = refl
get_elem?-append (x ∷ xs) y = get_elem?-append xs y

take-append : (xs ys : List ℕ) → take (length xs) (xs ++ ys) ≡ xs
take-append [] ys = refl
take-append (x ∷ xs) ys = ap (λ zs. x ∷ zs) (take-append xs ys)

-- A terminated buffer of units is a valid string, with these units.
pub terminated-IsValid :
    (address : ℕ) (ref : ℤ) (n : ℕ) (units : List ℕ)
    → length units ≡ n
    → (s : Text) → s ≡ record { address = address; ref = ref; length = n; buf = units ++ (0 ∷ []) }
    → IsValid s × (contents s ≡ units)
terminated-IsValid address ref n units e s is =
    subst (λ t. IsValid t × (contents t ≡ units)) (sym is)
      (
        record {
          sized = omega (arith, e, length-append units (0 ∷ []));
          terminated =
              subst (λ k. get_elem? (units ++ (0 ∷ [])) k ≡ some 0) e (get_elem?-append units 0);
        },
        subst (λ k. take k (units ++ (0 ∷ [])) ≡ units) e (take-append units (0 ∷ [])),
      )

-- What `new` makes of the first `n` units: a valid string of them, the static empty one when there
-- are none, or nothing when there is no memory.
abbrev pub Makes : List ℕ → ℤ → Option ℕ → Created → Type 0
Makes chars n malloc (created s) =
    IsValid s
    × (contents s ≡ take (to_count n) chars)
    × ((n ≤ℤ pos 0) × (s ≡ empty) ⊎ (malloc ≡ some s.address) × (s.ref ≡ pos 1))
Makes chars n malloc out_of_memory = (malloc ≡ none) × (pos 0 <ℤ n)

positive : (n : ℕ) → leb_ℤ (pos (suc n)) (pos 0) ≡ false
positive n = ground arith

negative : (n : ℕ) → leb_ℤ (negsuc n) (pos 0) ≡ true
negative n = ground arith

-- For an array of at least `n` units, `xf_string_new` reads nothing past its end. It gives the
-- static empty string if `n` is not positive; otherwise it fails exactly without memory, and else
-- gives a valid string of the array's first `n` units with one holder, at the allocated address.
pub new-Makes :
    (chars : List ℕ) (n : ℤ) (malloc : Option ℕ)
    → to_count n ≤ length chars
    → Returns (new chars n malloc) (Makes chars n malloc)
unfolding new empty initializer
new-Makes chars (negsuc n) malloc h = rw (negative n) (
  created empty,
  refl,
  (record { sized = refl; terminated = refl }, refl, inl (omega arith, refl)),
)
new-Makes chars (pos zero) malloc h = (
  created empty,
  refl,
  (record { sized = refl; terminated = refl }, refl, inl (omega arith, refl)),
)
new-Makes chars (pos (suc n)) none h = rw (positive n) (out_of_memory, refl, (refl, omega arith))
new-Makes chars (pos (suc n)) (some p) h =
    rw (positive n, copy_units-take (suc n) chars h)
      (made, refl, (valid.0, valid.1, inr (refl, refl)))
  where
    text : Text
    text = record { address = p; ref = pos 1; length = suc n; buf = take (suc n) chars ++ (0 ∷ []) }

    made : Created
    made = created text

    valid : IsValid text × (contents text ≡ take (suc n) chars)
    valid =
        terminated-IsValid p (pos 1) (suc n) (take (suc n) chars) (length-take (suc n) chars h) text
          refl

hash_units-total :
    (n i : ℕ) (buf : List ℕ) (hash : ℕ)
    → i + n ≤ length buf
    → (r : ℕ) × (hash_units n i buf hash ≡ some r)
unfolding hash_units
hash_units-total zero i buf hash h = (hash, refl)
hash_units-total (suc n) i buf hash h =
    rw (get_elem?-lt buf i (omega arith)).1 (hash_units-total n (i + 1) buf _ (omega arith))

-- The hash of every valid string is computed without a read past its buffer, and what is returned
-- is 0 for all of them.
pub get_hashcode_lem : (s : Text) → IsValid s → get_hashcode s ≡ some 0
unfolding get_hashcode
get_hashcode_lem s v = rw (hash_units-total s.length 0 s.buf 0 (rw v.sized (omega arith))).1 refl
