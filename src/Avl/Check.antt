-- ===== src/Avl/Check.antt =====
-- src/avltree.h: the counting functions and the self-checks.
use Prim.Native.Nat.Ordering.{lt, gt}
use xrossfire.Base.{
  ℕ, ◌+◌, ◌≤◌, ◌≡◌, refl, Bool, true, false, ◌&&◌, Option, none, some, ◌∷◌, arith, ◌==◌, ==_iff,
  length, length-append, All-append_right,
}
use xrossfire.Base.Int.{pos, negsuc, ◌-ℤ◌, leb_ℤ}
use xrossfire.Order.{Comparator, ◌≺◌}
use xrossfire.Avl.{Entry, Tree, null, node, max_, get_height, bias, to_list, root_entry}
use xrossfire.Avl.Balance.{max_-max}
use xrossfire.Avl.Shape.{IsAvl}
use xrossfire.Avl.Sorted.{Below, Above, IsIncreasing, IsIncreasing-parts}

module _ {ℓ κ} {K : Type ℓ} {V : Type κ} where
  unfoldable pub count_nodes : Tree K V → ℕ
  count_nodes null = 0
  count_nodes (node l h e r) = count_nodes l + count_nodes r + 1

  unfoldable pub count_levels : Tree K V → ℕ
  unfolding max_
  count_levels null = 0
  count_levels (node l h e r) = max_ (count_levels l) (count_levels r) + 1

  unfoldable pub balanced_node : Tree K V → Bool
  unfolding bias
  balanced_node null = true
  balanced_node (node l h e r) =
      let b = bias (node l h e r) in
      leb_ℤ (negsuc 0) b && leb_ℤ b (pos 1) && (balanced_node l && balanced_node r)

module _ {ℓ κ} {K : Type ℓ} {V : Type κ} ⦃o : Comparator K⦄ where
  -- The test of a child's key that is skipped at a NULL link.
  abbrev pub left_fits : Option (Entry K V) → Entry K V → Bool
  left_fits none e = true
  left_fits (some x) e = elim (o.compare x.key e.key) [ lt ↦ true | _ ↦ false ]

  abbrev pub right_fits : Entry K V → Option (Entry K V) → Bool
  right_fits e none = true
  right_fits e (some x) = elim (o.compare e.key x.key) [ gt ↦ false | _ ↦ true ]

  unfoldable pub check_node : Tree K V → Bool
  unfolding count_levels
  check_node null = true
  check_node (node l h e r) =
      left_fits (root_entry l) e
      && right_fits e (root_entry r)
      && (count_levels (node l h e r) == h)
      && (check_node l && check_node r)

bias_in_range :
    (a b : ℕ)
    → a ≤ b + 1
    → b ≤ a + 1
    → (leb_ℤ (negsuc 0) (pos a -ℤ pos b) ≡ true) × (leb_ℤ (pos a -ℤ pos b) (pos 1) ≡ true)
unfolding ◌-ℤ◌
bias_in_range a b p q = ground arith

and_parts :
    (a b c d : Bool)
    → (a && b && (c && d)) ≡ true
    → (a ≡ true) × (b ≡ true) × (c ≡ true) × (d ≡ true)
and_parts a b c d h = ground arith

bias_bounds :
    (a b : ℕ)
    → leb_ℤ (negsuc 0) (pos a -ℤ pos b) ≡ true
    → leb_ℤ (pos a -ℤ pos b) (pos 1) ≡ true
    → (a ≤ b + 1) × (b ≤ a + 1)
unfolding ◌-ℤ◌
bias_bounds a b p q = ground arith

module _ {ℓ κ} {K : Type ℓ} {V : Type κ} where
  pub count_nodes-length : (t : Tree K V) → count_nodes t ≡ length (to_list t)
  unfolding count_nodes
  count_nodes-length null = refl
  count_nodes-length (node l h e r) =
      omega (
        arith,
        count_nodes-length l,
        count_nodes-length r,
        length-append (to_list l) (e ∷ to_list r),
      )

  pub count_levels-get_height : (t : Tree K V) → IsAvl t → count_levels t ≡ get_height t
  unfolding count_levels get_height
  count_levels-get_height null a = refl
  count_levels-get_height (node l h e r) a = omega (
    arith,
    max_-max (count_levels l) (count_levels r),
    count_levels-get_height l a.3,
    count_levels-get_height r a.4,
  )

  balanced_node-IsAvl : (t : Tree K V) → IsAvl t → balanced_node t ≡ true
  unfolding balanced_node
  balanced_node-IsAvl null a = refl
  balanced_node-IsAvl (node l h e r) a =
      let b = bias_in_range (get_height l) (get_height r) a.1 a.2 in
      rw (b.0, b.1, balanced_node-IsAvl l a.3, balanced_node-IsAvl r a.4)

module _ {ℓ κ} {K : Type ℓ} {V : Type κ} ⦃o : Comparator K⦄ where
  root_left_fits :
      (l : Tree K V) (e : Entry K V) → Below e.key (to_list l) → left_fits (root_entry l) e ≡ true
  root_left_fits null e b = refl
  root_left_fits (node p q x t) e b =
      rw ((All-append_right (λ y. y.key ≺ e.key) (to_list p) (x ∷ to_list t) b).0)

  root_right_fits :
      (r : Tree K V) (e : Entry K V) → Above e.key (to_list r) → right_fits e (root_entry r) ≡ true
  root_right_fits null e a = refl
  root_right_fits (node p q x t) e a =
      rw ((All-append_right (λ y. e.key ≺ y.key) (to_list p) (x ∷ to_list t) a).0)

  check_node-IsAvl : (t : Tree K V) → IsAvl t → IsIncreasing (to_list t) → check_node t ≡ true
  unfolding check_node
  check_node-IsAvl null a s = refl
  check_node-IsAvl (node l h e r) a s =
      let parts = IsIncreasing-parts (to_list l) e (to_list r) s in
      ground (
        arith,
        root_left_fits l e parts.0,
        root_right_fits r e parts.1,
        count_levels-get_height l a.3,
        count_levels-get_height r a.4,
        check_node-IsAvl l a.3 parts.2,
        check_node-IsAvl r a.4 parts.3,
      )

  -- Every AVL tree with increasing keys passes both self-checks.
  pub checks_pass :
      (t : Tree K V)
      → IsAvl t
      → IsIncreasing (to_list t)
      → (balanced_node t ≡ true) × (check_node t ≡ true)
  checks_pass t a s = (balanced_node-IsAvl t a, check_node-IsAvl t a s)

  check_node_levels : (t : Tree K V) → check_node t ≡ true → count_levels t ≡ get_height t
  unfolding check_node get_height count_levels
  check_node_levels null c = refl
  check_node_levels (node l h e r) c = ground arith

  balanced_parts :
      (l : Tree K V) (h : ℕ) (e : Entry K V) (r : Tree K V)
      → balanced_node (node l h e r) ≡ true
      → (leb_ℤ (negsuc 0) (pos (get_height l) -ℤ pos (get_height r)) ≡ true)
        × (leb_ℤ (pos (get_height l) -ℤ pos (get_height r)) (pos 1) ≡ true)
        × (balanced_node l ≡ true)
        × (balanced_node r ≡ true)
  unfolding balanced_node
  balanced_parts l h e r b =
      and_parts (leb_ℤ (negsuc 0) (pos (get_height l) -ℤ pos (get_height r)))
        (leb_ℤ (pos (get_height l) -ℤ pos (get_height r)) (pos 1)) (balanced_node l)
        (balanced_node r) b

  check_parts :
      (l : Tree K V) (h : ℕ) (e : Entry K V) (r : Tree K V)
      → check_node (node l h e r) ≡ true
      → (max_ (count_levels l) (count_levels r) + 1 ≡ h)
        × (check_node l ≡ true)
        × (check_node r ≡ true)
  unfolding check_node
  check_parts l h e r c =
      let parts =
        and_parts (left_fits (root_entry l) e && right_fits e (root_entry r))
          (max_ (count_levels l) (count_levels r) + 1 == h) (check_node l) (check_node r) c in
      ((==_iff _ h).0 parts.1, parts.2, parts.3)

  -- A tree that passes both self-checks has true heights, and siblings within one level of each
  -- other.
  pub checks_sound : (t : Tree K V) → balanced_node t ≡ true → check_node t ≡ true → IsAvl t
  checks_sound null b c = tt
  checks_sound (node l h e r) b c =
      let (low, high, bl, br) = balanced_parts l h e r b in
      let (levels, cl, cr) = check_parts l h e r c in
      let (p, q) = bias_bounds (get_height l) (get_height r) low high in
      (
        omega (
          arith,
          levels,
          check_node_levels l cl,
          check_node_levels r cr,
          max_-max (count_levels l) (count_levels r),
        ),
        p,
        q,
        checks_sound l bl cl,
        checks_sound r br cr,
      )
