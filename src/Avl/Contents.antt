-- ===== src/Avl/Contents.antt =====
-- src/avltree.h: the entries from left to right through rotations and rebalancing.
use xrossfire.Base.{
  ==_self, ℕ, ◌≡◌, refl, sym, ap, ◌∙◌, Bool, true, false, some, ◌∷◌, ◌++◌, append_assoc, ◌>>=◌,
  >>=-eq-some, if◌then◌else◌,
}
use mathlib.Core.Option.{some-injective}
use xrossfire.Base.Int.{leb_ℤ, pos, negsuc}
use xrossfire.Avl.{
  Entry, Tree, null, node, refresh, rotate_left, rotate_right, rotate_left_right, rotate_right_left,
  bias, balance_left, balance_right, to_list, root_entry, find_node, kept_link,
}

module _ {ℓ κ} {K : Type ℓ} {V : Type κ} where
  pub to_list-refresh :
      (l : Tree K V) (e : Entry K V) (r : Tree K V)
      → to_list (refresh l e r) ≡ to_list l ++ (e ∷ to_list r)
  unfolding refresh
  to_list-refresh l e r = refl

  to_list-rotate_left :
      (t : Tree K V) {u : Tree K V} → rotate_left t ≡ some u → to_list u ≡ to_list t
  unfolding rotate_left
  to_list-rotate_left null p = cc
  to_list-rotate_left (node l h e null) p = cc
  to_list-rotate_left (node l h a (node cl ch c cr)) p =
      sym (ap to_list (some-injective _ _ p))
      ∙ (append_assoc (to_list l) (a ∷ to_list cl) (c ∷ to_list cr))

  to_list-rotate_right :
      (t : Tree K V) {u : Tree K V} → rotate_right t ≡ some u → to_list u ≡ to_list t
  unfolding rotate_right
  to_list-rotate_right null p = cc
  to_list-rotate_right (node null h e r) p = cc
  to_list-rotate_right (node (node bl bh b br) h a r) p =
      sym (ap to_list (some-injective _ _ p))
      ∙ sym (append_assoc (to_list bl) (b ∷ to_list br) (a ∷ to_list r))

  to_list-rotate_left_right :
      (t : Tree K V) {u : Tree K V} → rotate_left_right t ≡ some u → to_list u ≡ to_list t
  unfolding rotate_left_right
  to_list-rotate_left_right null p = cc
  to_list-rotate_left_right (node l h e r) p =
      let (left, a, b) = >>=-eq-some (rotate_left l) _ p in
      to_list-rotate_right (node left h e r) b
      ∙ ap (λ xs. xs ++ (e ∷ to_list r)) (to_list-rotate_left l a)

  to_list-rotate_right_left :
      (t : Tree K V) {u : Tree K V} → rotate_right_left t ≡ some u → to_list u ≡ to_list t
  unfolding rotate_right_left
  to_list-rotate_right_left null p = cc
  to_list-rotate_right_left (node l h e r) p =
      let (right, a, b) = >>=-eq-some (rotate_right r) _ p in
      to_list-rotate_left (node l h e right) b
      ∙ ap (λ xs. to_list l ++ (e ∷ xs)) (to_list-rotate_right r a)

  to_list-settle_left :
      (tall lean : Bool) (n : Tree K V) (changed flag : Bool) {out : Tree K V × Bool}
      → (if tall
          then ((if lean then rotate_right n else rotate_left_right n) >>= λ n'. some (n', changed))
          else some (n, flag))
        ≡ some out
      → to_list out.0 ≡ to_list n
  to_list-settle_left true true n changed flag p =
      let (u, a, b) = >>=-eq-some (rotate_right n) _ p in
      ap (λ o. to_list o.0) (sym (some-injective (u, changed) _ b)) ∙ to_list-rotate_right n a
  to_list-settle_left true false n changed flag p =
      let (u, a, b) = >>=-eq-some (rotate_left_right n) _ p in
      ap (λ o. to_list o.0) (sym (some-injective (u, changed) _ b)) ∙ to_list-rotate_left_right n a
  to_list-settle_left false lean n changed flag p =
      ap (λ o. to_list o.0) (sym (some-injective (n, flag) _ p))

  to_list-settle_right :
      (tall lean : Bool) (n : Tree K V) (changed flag : Bool) {out : Tree K V × Bool}
      → (if tall
          then ((if lean then rotate_left n else rotate_right_left n) >>= λ n'. some (n', changed))
          else some (n, flag))
        ≡ some out
      → to_list out.0 ≡ to_list n
  to_list-settle_right true true n changed flag p =
      let (u, a, b) = >>=-eq-some (rotate_left n) _ p in
      ap (λ o. to_list o.0) (sym (some-injective (u, changed) _ b)) ∙ to_list-rotate_left n a
  to_list-settle_right true false n changed flag p =
      let (u, a, b) = >>=-eq-some (rotate_right_left n) _ p in
      ap (λ o. to_list o.0) (sym (some-injective (u, changed) _ b)) ∙ to_list-rotate_right_left n a
  to_list-settle_right false lean n changed flag p =
      ap (λ o. to_list o.0) (sym (some-injective (n, flag) _ p))

  pub to_list-balance_left :
      (l : Tree K V) (h : ℕ) (e : Entry K V) (r : Tree K V) (changed : Bool) {out : Tree K V × Bool}
      → balance_left (node l h e r) changed ≡ some out
      → to_list out.0 ≡ to_list l ++ (e ∷ to_list r)
  unfolding balance_left
  to_list-balance_left l h e r changed p =
      to_list-settle_left (leb_ℤ (pos 2) (bias (refresh l e r))) (leb_ℤ (pos 0) (bias l))
        (refresh l e r) changed _ p
      ∙ to_list-refresh l e r

  pub to_list-balance_right :
      (l : Tree K V) (h : ℕ) (e : Entry K V) (r : Tree K V) (changed : Bool) {out : Tree K V × Bool}
      → balance_right (node l h e r) changed ≡ some out
      → to_list out.0 ≡ to_list l ++ (e ∷ to_list r)
  unfolding balance_right
  to_list-balance_right l h e r changed p =
      to_list-settle_right (leb_ℤ (bias (refresh l e r)) (negsuc 1)) (leb_ℤ (bias r) (pos 0))
        (refresh l e r) changed _ p
      ∙ to_list-refresh l e r

  -- A link to a root that stays the root of its subtree needs no rewriting.
  pub kept_link-same :
      (old new : Tree K V) → root_entry new ≡ root_entry old → kept_link old new ≡ new
  unfolding kept_link
  kept_link-same null null p = refl
  kept_link-same null (node l h e r) p = cc
  kept_link-same (node l h e r) null p = cc
  kept_link-same (node l h e r) (node l' h' e' r') p =
      rw (some-injective _ _ p, find_node) (rw ==_self)
