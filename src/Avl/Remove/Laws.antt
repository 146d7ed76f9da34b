-- ===== src/Avl/Remove/Laws.antt =====
-- src/avltree.h: `remove_key_` and the AVL invariant, and which entry is taken.
use Prim.Native.Nat.Ordering.{lt, eq, gt}
use xrossfire.Base.{
  ℕ, ◌+◌, ◌≤◌, ◌≡◌, refl, sym, ap, ◌∙◌, ◌⊎◌, inl, inr, Bool, true, false, Option, none, some, [],
  ◌∷◌, ◌++◌, append_assoc, arith, ◌>>=◌, Returns, Returns-bind,
}
use xrossfire.Order.{Comparator, is_lt, is_eq, is_gt, sign}
use xrossfire.Avl.{Entry, Tree, null, node, get_height, to_list}
use xrossfire.Avl.Balance.{get_height-node}
use xrossfire.Avl.Contents.{to_list-balance_left, to_list-balance_right}
use xrossfire.Avl.Shape.{IsAvl}
use xrossfire.Avl.Rebalance.{balance_left-Rebalanced, balance_right-Rebalanced}
use xrossfire.Avl.Search.{
  find_key_left, find_key_right, find_key_here, erase_key_left, erase_key_right, erase_key_here,
}
use xrossfire.Avl.Sorted.{IsIncreasing, IsIncreasing-parts, find_key, erase_key}
use xrossfire.Avl.Pop.{pop_max}
use xrossfire.Avl.Ends.{pop_max-PopsMax}
use xrossfire.Avl.Remove.{promote, remove_left, remove_right, remove_key}

-- A subtree that reports no change is as tall as before.
still {ℓ} :
    {m n b : ℕ} {A : Type ℓ} (c : Bool)
    → (c ≡ false → (m ≡ n) × A)
    → b ≤ n + 1
    → (b ≤ m + 1) ⊎ (c ≡ true)
still true q h = inr refl
still false q h = inl (omega (arith, (q refl).0))

module _ {ℓ κ} {K : Type ℓ} {V : Type κ} where
  pub record Promotes (l : Tree K V) (h : ℕ) (r : Tree K V) (n : Tree K V) : Type (ℓ ⊔ κ) where
    pub avl : IsAvl n
    pub contents : to_list n ≡ to_list l ++ to_list r
    pub shrinks : (get_height n ≤ h) × (h ≤ get_height n + 1)

  promote_null :
      (h : ℕ) (e : Entry K V) (r : Tree K V) → IsAvl (node null h e r) → Promotes null h r r
  unfolding get_height
  promote_null h e r a = record { avl = a.4; contents = refl; shrinks = omega arith }

  promote-Promotes :
      (l : Tree K V) (h : ℕ) (e : Entry K V) (r : Tree K V)
      → IsAvl (node l h e r)
      → Returns (promote l r) (Promotes l h r)
  unfolding promote
  promote-Promotes null h e r a = (r, refl, promote_null h e r a)
  promote-Promotes (node p q s t) h e r a =
      let l = node p q s t in
      Returns-bind (Promotes l h r) (pop_max l) _ (pop_max-PopsMax l a.3 (λ f. cc)) λ out i.
        let (n, ran, b) =
          balance_right-Rebalanced out.rest out.height out.entry r out.changed i.0.avl a.4
            (omega (arith, i.0.shrinks)) (omega (arith, i.0.shrinks))
            (still out.changed i.0.quiet a.2) in
        (
          n.0,
          rw ran,
          record {
            avl = b.avl;
            contents =
                to_list-balance_right out.rest out.height out.entry r out.changed ran
                ∙ sym (append_assoc (to_list out.rest) (out.entry ∷ []) (to_list r))
                ∙ ap (λ xs. xs ++ to_list r) (sym i.1);
            shrinks = omega (arith, b.level, i.0.shrinks);
          },
        )

module _ {ℓ κ} {K : Type ℓ} {V : Type κ} ⦃o : Comparator K⦄ where
  pub record Removes (t : Tree K V) (k : K) (out : Tree K V × Option (Entry K V))
      : Type (ℓ ⊔ κ) where
    pub avl : IsAvl out.0
    pub contents : to_list out.0 ≡ erase_key k (to_list t)
    pub found : out.1 ≡ find_key k (to_list t)
    pub shrinks : (get_height out.0 ≤ get_height t) × (get_height t ≤ get_height out.0 + 1)
    pub missed : out.1 ≡ none → out.0 ≡ t

  remove_left-Removes :
      (l : Tree K V) (h : ℕ) (e : Entry K V) (r : Tree K V) (k : K)
      (out : Tree K V × Option (Entry K V))
      → IsAvl (node l h e r)
      → IsIncreasing (to_list (node l h e r))
      → o.compare k e.key ≡ lt
      → Removes l k out
      → Returns (remove_left h e r out) (Removes (node l h e r) k)
  unfolding remove_left
  remove_left-Removes l h e r k (left, none) a s p i =
      let parts = IsIncreasing-parts (to_list l) e (to_list r) s in
      let same = i.missed refl in
      let level = ap get_height same in
      (
        _,
        refl,
        record {
          avl = (omega (arith, level), omega (arith, level), omega (arith, level), i.avl, a.4);
          contents =
              ap (λ xs. xs ++ (e ∷ to_list r)) i.contents
              ∙ sym (erase_key_left k (to_list l) e (to_list r) parts.1 p);
          found = i.found ∙ sym (find_key_left k (to_list l) e (to_list r) parts.1 p);
          shrinks = simp get_height-node (omega arith);
          missed = λ _. ap (λ n. node n h e r) same;
        },
      )
  remove_left-Removes l h e r k (left, some x) a s p i =
      let parts = IsIncreasing-parts (to_list l) e (to_list r) s in
      let (out, ran, b) =
        balance_right-Rebalanced left h e r true i.avl a.4 (omega (arith, i.shrinks))
          (omega (arith, i.shrinks)) (inr refl) in
      (
        (out.0, some x),
        rw ran,
        record {
          avl = b.avl;
          contents =
              to_list-balance_right left h e r true ran
              ∙ ap (λ xs. xs ++ (e ∷ to_list r)) i.contents
              ∙ sym (erase_key_left k (to_list l) e (to_list r) parts.1 p);
          found = i.found ∙ sym (find_key_left k (to_list l) e (to_list r) parts.1 p);
          shrinks = simp get_height-node (omega (arith, b.level, i.shrinks));
          missed = λ f. cc;
        },
      )

  remove_right-Removes :
      (l : Tree K V) (h : ℕ) (e : Entry K V) (r : Tree K V) (k : K)
      (out : Tree K V × Option (Entry K V))
      → IsAvl (node l h e r)
      → IsIncreasing (to_list (node l h e r))
      → o.compare k e.key ≡ gt
      → Removes r k out
      → Returns (remove_right l h e out) (Removes (node l h e r) k)
  unfolding remove_right
  remove_right-Removes l h e r k (right, none) a s p i =
      let parts = IsIncreasing-parts (to_list l) e (to_list r) s in
      let same = i.missed refl in
      let level = ap get_height same in
      (
        _,
        refl,
        record {
          avl = (omega (arith, level), omega (arith, level), omega (arith, level), a.3, i.avl);
          contents =
              ap (λ xs. to_list l ++ (e ∷ xs)) i.contents
              ∙ sym (erase_key_right k (to_list l) e (to_list r) parts.0 p);
          found = i.found ∙ sym (find_key_right k (to_list l) e (to_list r) parts.0 p);
          shrinks = simp get_height-node (omega arith);
          missed = λ _. ap (λ n. node l h e n) same;
        },
      )
  remove_right-Removes l h e r k (right, some x) a s p i =
      let parts = IsIncreasing-parts (to_list l) e (to_list r) s in
      let (out, ran, b) =
        balance_left-Rebalanced l h e right true a.3 i.avl (omega (arith, i.shrinks))
          (omega (arith, i.shrinks)) (inr refl) in
      (
        (out.0, some x),
        rw ran,
        record {
          avl = b.avl;
          contents =
              to_list-balance_left l h e right true ran
              ∙ ap (λ xs. to_list l ++ (e ∷ xs)) i.contents
              ∙ sym (erase_key_right k (to_list l) e (to_list r) parts.0 p);
          found = i.found ∙ sym (find_key_right k (to_list l) e (to_list r) parts.0 p);
          shrinks = simp get_height-node (omega (arith, b.level, i.shrinks));
          missed = λ f. cc;
        },
      )

  remove_here-Removes :
      (l : Tree K V) (h : ℕ) (e : Entry K V) (r : Tree K V) (k : K)
      → IsAvl (node l h e r)
      → IsIncreasing (to_list (node l h e r))
      → o.compare k e.key ≡ eq
      → Returns (promote l r >>= λ n. some (n, some e)) (Removes (node l h e r) k)
  remove_here-Removes l h e r k a s p =
      let parts = IsIncreasing-parts (to_list l) e (to_list r) s in
      Returns-bind (Removes (node l h e r) k) (promote l r) _ (promote-Promotes l h e r a) λ n i. (
        (n, some e),
        refl,
        record {
          avl = i.avl;
          contents = i.contents ∙ sym (erase_key_here k (to_list l) e (to_list r) parts.0 p);
          found = sym (find_key_here k (to_list l) e (to_list r) parts.0 p);
          shrinks = simp get_height-node (omega (arith, i.shrinks));
          missed = λ f. cc;
        },
      )

  -- Removal never faults. It keeps the AVL invariant, takes the entry with the key out of the order
  -- and hands it back, and leaves the tree as it was if there is none.
  pub remove_key-Removes :
      (t : Tree K V) (k : K)
      → IsAvl t
      → IsIncreasing (to_list t)
      → Returns (remove_key t k) (Removes t k)
  unfolding remove_key find_key erase_key
  remove_key-Removes null k a s = (
    _,
    refl,
    record { avl = tt; contents = refl; found = refl; shrinks = omega arith; missed = λ _. refl },
  )
  remove_key-Removes (node l h e r) k a s =
      let parts = IsIncreasing-parts (to_list l) e (to_list r) s in
      let left = remove_key-Removes l k a.3 parts.2 in
      let right = remove_key-Removes r k a.4 parts.3 in
      let goal = Removes (node l h e r) k in
      elim (sign (o.compare k e.key)) [
        | is_lt p ↦
            rw (p, remove_key)
              (Returns-bind goal _ _ left (λ out i. remove_left-Removes l h e r k out a s p i))
        | is_gt p ↦
            rw (p, remove_key)
              (Returns-bind goal _ _ right (λ out i. remove_right-Removes l h e r k out a s p i))
        | is_eq p ↦ rw (p, remove_key) (remove_here-Removes l h e r k a s p)
      ]
