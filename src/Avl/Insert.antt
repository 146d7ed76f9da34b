-- ===== src/Avl/Insert.antt =====
-- src/avltree.h: `insert_node_`.
--
-- The new node comes with NULL links, as `xf_timeout_schedule` prepares it. The out-parameters
-- `*inserted` and `*changed` are the second and the third part of the result; on every path the
-- call at the end of the descent writes both, so their values at entry are not read.
use Prim.Native.Nat.Ordering.{lt, eq, gt}
use xrossfire.Base.{
  ℕ, ◌+◌, ◌≤◌, ◌≡◌, refl, sym, Returns-bind, ap, ◌∙◌, ◌⊎◌, inl, inr, Bool, true, false, Option,
  none, some, ◌∷◌, ◌++◌, arith, ◌>>=◌, Returns, if◌then◌else◌,
}
use xrossfire.Order.{Comparator, is_lt, is_gt, is_eq, sign}
use xrossfire.Avl.{
  Entry, Tree, null, node, get_height, balance_left, balance_right, to_list, root_entry, kept_link,
}
use xrossfire.Avl.Balance.{get_height-node}
use xrossfire.Avl.Contents.{to_list-balance_left, to_list-balance_right, kept_link-same}
use xrossfire.Avl.Shape.{IsAvl}
use xrossfire.Avl.Rebalance.{balance_left-Rebalanced, balance_right-Rebalanced}
use xrossfire.Avl.Search.{
  insert_entry_left, insert_entry_right, insert_entry_here, find_key_left, find_key_right,
  find_key_here,
}
use xrossfire.Avl.Sorted.{IsIncreasing, IsIncreasing-parts, insert_entry, find_key}

module _ {ℓ κ} {K : Type ℓ} {V : Type κ} ⦃o : Comparator K⦄ where
  -- The code after the recursive call for the left link: `out` is what it returned and wrote.
  unfoldable pub insert_left :
      Tree K V → ℕ → Entry K V → Tree K V → Tree K V × Bool × Bool → Option (Tree K V × Bool × Bool)
  insert_left l h e r (left, inserted, changed) =
      if changed
      then (do (n, changed') ← balance_left (node left h e r) changed; some (n, inserted, changed'))
      else some (node (kept_link l left) h e r, inserted, changed)

  -- The same for the right link, which tests `*inserted`.
  unfoldable pub insert_right :
      Tree K V → ℕ → Entry K V → Tree K V → Tree K V × Bool × Bool → Option (Tree K V × Bool × Bool)
  insert_right l h e r (right, inserted, changed) =
      if inserted
      then (do
        (n, changed') ← balance_right (node l h e right) changed
        some (n, inserted, changed'))
      else some (node l h e (kept_link r right), inserted, changed)

  unfoldable pub insert_node : Tree K V → Entry K V → Option (Tree K V × Bool × Bool)
  unfolding insert_left insert_right
  insert_node null x = some (node null 1 x null, true, true)
  insert_node (node l h e r) x = elim (o.compare x.key e.key) [
    | lt ↦ insert_node l x >>= insert_left l h e r
    | gt ↦ insert_node r x >>= insert_right l h e r
    | eq ↦ some (node l h e r, false, false)
  ]

  abbrev pub is_none : Option (Entry K V) → Bool
  is_none none = true
  is_none (some x) = false

  new_node-IsAvl : (x : Entry K V) → IsAvl (node null 1 x null)
  unfolding get_height
  new_node-IsAvl x = omega arith

  new_node_grows :
      (x : Entry K V)
      → (get_height {K = K} {V = V} null ≤ get_height (node null 1 x null))
        × (get_height (node null 1 x null) ≤ get_height {K = K} {V = V} null + 1)
  unfolding get_height
  new_node_grows x = omega arith

  pub record Inserts (t : Tree K V) (x : Entry K V) (out : Tree K V × Bool × Bool)
      : Type (ℓ ⊔ κ) where
    pub avl : IsAvl out.0
    pub contents : to_list out.0 ≡ insert_entry x (to_list t)
    pub flag : out.1 ≡ is_none (find_key x.key (to_list t))
    pub grows : (get_height t ≤ get_height out.0) × (get_height out.0 ≤ get_height t + 1)
    pub quiet :
        out.2 ≡ false → (get_height out.0 ≡ get_height t) × (root_entry out.0 ≡ root_entry t)
    pub refused : out.1 ≡ false → out.2 ≡ false

  insert_left-Inserts :
      (l : Tree K V) (h : ℕ) (e : Entry K V) (r : Tree K V) (x : Entry K V)
      (out : Tree K V × Bool × Bool)
      → IsAvl (node l h e r)
      → IsIncreasing (to_list (node l h e r))
      → o.compare x.key e.key ≡ lt
      → Inserts l x out
      → Returns (insert_left l h e r out) (Inserts (node l h e r) x)
  unfolding insert_left
  insert_left-Inserts l h e r x (left, inserted, false) a s p i =
      let (level, same) = i.quiet refl in
      let parts = IsIncreasing-parts (to_list l) e (to_list r) s in
      (
        (node left h e r, inserted, false),
        rw (kept_link-same l left same),
        record {
          avl = (omega (arith, level), omega (arith, level), omega (arith, level), i.avl, a.4);
          contents =
              ap (λ xs. xs ++ (e ∷ to_list r)) i.contents
              ∙ sym (insert_entry_left x (to_list l) e (to_list r) p);
          flag =
              i.flag ∙ ap is_none (sym (find_key_left x.key (to_list l) e (to_list r) parts.1 p));
          grows = simp get_height-node (omega arith);
          quiet = λ _. (simp get_height-node, refl);
          refused = λ _. refl;
        },
      )
  insert_left-Inserts l h e r x (left, inserted, true) a s p i =
      let parts = IsIncreasing-parts (to_list l) e (to_list r) s in
      let (out, ran, b) =
        balance_left-Rebalanced left h e r true i.avl a.4 (omega arith) (omega arith) (inr refl) in
      (
        (out.0, inserted, out.1),
        rw ran,
        record {
          avl = b.avl;
          contents =
              to_list-balance_left left h e r true ran
              ∙ ap (λ xs. xs ++ (e ∷ to_list r)) i.contents
              ∙ sym (insert_entry_left x (to_list l) e (to_list r) p);
          flag =
              i.flag ∙ ap is_none (sym (find_key_left x.key (to_list l) e (to_list r) parts.1 p));
          grows = simp get_height-node (omega (arith, b.level));
          quiet = λ f. (simp get_height-node (b.quiet f).0, (b.quiet f).1);
          refused = λ f. cc (i.refused f);
        },
      )

  insert_right-Inserts :
      (l : Tree K V) (h : ℕ) (e : Entry K V) (r : Tree K V) (x : Entry K V)
      (out : Tree K V × Bool × Bool)
      → IsAvl (node l h e r)
      → IsIncreasing (to_list (node l h e r))
      → o.compare x.key e.key ≡ gt
      → Inserts r x out
      → Returns (insert_right l h e r out) (Inserts (node l h e r) x)
  unfolding insert_right
  insert_right-Inserts l h e r x (right, false, changed) a s p i =
      let off = i.refused refl in
      let (level, same) = i.quiet off in
      let parts = IsIncreasing-parts (to_list l) e (to_list r) s in
      (
        (node l h e right, false, changed),
        rw (kept_link-same r right same),
        record {
          avl = (omega (arith, level), omega (arith, level), omega (arith, level), a.3, i.avl);
          contents =
              ap (λ xs. to_list l ++ (e ∷ xs)) i.contents
              ∙ sym (insert_entry_right x (to_list l) e (to_list r) parts.0 p);
          flag =
              i.flag ∙ ap is_none (sym (find_key_right x.key (to_list l) e (to_list r) parts.0 p));
          grows = simp get_height-node (omega arith);
          quiet = λ _. (simp get_height-node, refl);
          refused = λ _. off;
        },
      )
  insert_right-Inserts l h e r x (right, true, changed) a s p i =
      let parts = IsIncreasing-parts (to_list l) e (to_list r) s in
      let (out, ran, b) =
        balance_right-Rebalanced l h e right changed a.3 i.avl (omega arith) (omega arith)
          (still changed i.quiet) in
      (
        (out.0, true, out.1),
        rw ran,
        record {
          avl = b.avl;
          contents =
              to_list-balance_right l h e right changed ran
              ∙ ap (λ xs. to_list l ++ (e ∷ xs)) i.contents
              ∙ sym (insert_entry_right x (to_list l) e (to_list r) parts.0 p);
          flag =
              i.flag ∙ ap is_none (sym (find_key_right x.key (to_list l) e (to_list r) parts.0 p));
          grows = simp get_height-node (omega (arith, b.level));
          quiet = λ f. (simp get_height-node (b.quiet f).0, (b.quiet f).1);
          refused = λ f. cc;
        },
      )
    where
      still :
          (c : Bool)
          → (c ≡ false → (get_height right ≡ get_height r) × (root_entry right ≡ root_entry r))
          → ((get_height right ≤ get_height l + 1) ⊎ (c ≡ true))
      still true q = inr refl
      still false q = inl (omega (arith, (q refl).0))

  -- Insertion never faults. It keeps the AVL invariant, adds the entry at its place in the order,
  -- and reports whether the key was new.
  pub insert_node-Inserts :
      (t : Tree K V) (x : Entry K V)
      → IsAvl t
      → IsIncreasing (to_list t)
      → Returns (insert_node t x) (Inserts t x)
  unfolding insert_node insert_entry find_key
  insert_node-Inserts null x a s = (
    _,
    refl,
    record {
      avl = new_node-IsAvl x;
      contents = refl;
      flag = refl;
      grows = new_node_grows x;
      quiet = λ f. cc;
      refused = λ f. cc;
    },
  )
  insert_node-Inserts (node l h e r) x a s =
      let parts = IsIncreasing-parts (to_list l) e (to_list r) s in
      let left = insert_node-Inserts l x a.3 parts.2 in
      let right = insert_node-Inserts r x a.4 parts.3 in
      elim (sign (o.compare x.key e.key)) [
        | is_lt p ↦
            rw (p, insert_node)
              (Returns-bind _ _ _ left (λ out i. insert_left-Inserts l h e r x out a s p i))
        | is_gt p ↦
            rw (p, insert_node)
              (Returns-bind _ _ _ right (λ out i. insert_right-Inserts l h e r x out a s p i))
        | is_eq p ↦
            rw (p, insert_node)
              (
                _,
                refl,
                record {
                  avl = a;
                  contents = sym (insert_entry_here x (to_list l) e (to_list r) parts.0 p);
                  flag = ap is_none (sym (find_key_here x.key (to_list l) e (to_list r) parts.0 p));
                  grows = omega arith;
                  quiet = λ _. (refl, refl);
                  refused = λ _. refl;
                },
              )
      ]
