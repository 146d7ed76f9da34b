-- ===== src/Avl/Shape.antt =====
-- src/avltree.h: the AVL invariant, and what rebalancing makes of a node whose subtrees may differ
-- by two levels.
use xrossfire.Base.{
  ℕ, ◌+◌, ◌≤◌, ◌<◌, ◌≡◌, refl, ◌⊎◌, inl, Bool, true, false, some, arith, ◌==◌, not, max,
}
use xrossfire.Avl.{Entry, Tree, null, node, get_height, refresh, root_entry}
use xrossfire.Avl.Balance.{get_height-node, get_height-refresh, refresh_lem}

not_eq : (a b : ℕ) → not (a == b) ≡ false → a ≡ b
not_eq a b h = ground arith

module _ {ℓ κ} {K : Type ℓ} {V : Type κ} where
  -- Every stored height is the true one, and siblings differ by at most one level.
  abbrev pub IsAvl : Tree K V → Type 0
  IsAvl null = Unit
  IsAvl (node l h e r) =
      (h ≡ max (get_height l) (get_height r) + 1)
      × (get_height l ≤ get_height r + 1)
      × (get_height r ≤ get_height l + 1)
      × IsAvl l
      × IsAvl r

  -- The heights `tall` and `short` of the two subtrees determine that of the result: one more than
  -- the larger, or, after a rotation, possibly one less than that.
  pub record Rebalanced (tall short h : ℕ) (e : Entry K V) (result : Tree K V × Bool)
      : Type (ℓ ⊔ κ) where
    pub avl : IsAvl result.0
    pub level :
        (get_height result.0 ≡ max tall short + 1)
        ⊎ ((get_height result.0 ≡ tall) × (tall ≡ short + 2))
    pub quiet : result.1 ≡ false → (get_height result.0 ≡ h) × (root_entry result.0 ≡ some e)

  refresh-IsAvl :
      (l : Tree K V) (e : Entry K V) (r : Tree K V)
      → IsAvl l
      → IsAvl r
      → get_height l ≤ get_height r + 1
      → get_height r ≤ get_height l + 1
      → IsAvl (refresh l e r)
  refresh-IsAvl l e r al ar p q = rw refresh_lem (refl, p, q, al, ar)

  pub settled-Rebalanced :
      (l : Tree K V) (h : ℕ) (e : Entry K V) (r : Tree K V)
      → IsAvl l
      → IsAvl r
      → get_height l ≤ get_height r + 1
      → get_height r ≤ get_height l + 1
      → Rebalanced
          (get_height l)
          (get_height r)
          h
          e
          (refresh l e r, not (get_height (refresh l e r) == h))
  settled-Rebalanced l h e r al ar p q = record {
    avl = refresh-IsAvl l e r al ar p q;
    level = inl (get_height-refresh l e r);
    quiet = λ f. (not_eq _ _ f, rw refresh_lem refl);
  }

  pub settled_right-Rebalanced :
      (l : Tree K V) (h : ℕ) (e : Entry K V) (r : Tree K V)
      → IsAvl l
      → IsAvl r
      → get_height l ≤ get_height r + 1
      → get_height r ≤ get_height l + 1
      → Rebalanced
          (get_height r)
          (get_height l)
          h
          e
          (refresh l e r, not (get_height (refresh l e r) == h))
  settled_right-Rebalanced l h e r al ar p q =
      let s = settled-Rebalanced l h e r al ar p q in
      record { avl = s.avl; level = inl (omega (arith, get_height-refresh l e r)); quiet = s.quiet }

  -- A subtree two levels taller than its sibling: one rotation restores the invariant.
  pub single_left-Rebalanced :
      (ll : Tree K V) (lh : ℕ) (le : Entry K V) (lr : Tree K V) (h : ℕ) (e : Entry K V)
      (r : Tree K V)
      → IsAvl (node ll lh le lr)
      → IsAvl r
      → lh ≡ get_height r + 2
      → get_height lr ≤ get_height ll
      → Rebalanced lh
          (get_height r)
          h
          e
          (node ll (get_height (refresh lr e r) + 1) le (refresh lr e r), true)
  single_left-Rebalanced ll lh le lr h e r al ar p lean =
      let g = get_height-refresh lr e r in
      record {
        avl = (
          omega (arith, g),
          omega (arith, g),
          omega (arith, g),
          al.3,
          refresh-IsAvl lr e r al.4 ar (omega arith) (omega arith),
        );
        level = rw get_height-node (omega (arith, g));
        quiet = λ f. cc;
      }

  pub double_left-Rebalanced :
      (ll : Tree K V) (lh : ℕ) (le : Entry K V) (ml : Tree K V) (mh : ℕ) (m : Entry K V)
      (mr : Tree K V) (h : ℕ) (e : Entry K V) (r : Tree K V)
      → IsAvl (node ll lh le (node ml mh m mr))
      → IsAvl r
      → lh ≡ get_height r + 2
      → get_height ll < mh
      → Rebalanced lh
          (get_height r)
          h
          e
          (node (refresh ll le ml) (get_height (refresh mr e r) + 1) m (refresh mr e r), true)
  double_left-Rebalanced ll lh le ml mh m mr h e r al ar p bent =
      let k = get_height-node ml mh m mr in
      let f = get_height-refresh ll le ml in
      let g = get_height-refresh mr e r in
      let am = al.4 in
      record {
        avl = (
          omega (arith, f, g, k),
          omega (arith, f, g, k),
          omega (arith, f, g, k),
          refresh-IsAvl ll le ml al.3 am.3 (omega (arith, k)) (omega (arith, k)),
          refresh-IsAvl mr e r am.4 ar (omega (arith, k)) (omega (arith, k)),
        );
        level = rw get_height-node (omega (arith, f, g, k));
        quiet = λ f. cc;
      }

  pub single_right-Rebalanced :
      (l : Tree K V) (h : ℕ) (e : Entry K V) (rl : Tree K V) (rh : ℕ) (re : Entry K V)
      (rr : Tree K V)
      → IsAvl l
      → IsAvl (node rl rh re rr)
      → rh ≡ get_height l + 2
      → get_height rl ≤ get_height rr
      → Rebalanced rh
          (get_height l)
          h
          e
          (node (refresh l e rl) (get_height (refresh l e rl) + 1) re rr, true)
  single_right-Rebalanced l h e rl rh re rr al ar p lean =
      let g = get_height-refresh l e rl in
      record {
        avl = (
          omega (arith, g),
          omega (arith, g),
          omega (arith, g),
          refresh-IsAvl l e rl al ar.3 (omega arith) (omega arith),
          ar.4,
        );
        level = rw get_height-node (omega (arith, g));
        quiet = λ f. cc;
      }

  pub double_right-Rebalanced :
      (l : Tree K V) (h : ℕ) (e : Entry K V) (ml : Tree K V) (mh : ℕ) (m : Entry K V)
      (mr : Tree K V) (rh : ℕ) (re : Entry K V) (rr : Tree K V)
      → IsAvl l
      → IsAvl (node (node ml mh m mr) rh re rr)
      → rh ≡ get_height l + 2
      → get_height rr < mh
      → Rebalanced rh
          (get_height l)
          h
          e
          (node (refresh l e ml) (get_height (refresh l e ml) + 1) m (refresh mr re rr), true)
  double_right-Rebalanced l h e ml mh m mr rh re rr al ar p bent =
      let k = get_height-node ml mh m mr in
      let f = get_height-refresh l e ml in
      let g = get_height-refresh mr re rr in
      let am = ar.3 in
      record {
        avl = (
          omega (arith, f, g, k),
          omega (arith, f, g, k),
          omega (arith, f, g, k),
          refresh-IsAvl l e ml al am.3 (omega (arith, k)) (omega (arith, k)),
          refresh-IsAvl mr re rr am.4 ar.4 (omega (arith, k)) (omega (arith, k)),
        );
        level = rw get_height-node (omega (arith, f, g, k));
        quiet = λ f. cc;
      }
