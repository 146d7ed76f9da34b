-- ===== src/Avl/Rebalance.antt =====
-- src/avltree.h: `balance_left_` and `balance_right_` and the AVL invariant.
use xrossfire.Base.{
  ℕ, ◌+◌, ◌≤◌, ◌<◌, ◌≡◌, ◌⊎◌, inl, inr, Bool, true, false, arith, leb, Bool-cases, leb→le, Returns,
}
use xrossfire.Avl.{Entry, Tree, null, node, get_height, balance_left, balance_right}
use xrossfire.Avl.Balance.{
  get_height-node, balance_left_level, balance_left_single, balance_left_double,
  balance_right_level, balance_right_single, balance_right_double,
}
use xrossfire.Avl.Shape.{
  IsAvl, Rebalanced, settled-Rebalanced, settled_right-Rebalanced, single_left-Rebalanced,
  double_left-Rebalanced, single_right-Rebalanced, double_right-Rebalanced,
}

tall_leb : (a b : ℕ) → a ≡ b + 2 → leb (b + 2) a ≡ true
tall_leb a b h = ground arith

leb→lt : (a b : ℕ) → leb a b ≡ false → b < a
leb→lt a b h = ground arith

tall_changed :
    (a b : ℕ) (changed : Bool)
    → leb (b + 2) a ≡ true
    → ((a ≤ b + 1) ⊎ (changed ≡ true))
    → changed ≡ true
tall_changed a b changed h c = ground arith

not_leb_null {ℓ κ} :
    (K : Type ℓ) (V : Type κ) (n : ℕ) → leb (get_height {K = K} {V = V} null) n ≡ false → ⊥
unfolding get_height
not_leb_null K V n h = ground arith

module _ {ℓ κ} {K : Type ℓ} {V : Type κ} where
  no_tall_null : (r : Tree K V) → get_height {K = K} {V = V} null ≡ get_height r + 2 → ⊥
  unfolding get_height
  no_tall_null r h = omega arith

  rotated_left-Rebalanced :
      (l : Tree K V) (h : ℕ) (e : Entry K V) (r : Tree K V)
      → IsAvl l
      → IsAvl r
      → get_height l ≡ get_height r + 2
      → Returns (balance_left (node l h e r) true) (Rebalanced (get_height l) (get_height r) h e)
  rotated_left-Rebalanced null h e r al ar p = absurd (no_tall_null r p)
  rotated_left-Rebalanced (node ll lh le lr) h e r al ar p =
      rw get_height-node (elim (Bool-cases (leb (get_height lr) (get_height ll))) [
        | inl lean ↦ (
          _,
          balance_left_single ll lh le lr h e r true (tall_leb _ _ q) lean,
          single_left-Rebalanced ll lh le lr h e r al ar q (leb→le _ _ lean),
        )
        | inr bent ↦ double lr al bent
      ])
    where
      q : lh ≡ get_height r + 2
      q = rw get_height-node at p

      double :
          (lr : Tree K V)
          → IsAvl (node ll lh le lr)
          → leb (get_height lr) (get_height ll) ≡ false
          → Returns
              (balance_left (node (node ll lh le lr) h e r) true)
              (Rebalanced lh (get_height r) h e)
      double null al bent = absurd (not_leb_null K V _ bent)
      double (node ml mh m mr) al bent = (
        _,
        balance_left_double ll lh le ml mh m mr h e r true (tall_leb _ _ q)
            (rw get_height-node at bent),
        double_left-Rebalanced ll lh le ml mh m mr h e r al ar q
            (leb→lt _ _ (rw get_height-node at bent)),
      )

  rotated_right-Rebalanced :
      (l : Tree K V) (h : ℕ) (e : Entry K V) (r : Tree K V)
      → IsAvl l
      → IsAvl r
      → get_height r ≡ get_height l + 2
      → Returns (balance_right (node l h e r) true) (Rebalanced (get_height r) (get_height l) h e)
  rotated_right-Rebalanced l h e null al ar p = absurd (no_tall_null l p)
  rotated_right-Rebalanced l h e (node rl rh re rr) al ar p =
      rw get_height-node (elim (Bool-cases (leb (get_height rl) (get_height rr))) [
        | inl lean ↦ (
          _,
          balance_right_single l h e rl rh re rr true (tall_leb _ _ q) lean,
          single_right-Rebalanced l h e rl rh re rr al ar q (leb→le _ _ lean),
        )
        | inr bent ↦ double rl ar bent
      ])
    where
      q : rh ≡ get_height l + 2
      q = rw get_height-node at p

      double :
          (rl : Tree K V)
          → IsAvl (node rl rh re rr)
          → leb (get_height rl) (get_height rr) ≡ false
          → Returns
              (balance_right (node l h e (node rl rh re rr)) true)
              (Rebalanced rh (get_height l) h e)
      double null ar bent = absurd (not_leb_null K V _ bent)
      double (node ml mh m mr) ar bent = (
        _,
        balance_right_double l h e ml mh m mr rh re rr true (tall_leb _ _ q)
            (rw get_height-node at bent),
        double_right-Rebalanced l h e ml mh m mr rh re rr al ar q
            (leb→lt _ _ (rw get_height-node at bent)),
      )

  -- After an insertion on the left or a removal on the right.
  pub balance_left-Rebalanced :
      (l : Tree K V) (h : ℕ) (e : Entry K V) (r : Tree K V) (changed : Bool)
      → IsAvl l
      → IsAvl r
      → get_height l ≤ get_height r + 2
      → get_height r ≤ get_height l + 1
      → ((get_height l ≤ get_height r + 1) ⊎ (changed ≡ true))
      → Returns (balance_left (node l h e r) changed) (Rebalanced (get_height l) (get_height r) h e)
  balance_left-Rebalanced l h e r changed al ar p q c =
      elim (Bool-cases (leb (get_height r + 2) (get_height l))) [
        | inl tall ↦
            rw (tall_changed (get_height l) (get_height r) changed tall c)
              (rotated_left-Rebalanced l h e r al ar (ground arith))
        | inr level ↦ (
          _,
          balance_left_level l h e r changed level,
          settled-Rebalanced l h e r al ar (ground arith) q,
        )
      ]

  -- After an insertion on the right or a removal on the left.
  pub balance_right-Rebalanced :
      (l : Tree K V) (h : ℕ) (e : Entry K V) (r : Tree K V) (changed : Bool)
      → IsAvl l
      → IsAvl r
      → get_height r ≤ get_height l + 2
      → get_height l ≤ get_height r + 1
      → ((get_height r ≤ get_height l + 1) ⊎ (changed ≡ true))
      → Returns
          (balance_right (node l h e r) changed)
          (Rebalanced (get_height r) (get_height l) h e)
  balance_right-Rebalanced l h e r changed al ar p q c =
      elim (Bool-cases (leb (get_height l + 2) (get_height r))) [
        | inl tall ↦
            rw (tall_changed (get_height r) (get_height l) changed tall c)
              (rotated_right-Rebalanced l h e r al ar (ground arith))
        | inr level ↦ (
          _,
          balance_right_level l h e r changed level,
          settled_right-Rebalanced l h e r al ar q (ground arith),
        )
      ]
