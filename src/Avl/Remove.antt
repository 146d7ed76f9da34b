-- ===== src/Avl/Remove.antt =====
-- src/avltree.h: `remove_key_` and `remove_node_`.
--
-- Both pass an uninitialised local `changed` to the rebalancing steps and never read it: those write
-- it or leave it alone, and the node that they return does not depend on it. It is `true` here.
pub mod Laws
pub mod Node
use Prim.Native.Nat.Ordering.{lt, eq, gt}
use xrossfire.Base.{ℕ, Bool, true, false, Option, none, some, ◌>>=◌, ◌==◌, if◌then◌else◌}
use xrossfire.Order.{Comparator}
use xrossfire.Avl.{Entry, Tree, null, node, balance_left, balance_right}
use xrossfire.Avl.Pop.{Popped, pop_max}

module _ {ℓ κ} {K : Type ℓ} {V : Type κ} where
  -- The node that takes the place of a removed one: the last node on its left, with the links of
  -- the removed node. Its stored height is stale until it is rebalanced.
  unfoldable pub promote : Tree K V → Tree K V → Option (Tree K V)
  promote null r = some r
  promote l r = do
    out ← pop_max l
    (n, changed) ← balance_right (node out.rest out.height out.entry r) out.changed
    some n

  -- `*removed` is NULL if the key is not in the tree.
  unfoldable pub remove_left :
      ℕ
      → Entry K V
      → Tree K V
      → Tree K V × Option (Entry K V)
      → Option (Tree K V × Option (Entry K V))
  remove_left h e r (left, none) = some (node left h e r, none)
  remove_left h e r (left, some x) = do
    (n, changed) ← balance_right (node left h e r) true
    some (n, some x)

  unfoldable pub remove_right :
      Tree K V
      → ℕ
      → Entry K V
      → Tree K V × Option (Entry K V)
      → Option (Tree K V × Option (Entry K V))
  remove_right l h e (right, none) = some (node l h e right, none)
  remove_right l h e (right, some x) = do
    (n, changed) ← balance_left (node l h e right) true
    some (n, some x)

  unfoldable pub unlink_left : ℕ → Entry K V → Tree K V → Tree K V × Bool → Option (Tree K V × Bool)
  unlink_left h e r (left, false) = some (node left h e r, false)
  unlink_left h e r (left, true) = do
    (n, changed) ← balance_right (node left h e r) true
    some (n, true)

  unfoldable pub unlink_right :
      Tree K V → ℕ → Entry K V → Tree K V × Bool → Option (Tree K V × Bool)
  unlink_right l h e (right, false) = some (node l h e right, false)
  unlink_right l h e (right, true) = do
    (n, changed) ← balance_left (node l h e right) true
    some (n, true)

module _ {ℓ κ} {K : Type ℓ} {V : Type κ} ⦃o : Comparator K⦄ where
  unfoldable pub remove_key : Tree K V → K → Option (Tree K V × Option (Entry K V))
  unfolding promote remove_left remove_right
  remove_key null k = some (null, none)
  remove_key (node l h e r) k = elim (o.compare k e.key) [
    | lt ↦ remove_key l k >>= remove_left h e r
    | gt ↦ remove_key r k >>= remove_right l h e
    | eq ↦ promote l r >>= λ n. some (n, some e)
  ]

  -- Removes the node at the address of `del` only; another node with its key stays.
  unfoldable pub remove_node : Tree K V → Entry K V → Option (Tree K V × Bool)
  unfolding promote unlink_left unlink_right
  remove_node null del = some (null, false)
  remove_node (node l h e r) del = elim (o.compare del.key e.key) [
    | lt ↦ remove_node l del >>= unlink_left h e r
    | gt ↦ remove_node r del >>= unlink_right l h e
    | eq ↦
        if e.address == del.address
        then (promote l r >>= λ n. some (n, true))
        else some (node l h e r, false)
  ]
