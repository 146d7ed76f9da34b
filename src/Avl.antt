-- ===== src/Avl.antt =====
-- src/avltree.h: the nodes, their heights, the rotations and the two rebalancing steps.
--
-- A `Tree` is what a `XF_AVLTREE_NODE_T *` leads to: NULL, or a node with its two links, its stored
-- height and the rest of the structure (`Entry`: its address, its key and what its owner keeps in
-- it). A function that reads through a pointer faults (`none`) where the pointer is NULL. The
-- heights are an `int` that no tree in memory can overflow, so they are natural numbers here; the
-- bias is signed.
pub mod Sorted
pub mod Balance
pub mod Search
pub mod Cancel
pub mod Shape
pub mod Rebalance
pub mod Contents
pub mod Insert
pub mod Pop
pub mod Ends
pub mod Remove
pub mod Check
pub mod Height
pub mod Root
use xrossfire.Base.{
  ℕ, ◌+◌, Bool, true, not, Option, none, some, List, [], ◌∷◌, ◌++◌, ◌==◌, leb, ltb, if◌then◌else◌,
  ◌>>=◌,
}
use xrossfire.Base.Int.{ℤ, pos, negsuc, ◌-ℤ◌, leb_ℤ}

pub record Entry {ℓ κ} (K : Type ℓ) (V : Type κ) : Type (ℓ ⊔ κ) where
  pub address : ℕ
  pub key : K
  pub value : V

pub data Tree {ℓ κ} (K : Type ℓ) (V : Type κ) : Type (ℓ ⊔ κ) where
  null : Tree K V
  node : Tree K V → ℕ → Entry K V → Tree K V → Tree K V

unfoldable pub max_ : ℕ → ℕ → ℕ
max_ a b = if ltb a b then b else a

module _ {ℓ κ} {K : Type ℓ} {V : Type κ} where
  unfoldable pub get_height : Tree K V → ℕ
  get_height null = 0
  get_height (node l h e r) = h

  -- `refresh_` of a node with the links `l` and `r`: the old height is not read.
  unfoldable pub refresh : Tree K V → Entry K V → Tree K V → Tree K V
  unfolding max_ get_height
  refresh l e r = node l (max_ (get_height l) (get_height r) + 1) e r

  unfoldable pub rotate_left : Tree K V → Option (Tree K V)
  unfolding refresh get_height
  rotate_left (node l h a (node cl ch c cr)) =
      let left = refresh l a cl in some (node left (get_height left + 1) c cr)
  rotate_left _ = none

  unfoldable pub rotate_right : Tree K V → Option (Tree K V)
  unfolding refresh get_height
  rotate_right (node (node bl bh b br) h a r) =
      let right = refresh br a r in some (node bl (get_height right + 1) b right)
  rotate_right _ = none

  unfoldable pub rotate_left_right : Tree K V → Option (Tree K V)
  unfolding rotate_left rotate_right
  rotate_left_right null = none
  rotate_left_right (node l h e r) = do left ← rotate_left l; rotate_right (node left h e r)

  unfoldable pub rotate_right_left : Tree K V → Option (Tree K V)
  unfolding rotate_left rotate_right
  rotate_right_left null = none
  rotate_right_left (node l h e r) = do right ← rotate_right r; rotate_left (node l h e right)

  unfoldable pub bias : Tree K V → ℤ
  unfolding ◌-ℤ◌ get_height
  bias null = pos 0
  bias (node l h e r) = pos (get_height l) -ℤ pos (get_height r)

  -- The node that a caller gets back, and `*changed`: its value at the call is kept by a rotation.
  unfoldable pub balance_left : Tree K V → Bool → Option (Tree K V × Bool)
  unfolding refresh get_height rotate_right rotate_left_right bias
  balance_left null changed = none
  balance_left (node l height e r) changed =
      let n = refresh l e r in
      if leb_ℤ (pos 2) (bias n)
      then (do
        n' ← if leb_ℤ (pos 0) (bias l) then rotate_right n else rotate_left_right n
        some (n', changed))
      else some (n, not (get_height n == height))

  unfoldable pub balance_right : Tree K V → Bool → Option (Tree K V × Bool)
  unfolding refresh get_height rotate_left rotate_right_left bias
  balance_right null changed = none
  balance_right (node l height e r) changed =
      let n = refresh l e r in
      if leb_ℤ (bias n) (negsuc 1)
      then (do
        n' ← if leb_ℤ (bias r) (pos 0) then rotate_left n else rotate_right_left n
        some (n', changed))
      else some (n, not (get_height n == height))

  -- The entries from left to right.
  abbrev pub to_list : Tree K V → List (Entry K V)
  to_list null = []
  to_list (node l h e r) = to_list l ++ (e ∷ to_list r)

  abbrev pub root_entry : Tree K V → Option (Entry K V)
  root_entry null = none
  root_entry (node l h e r) = some e

  -- What a link to the root of `old` leads to after the subtree has become `new` and the link was
  -- not written again: the node that it names, wherever that node now stands.
  unfoldable pub find_node : ℕ → Tree K V → Tree K V
  find_node p null = null
  find_node p (node l h e r) =
      if e.address == p
      then node l h e r
      else (elim (find_node p l) [ null ↦ find_node p r | node a b c d ↦ node a b c d ])

  unfoldable pub kept_link : Tree K V → Tree K V → Tree K V
  unfolding find_node
  kept_link null new = null
  kept_link (node l h e r) new = find_node e.address new
