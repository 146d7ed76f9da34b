-- ===== src/Avl/Height.antt =====
-- src/avltree.h: the height of a tree after any insertions and removals, which bounds the depth of every
-- recursion in the file, and its number of nodes.
use xrossfire.Base.{Option, some, List, [], ◌∷◌, ◌>>=◌}
use xrossfire.Order.{Comparator}
use xrossfire.Avl.{Entry}
use xrossfire.Avl.Root.{AvlTree, insert, remove}

pub data Change {ℓ κ} (K : Type ℓ) (V : Type κ) : Type (ℓ ⊔ κ) where
  inserts : Entry K V → Change K V
  removes : K → Change K V

module _ {ℓ κ} {K : Type ℓ} {V : Type κ} ⦃o : Comparator K⦄ where
  abbrev pub change : Change K V → AvlTree K V → Option (AvlTree K V)
  change (inserts x) self = insert self x >>= λ out. some out.0
  change (removes k) self = remove self k >>= λ out. some out.0

  unfoldable pub change_all : List (Change K V) → AvlTree K V → Option (AvlTree K V)
  change_all [] self = some self
  change_all (c ∷ changes) self = change c self >>= change_all changes
