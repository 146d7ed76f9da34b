-- ===== src/Avl/Root.antt =====
-- src/avltree.h: the functions on XF_AVLTREE_T, which hold the root, as operations on a list with
-- increasing keys.
pub mod Refines
pub mod Tests
use xrossfire.Base.{
  ℕ, ◌≡◌, ◌≢◌, refl, sym, ap, ◌∙◌, Bool, true, Option, none, some, List, [], ◌∷◌, ◌++◌, head?,
  get_last?, arith, ◌>>=◌, Returns, Returns-bind, length,
}
use xrossfire.Order.{Comparator}
use xrossfire.Avl.{Entry, Tree, null, node, to_list}
use xrossfire.Avl.Shape.{IsAvl}
use xrossfire.Avl.Sorted.{
  IsIncreasing, insert_entry, find_key, erase_key, insert_entry-IsIncreasing,
  erase_key-IsIncreasing, IsIncreasing-parts,
}
use xrossfire.Avl.Insert.{insert_node, is_none, insert_node-Inserts}
use xrossfire.Avl.Pop.{Popped}
use xrossfire.Avl.Pop
use xrossfire.Avl.Ends.{
  pop_min-PopsMin, pop_max-PopsMax, remove_min-pop_min, remove_max-pop_max, get_min-head?,
  get_max-get_last?,
}
use xrossfire.Avl.Remove.{remove_key}
use xrossfire.Avl.Remove.Laws.{remove_key-Removes}
use xrossfire.Avl.Check.{count_nodes, count_levels, balanced_node, check_node, count_nodes-length}

pub record AvlTree {ℓ κ} (K : Type ℓ) (V : Type κ) : Type (ℓ ⊔ κ) where
  pub root : Tree K V

module _ {ℓ κ} {K : Type ℓ} {V : Type κ} where
  unfoldable pub init : AvlTree K V
  init = record { root = null }

  unfoldable pub get_min : AvlTree K V → Option (Entry K V)
  get_min self = Pop.get_min self.root

  unfoldable pub get_max : AvlTree K V → Option (Entry K V)
  get_max self = Pop.get_max self.root

  -- These two read through the root, and fault on the empty tree.
  unfoldable pub remove_min : AvlTree K V → Option (AvlTree K V)
  remove_min self = Pop.remove_min self.root >>= λ out. some (record { root = out.0 })

  unfoldable pub remove_max : AvlTree K V → Option (AvlTree K V)
  remove_max self = Pop.remove_max self.root >>= λ out. some (record { root = out.0 })

  abbrev pub pop_root : Tree K V → Option (Popped K V) → Option (AvlTree K V × Option (Entry K V))
  pop_root null popped = some (record { root = null }, none)
  pop_root (node l h e r) popped =
      popped >>= λ out. some (record { root = out.rest }, some out.entry)

  unfoldable pub pop_min : AvlTree K V → Option (AvlTree K V × Option (Entry K V))
  pop_min self = pop_root self.root (Pop.pop_min self.root)

  unfoldable pub pop_max : AvlTree K V → Option (AvlTree K V × Option (Entry K V))
  pop_max self = pop_root self.root (Pop.pop_max self.root)

  unfoldable pub count : AvlTree K V → ℕ
  count self = count_nodes self.root

  unfoldable pub count_height : AvlTree K V → ℕ
  count_height self = count_levels self.root

  unfoldable pub balanced : AvlTree K V → Bool
  balanced self = balanced_node self.root

  abbrev pub entries : AvlTree K V → List (Entry K V)
  entries self = to_list self.root

module _ {ℓ κ} {K : Type ℓ} {V : Type κ} ⦃o : Comparator K⦄ where
  unfoldable pub insert : AvlTree K V → Entry K V → Option (AvlTree K V × Bool)
  insert self x = insert_node self.root x >>= λ out. some (record { root = out.0 }, out.1)

  unfoldable pub remove : AvlTree K V → K → Option (AvlTree K V × Option (Entry K V))
  remove self k = remove_key self.root k >>= λ out. some (record { root = out.0 }, out.1)

  unfoldable pub check : AvlTree K V → Bool
  check self = check_node self.root

  pub record IsValid (self : AvlTree K V) : Type 0 where
    pub avl : IsAvl self.root
    pub increasing : IsIncreasing (entries self)
