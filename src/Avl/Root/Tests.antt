-- ===== src/Avl/Root/Tests.antt =====
-- Runs of src/avltree.h: trees of numbers, with the theorems at these trees.
use Prim.Native.Nat.{compare}
use Prim.Native.Nat.Ordering.{lt, eq, gt}
use xrossfire.Base.{ℕ, ◌+◌, ◌*◌, ◌≡◌, refl, Returns, arith}
use xrossfire.Order.{Comparator}
use xrossfire.Avl.{Entry, Tree, null, node, to_list, get_height}
use xrossfire.Avl.Shape.{IsAvl}
use xrossfire.Avl.Sorted.{IsIncreasing, find_key}
use xrossfire.Avl.Remove.{remove_node}
use xrossfire.Avl.Remove.Node.{remove_if, remove_node-remove_key}
use xrossfire.Avl.Root.{AvlTree, insert, remove, IsValid}
use xrossfire.Avl.Root.Refines.{InsertRefines, insert_refines, RemoveRefines, remove_refines}

refl_eq : (a : ℕ) → compare a a ≡ eq
refl_eq a = ground arith

eq_same : (a b : ℕ) → compare a b ≡ eq → a ≡ b
eq_same a b h = ground arith

swap_gt : (a b : ℕ) → compare a b ≡ gt → compare b a ≡ lt
swap_gt a b h = ground arith

swap_lt : (a b : ℕ) → compare a b ≡ lt → compare b a ≡ gt
swap_lt a b h = ground arith

trans_lt : (a b c : ℕ) → compare a b ≡ lt → compare b c ≡ lt → compare a c ≡ lt
trans_lt a b c h k = ground arith

instance number_order : Comparator ℕ
number_order = record {
  compare = compare;
  refl_eq = refl_eq;
  eq_same = eq_same;
  swap_gt = swap_gt;
  swap_lt = swap_lt;
  trans_lt = trans_lt;
}

abbrev entry : ℕ → Entry ℕ ℕ
entry k = record { address = 100 + k; key = k; value = 10 * k }

-- The keys 1 and 2, leaning to the right: a third on the right needs a rotation.
abbrev chain : Tree ℕ ℕ
chain = node null 2 (entry 1) (node null 1 (entry 2) null)

-- The keys 2, 4, 6 and 8: without 2, the root leans to the right by two levels.
abbrev four : Tree ℕ ℕ
four =
    node (node null 1 (entry 2) null) 3 (entry 4)
      (node null 2 (entry 6) (node null 1 (entry 8) null))

abbrev two_nodes : AvlTree ℕ ℕ
two_nodes = record { root = chain }

abbrev four_nodes : AvlTree ℕ ℕ
four_nodes = record { root = four }

chain-IsAvl : IsAvl chain
unfolding get_height
chain-IsAvl = (refl, omega arith, omega arith, tt, (refl, omega arith, omega arith, tt, tt))

chain-IsIncreasing : IsIncreasing (to_list chain)
unfolding number_order
chain-IsIncreasing = ((refl, tt), (tt, tt))

four-IsAvl : IsAvl four
unfolding get_height
four-IsAvl = (
  refl,
  omega arith,
  omega arith,
  (refl, omega arith, omega arith, tt, tt),
  (refl, omega arith, omega arith, tt, (refl, omega arith, omega arith, tt, tt)),
)

four-IsIncreasing : IsIncreasing (to_list four)
unfolding number_order
four-IsIncreasing = ((refl, (refl, (refl, tt))), ((refl, (refl, tt)), ((refl, tt), (tt, tt))))

two_nodes-IsValid : IsValid two_nodes
two_nodes-IsValid = record { avl = chain-IsAvl; increasing = chain-IsIncreasing }

four_nodes-IsValid : IsValid four_nodes
four_nodes-IsValid = record { avl = four-IsAvl; increasing = four-IsIncreasing }

insert_refines_example : Returns (insert two_nodes (entry 3)) (InsertRefines two_nodes (entry 3))
insert_refines_example = insert_refines two_nodes (entry 3) two_nodes-IsValid

remove_refines_example : Returns (remove four_nodes 2) (RemoveRefines four_nodes 2)
remove_refines_example = remove_refines four_nodes 2 four_nodes-IsValid

remove_node-remove_key_example :
    remove_node four (entry 4) ≡ remove_if four (entry 4) (find_key 4 (to_list four))
remove_node-remove_key_example = remove_node-remove_key four (entry 4) four-IsAvl four-IsIncreasing
