-- ===== src/Avl/Root/Refines.antt =====
-- src/avltree.h: each public function against the list with increasing keys that the tree holds.
use mathlib.Core.Option
use xrossfire.Base.{
  ◌≡◌, ◌≢◌, refl, sym, ap, ◌∙◌, Bool, Option, none, some, List, [], head?, get_last?,
  get_last?-append, tail, drop_last, drop_last-append, subst, ◌>>=◌, Returns, Returns-bind, length,
}
use xrossfire.Order.{Comparator}
use xrossfire.Avl.{Entry, Tree, null, node, to_list}
use xrossfire.Avl.Shape.{IsAvl}
use xrossfire.Avl.Sorted.{
  IsIncreasing, insert_entry, find_key, erase_key, insert_entry-IsIncreasing,
  erase_key-IsIncreasing, IsIncreasing-parts,
}
use xrossfire.Avl.Insert.{insert_node, is_none, insert_node-Inserts}
use xrossfire.Avl.Pop.{Popped}
use xrossfire.Avl.Pop
use xrossfire.Avl.Ends.{
  forget, pop_min-PopsMin, pop_max-PopsMax, remove_min-pop_min, remove_max-pop_max, get_min-head?,
  get_max-get_last?,
}
use xrossfire.Avl.Remove.{remove_key}
use xrossfire.Avl.Remove.Laws.{remove_key-Removes}
use xrossfire.Avl.Check.{count_nodes-length}
use xrossfire.Avl.Root.{
  AvlTree, init, get_min, get_max, remove_min, remove_max, pop_root, pop_min, pop_max, count,
  entries, insert, remove, IsValid,
}

module _ {ℓ κ} {K : Type ℓ} {V : Type κ} ⦃o : Comparator K⦄ where
  pub init-IsValid : IsValid (init {K = K} {V = V})
  unfolding init
  init-IsValid = record { avl = tt; increasing = tt }

  pub record InsertRefines (self : AvlTree K V) (x : Entry K V) (out : AvlTree K V × Bool)
      : Type (ℓ ⊔ κ) where
    pub valid : IsValid out.0
    pub contents : entries out.0 ≡ insert_entry x (entries self)
    pub inserted : out.1 ≡ is_none (find_key x.key (entries self))

  -- Insertion into a valid tree never faults. The tree that it leaves is valid, its entries are
  -- those before with the new one at its place, or the same if the key was there, and `*inserted`
  -- says which.
  pub insert_refines :
      (self : AvlTree K V) (x : Entry K V)
      → IsValid self
      → Returns (insert self x) (InsertRefines self x)
  unfolding insert
  insert_refines self x v =
      Returns-bind (InsertRefines self x) (insert_node self.root x) _
        (insert_node-Inserts self.root x v.avl v.increasing)
        λ out i. (
          (record { root = out.0 }, out.1),
          refl,
          record {
            valid = record {
              avl = i.avl;
              increasing = rw i.contents (insert_entry-IsIncreasing x (entries self) v.increasing);
            };
            contents = i.contents;
            inserted = i.flag;
          },
        )

  pub record RemoveRefines (self : AvlTree K V) (k : K) (out : AvlTree K V × Option (Entry K V))
      : Type (ℓ ⊔ κ) where
    pub valid : IsValid out.0
    pub contents : entries out.0 ≡ erase_key k (entries self)
    pub removed : out.1 ≡ find_key k (entries self)

  -- Removal by key from a valid tree never faults. The tree that it leaves is valid, its entries
  -- are those before without the one with the key, and that entry, or NULL, is handed out.
  pub remove_refines :
      (self : AvlTree K V) (k : K) → IsValid self → Returns (remove self k) (RemoveRefines self k)
  unfolding remove
  remove_refines self k v =
      Returns-bind (RemoveRefines self k) (remove_key self.root k) _
        (remove_key-Removes self.root k v.avl v.increasing)
        λ out i. (
          (record { root = out.0 }, out.1),
          refl,
          record {
            valid = record {
              avl = i.avl;
              increasing = rw i.contents (erase_key-IsIncreasing k (entries self) v.increasing);
            };
            contents = i.contents;
            removed = i.found;
          },
        )

  -- Of both pops: what is left, and the entry that is handed out, NULL if the tree is empty.
  pub record PopRefines (list : List (Entry K V)) (end : Option (Entry K V))
      (out : AvlTree K V × Option (Entry K V)) : Type (ℓ ⊔ κ) where
    pub valid : IsValid out.0
    pub popped : out.1 ≡ end
    pub contents : entries out.0 ≡ list

  pop_min_root :
      (t : Tree K V)
      → IsAvl t
      → IsIncreasing (to_list t)
      → Returns (pop_root t (Pop.pop_min t)) (PopRefines (tail (to_list t)) (head? (to_list t)))
  pop_min_root null a s = (
    _,
    refl,
    record { valid = record { avl = tt; increasing = tt }; popped = refl; contents = refl },
  )
  pop_min_root (node l h e r) a s =
      Returns-bind (PopRefines (tail (to_list (node l h e r))) (head? (to_list (node l h e r))))
        (Pop.pop_min (node l h e r)) _ (pop_min-PopsMin (node l h e r) a (λ f. cc))
        λ out i. (
          (record { root = out.rest }, some out.entry),
          refl,
          record {
            valid = record { avl = i.0.avl; increasing = (subst IsIncreasing i.1 s).1 };
            popped = sym (ap head? i.1);
            contents = sym (ap tail i.1);
          },
        )

  -- Popping the minimum of a valid tree never faults: it hands out the first entry, or NULL if
  -- the tree is empty, and leaves a valid tree with the other entries.
  pub pop_min_refines :
      (self : AvlTree K V)
      → IsValid self
      → Returns (pop_min self) (PopRefines (tail (entries self)) (head? (entries self)))
  unfolding pop_min
  pop_min_refines self v = pop_min_root self.root v.avl v.increasing

  pop_max_root :
      (t : Tree K V)
      → IsAvl t
      → IsIncreasing (to_list t)
      → Returns
          (pop_root t (Pop.pop_max t))
          (PopRefines (drop_last (to_list t)) (get_last? (to_list t)))
  pop_max_root null a s = (
    _,
    refl,
    record { valid = record { avl = tt; increasing = tt }; popped = refl; contents = refl },
  )
  pop_max_root (node l h e r) a s =
      Returns-bind
        (PopRefines (drop_last (to_list (node l h e r))) (get_last? (to_list (node l h e r))))
        (Pop.pop_max (node l h e r)) _ (pop_max-PopsMax (node l h e r) a (λ f. cc))
        λ out i. (
          (record { root = out.rest }, some out.entry),
          refl,
          record {
            valid = record {
              avl = i.0.avl;
              increasing =
                  (IsIncreasing-parts (to_list out.rest) out.entry [] (subst IsIncreasing i.1 s)).2;
            };
            popped = sym (ap get_last? i.1 ∙ get_last?-append (to_list out.rest) out.entry []);
            contents = sym (ap drop_last i.1 ∙ drop_last-append (to_list out.rest) out.entry);
          },
        )

  -- Popping the maximum of a valid tree never faults: it hands out the last entry, or NULL if the
  -- tree is empty, and leaves a valid tree with the other entries.
  pub pop_max_refines :
      (self : AvlTree K V)
      → IsValid self
      → Returns (pop_max self) (PopRefines (drop_last (entries self)) (get_last? (entries self)))
  unfolding pop_max
  pop_max_refines self v = pop_max_root self.root v.avl v.increasing

  pub record Shortens (list : List (Entry K V)) (out : AvlTree K V) : Type (ℓ ⊔ κ) where
    pub valid : IsValid out
    pub contents : entries out ≡ list

  -- Removing an end leaves what popping it leaves; only an empty tree makes it fault.
  remove_min_pop :
      (t : Tree K V) (p : Option (Popped K V))
      → t ≢ null
      → (Option.map forget p >>= λ out. some (record { root = out.0 }))
        ≡ (pop_root t p >>= λ out. some out.0)
  remove_min_pop null p n = absurd (n refl)
  remove_min_pop (node l h e r) none n = refl
  remove_min_pop (node l h e r) (some out) n = refl

  -- On a valid tree that is not empty, `remove_min` never faults and leaves a valid tree without
  -- the first entry.
  pub remove_min_refines :
      (self : AvlTree K V)
      → IsValid self
      → self.root ≢ null
      → Returns (remove_min self) (Shortens (tail (entries self)))
  unfolding remove_min pop_min
  remove_min_refines self v n = rw (remove_min-pop_min self.root) (
      rw (remove_min_pop self.root (Pop.pop_min self.root) n) (
        Returns-bind (Shortens (tail (entries self))) _ _ (pop_min_refines self v)
          λ out i. (out.0, refl, record { valid = i.valid; contents = i.contents })))

  -- On a valid tree that is not empty, `remove_max` never faults and leaves a valid tree without
  -- the last entry.
  pub remove_max_refines :
      (self : AvlTree K V)
      → IsValid self
      → self.root ≢ null
      → Returns (remove_max self) (Shortens (drop_last (entries self)))
  unfolding remove_max pop_max
  remove_max_refines self v n = rw (remove_max-pop_max self.root) (
      rw (remove_min_pop self.root (Pop.pop_max self.root) n) (
        Returns-bind (Shortens (drop_last (entries self))) _ _ (pop_max_refines self v)
          λ out i. (out.0, refl, record { valid = i.valid; contents = i.contents })))

module _ {ℓ κ} {K : Type ℓ} {V : Type κ} where
  -- The minimum, the maximum and the count of any tree are the first entry, the last entry and
  -- the number of its entries from left to right.
  pub lookups_refine :
      (self : AvlTree K V)
      → (get_min self ≡ head? (entries self))
        × (get_max self ≡ get_last? (entries self))
        × (count self ≡ length (entries self))
  unfolding get_min get_max count
  lookups_refine self =
      (get_min-head? self.root, get_max-get_last? self.root, count_nodes-length self.root)
