-- ===== src/Avl/Remove/Node.antt =====
-- src/avltree.h: `remove_node_` against `remove_key_`.
use Prim.Native.Nat.Ordering.{lt, eq, gt}
use xrossfire.Base.{
  ℕ, ◌≡◌, refl, sym, ap, ◌∙◌, Bool, true, false, Option, none, some, arith, ◌>>=◌, ◌==◌, Bool-cases,
  if◌then◌else◌, inl, inr,
}
use mathlib.Core.Option.{some-injective}
use xrossfire.Order.{Comparator, is_lt, is_eq, is_gt, sign}
use xrossfire.Avl.{Entry, Tree, null, node, to_list}
use xrossfire.Avl.Shape.{IsAvl}
use xrossfire.Avl.Search.{find_key_left, find_key_right, find_key_here}
use xrossfire.Avl.Sorted.{IsIncreasing, IsIncreasing-parts, find_key}
use xrossfire.Avl.Remove.{
  promote, remove_left, remove_right, remove_key, unlink_left, unlink_right, remove_node,
}
use xrossfire.Avl.Remove.Laws.{remove_key-Removes}

module _ {ℓ κ} {K : Type ℓ} {V : Type κ} where
  abbrev pub is_node : Entry K V → Option (Entry K V) → Bool
  is_node del none = false
  is_node del (some x) = x.address == del.address

  -- The tree that a removal leaves, with `*removed` as a flag.
  abbrev pub flagged : Tree K V × Option (Entry K V) → Option (Tree K V × Bool)
  flagged out = some (out.0, true)

  unlink_left-true :
      (h : ℕ) (e : Entry K V) (r left : Tree K V) (x : Entry K V)
      → unlink_left h e r (left, true) ≡ (remove_left h e r (left, some x) >>= flagged)
  unfolding unlink_left remove_left
  unlink_left-true h e r left x = ground arith

  unlink_right-true :
      (l : Tree K V) (h : ℕ) (e : Entry K V) (right : Tree K V) (x : Entry K V)
      → unlink_right l h e (right, true) ≡ (remove_right l h e (right, some x) >>= flagged)
  unfolding unlink_right remove_right
  unlink_right-true l h e right x = ground arith

  -- Forgetting which node was removed.
  settle_left :
      (h : ℕ) (e : Entry K V) (r : Tree K V) (x : Entry K V)
      (m : Option (Tree K V × Option (Entry K V)))
      → ((out : Tree K V × Option (Entry K V)) → m ≡ some out → out.1 ≡ some x)
      → (m >>= flagged >>= unlink_left h e r) ≡ (m >>= remove_left h e r >>= flagged)
  settle_left h e r x none f = refl
  settle_left h e r x (some (left, y)) f = rw (f (left, y) refl) (unlink_left-true h e r left x)

  settle_right :
      (l : Tree K V) (h : ℕ) (e : Entry K V) (x : Entry K V)
      (m : Option (Tree K V × Option (Entry K V)))
      → ((out : Tree K V × Option (Entry K V)) → m ≡ some out → out.1 ≡ some x)
      → (m >>= flagged >>= unlink_right l h e) ≡ (m >>= remove_right l h e >>= flagged)
  settle_right l h e x none f = refl
  settle_right l h e x (some (right, y)) f =
      rw (f (right, y) refl) (unlink_right-true l h e right x)

  settle_here :
      (e : Entry K V) (m : Option (Tree K V))
      → (m >>= λ n. some (n, true)) ≡ (m >>= (λ n. some (n, some e)) >>= flagged)
  settle_here e none = refl
  settle_here e (some n) = refl

module _ {ℓ κ} {K : Type ℓ} {V : Type κ} ⦃o : Comparator K⦄ where
  -- What the specification says that `remove_node_` does, given the entry that has the key.
  abbrev pub remove_if : Tree K V → Entry K V → Option (Entry K V) → Option (Tree K V × Bool)
  remove_if t del found =
      if is_node del found then (remove_key t del.key >>= flagged) else some (t, false)

  removed_found :
      (t : Tree K V) (k : K) {x : Entry K V}
      → IsAvl t
      → IsIncreasing (to_list t)
      → find_key k (to_list t) ≡ some x
      → (out : Tree K V × Option (Entry K V)) → remove_key t k ≡ some out
      → out.1 ≡ some x
  removed_found t k a s f out q =
      let (out', ran, i) = remove_key-Removes t k a s in
      ap (λ v. v.1) (some-injective out out' (sym q ∙ ran)) ∙ i.found ∙ f

  remove_if_left :
      (l : Tree K V) (h : ℕ) (e : Entry K V) (r : Tree K V) (del : Entry K V)
      (f : Option (Entry K V))
      → IsAvl l
      → IsIncreasing (to_list l)
      → o.compare del.key e.key ≡ lt
      → find_key del.key (to_list l) ≡ f
      → (remove_if l del f >>= unlink_left h e r) ≡ remove_if (node l h e r) del f
  unfolding unlink_left remove_key
  remove_if_left l h e r del none a s p q = refl
  remove_if_left l h e r del (some x) a s p q = elim (Bool-cases (x.address == del.address)) [
    | inl hit ↦
        rw (hit, p, remove_key)
          (settle_left h e r x (remove_key l del.key) (removed_found l del.key a s q))
    | inr miss ↦ rw miss
  ]

  remove_if_right :
      (l : Tree K V) (h : ℕ) (e : Entry K V) (r : Tree K V) (del : Entry K V)
      (f : Option (Entry K V))
      → IsAvl r
      → IsIncreasing (to_list r)
      → o.compare del.key e.key ≡ gt
      → find_key del.key (to_list r) ≡ f
      → (remove_if r del f >>= unlink_right l h e) ≡ remove_if (node l h e r) del f
  unfolding unlink_right remove_key
  remove_if_right l h e r del none a s p q = refl
  remove_if_right l h e r del (some x) a s p q = elim (Bool-cases (x.address == del.address)) [
    | inl hit ↦
        rw (hit, p, remove_key)
          (settle_right l h e x (remove_key r del.key) (removed_found r del.key a s q))
    | inr miss ↦ rw miss
  ]

  remove_if_here :
      (l : Tree K V) (h : ℕ) (e : Entry K V) (r : Tree K V) (del : Entry K V)
      → o.compare del.key e.key ≡ eq
      → (if e.address == del.address
          then (promote l r >>= λ n. some (n, true))
          else some (node l h e r, false))
        ≡ remove_if (node l h e r) del (some e)
  unfolding remove_key
  remove_if_here l h e r del p = elim (Bool-cases (e.address == del.address)) [
    | inl hit ↦ rw (hit, p, remove_key) (settle_here e (promote l r))
    | inr miss ↦ rw miss
  ]

  -- On an AVL tree with increasing keys, `remove_node_` does what `remove_key_` does if the entry
  -- with the node's key is at the node's address; otherwise it reports failure and leaves the
  -- tree as it was.
  pub remove_node-remove_key :
      (t : Tree K V) (del : Entry K V)
      → IsAvl t
      → IsIncreasing (to_list t)
      → remove_node t del ≡ remove_if t del (find_key del.key (to_list t))
  unfolding remove_node find_key
  remove_node-remove_key null del a s = refl
  remove_node-remove_key (node l h e r) del a s =
      let parts = IsIncreasing-parts (to_list l) e (to_list r) s in
      let left = remove_node-remove_key l del a.3 parts.2 in
      let right = remove_node-remove_key r del a.4 parts.3 in
      elim (sign (o.compare del.key e.key)) [
        | is_lt p ↦
            rw (find_key_left del.key (to_list l) e (to_list r) parts.1 p, p, remove_node)
              (rw left
                (remove_if_left l h e r del (find_key del.key (to_list l)) a.3 parts.2 p refl))
        | is_gt p ↦
            rw (find_key_right del.key (to_list l) e (to_list r) parts.0 p, p, remove_node)
              (rw right
                (remove_if_right l h e r del (find_key del.key (to_list r)) a.4 parts.3 p refl))
        | is_eq p ↦
            rw (find_key_here del.key (to_list l) e (to_list r) parts.0 p, p, remove_node)
              (remove_if_here l h e r del p)
      ]
