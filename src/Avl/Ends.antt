-- ===== src/Avl/Ends.antt =====
-- src/avltree.h: popping and the AVL invariant, and which entry is taken.
use xrossfire.Base.{
  ℕ, ◌≡◌, ◌≢◌, refl, sym, ap, ◌∙◌, inr, Bool, true, false, Option, none, some, List, [], ◌∷◌, ◌++◌,
  append_assoc, arith, ◌>>=◌, Returns, Returns-bind, if◌then◌else◌, head?, get_last?,
  get_last?-append,
}
use mathlib.Core.Option
use xrossfire.Avl.{
  Entry, Tree, null, node, get_height, balance_left, balance_right, to_list, kept_link,
}
use xrossfire.Avl.Balance.{get_height-node}
use xrossfire.Avl.Contents.{to_list-balance_left, to_list-balance_right, kept_link-same}
use xrossfire.Avl.Shape.{IsAvl}
use xrossfire.Avl.Rebalance.{balance_left-Rebalanced, balance_right-Rebalanced}
use xrossfire.Avl.Pop.{
  Popped, pop_left, pop_right, pop_min, pop_max, remove_min, remove_max, get_min, get_max, Shrinks,
  PopsMin, PopsMax,
}

module _ {ℓ κ} {K : Type ℓ} {V : Type κ} where
  pop_left-PopsMin :
      (l : Tree K V) (h : ℕ) (e : Entry K V) (r : Tree K V) (rest : Tree K V) (x : Entry K V)
      (k : ℕ) (changed : Bool)
      → IsAvl (node l h e r)
      → PopsMin l (record { rest = rest; entry = x; height = k; changed = changed })
      → Returns
          (pop_left l h e r (record { rest = rest; entry = x; height = k; changed = changed }))
          (PopsMin (node l h e r))
  unfolding pop_left
  pop_left-PopsMin l h e r rest x k false a (s, c) =
      let (level, same) = s.quiet refl in
      (
        record { rest = node rest h e r; entry = x; height = k; changed = false },
        rw (kept_link-same l rest same),
        (
          record {
            avl = (omega (arith, level), omega (arith, level), omega (arith, level), s.avl, a.4);
            shrinks = simp get_height-node (omega arith);
            quiet = λ _. (simp get_height-node, refl);
          },
          ap (λ xs. xs ++ (e ∷ to_list r)) c,
        ),
      )
  pop_left-PopsMin l h e r rest x k true a (s, c) =
      let (out, ran, b) =
        balance_right-Rebalanced rest h e r true s.avl a.4 (omega (arith, s.shrinks))
          (omega (arith, s.shrinks)) (inr refl) in
      (
        record { rest = out.0; entry = x; height = k; changed = out.1 },
        rw ran,
        (
          record {
            avl = b.avl;
            shrinks = simp get_height-node (omega (arith, b.level, s.shrinks));
            quiet = λ f. (simp get_height-node (b.quiet f).0, (b.quiet f).1);
          },
          ap (λ xs. xs ++ (e ∷ to_list r)) c
              ∙ ap (λ xs. x ∷ xs) (sym (to_list-balance_right rest h e r true ran)),
        ),
      )

  pop_right-PopsMax :
      (l : Tree K V) (h : ℕ) (e : Entry K V) (r : Tree K V) (rest : Tree K V) (x : Entry K V)
      (k : ℕ) (changed : Bool)
      → IsAvl (node l h e r)
      → PopsMax r (record { rest = rest; entry = x; height = k; changed = changed })
      → Returns
          (pop_right l h e r (record { rest = rest; entry = x; height = k; changed = changed }))
          (PopsMax (node l h e r))
  unfolding pop_right
  pop_right-PopsMax l h e r rest x k false a (s, c) =
      let (level, same) = s.quiet refl in
      (
        record { rest = node l h e rest; entry = x; height = k; changed = false },
        rw (kept_link-same r rest same),
        (
          record {
            avl = (omega (arith, level), omega (arith, level), omega (arith, level), a.3, s.avl);
            shrinks = simp get_height-node (omega arith);
            quiet = λ _. (simp get_height-node, refl);
          },
          ap (λ xs. to_list l ++ (e ∷ xs)) c
              ∙ sym (append_assoc (to_list l) (e ∷ to_list rest) (x ∷ [])),
        ),
      )
  pop_right-PopsMax l h e r rest x k true a (s, c) =
      let (out, ran, b) =
        balance_left-Rebalanced l h e rest true a.3 s.avl (omega (arith, s.shrinks))
          (omega (arith, s.shrinks)) (inr refl) in
      (
        record { rest = out.0; entry = x; height = k; changed = out.1 },
        rw ran,
        (
          record {
            avl = b.avl;
            shrinks = simp get_height-node (omega (arith, b.level, s.shrinks));
            quiet = λ f. (simp get_height-node (b.quiet f).0, (b.quiet f).1);
          },
          ap (λ xs. to_list l ++ (e ∷ xs)) c
              ∙ sym (append_assoc (to_list l) (e ∷ to_list rest) (x ∷ []))
              ∙ ap (λ xs. xs ++ (x ∷ [])) (sym (to_list-balance_left l h e rest true ran)),
        ),
      )

  leaf_min-Shrinks :
      (h : ℕ) (e : Entry K V) (r : Tree K V)
      → IsAvl (node null h e r)
      → Shrinks (node null h e r) (record { rest = r; entry = e; height = h; changed = true })
  unfolding get_height
  leaf_min-Shrinks h e r a = record { avl = a.4; shrinks = omega arith; quiet = λ f. cc }

  leaf_max-Shrinks :
      (l : Tree K V) (h : ℕ) (e : Entry K V)
      → IsAvl (node l h e null)
      → Shrinks (node l h e null) (record { rest = l; entry = e; height = h; changed = true })
  unfolding get_height
  leaf_max-Shrinks l h e a = record { avl = a.3; shrinks = omega arith; quiet = λ f. cc }

  pub pop_min-PopsMin : (t : Tree K V) → IsAvl t → t ≢ null → Returns (pop_min t) (PopsMin t)
  unfolding pop_min
  pop_min-PopsMin null a n = absurd (n refl)
  pop_min-PopsMin (node null h e r) a n = (_, refl, (leaf_min-Shrinks h e r a, refl))
  pop_min-PopsMin (node (node p q s t) h e r) a n =
      Returns-bind (PopsMin (node (node p q s t) h e r)) _ _
        (pop_min-PopsMin (node p q s t) a.3 (λ f. cc))
        λ out i. pop_left-PopsMin (node p q s t) h e r out.rest out.entry out.height out.changed a i

  pub pop_max-PopsMax : (t : Tree K V) → IsAvl t → t ≢ null → Returns (pop_max t) (PopsMax t)
  unfolding pop_max
  pop_max-PopsMax null a n = absurd (n refl)
  pop_max-PopsMax (node l h e null) a n = (_, refl, (leaf_max-Shrinks l h e a, refl))
  pop_max-PopsMax (node l h e (node p q s t)) a n =
      Returns-bind (PopsMax (node l h e (node p q s t))) _ _
        (pop_max-PopsMax (node p q s t) a.4 (λ f. cc))
        λ out i.
          pop_right-PopsMax l h e (node p q s t) out.rest out.entry out.height out.changed a i

  -- The part of the result that is not the popped node.
  abbrev pub forget : Popped K V → Tree K V × Bool
  forget out = (out.rest, out.changed)

  forget_left :
      (l : Tree K V) (h : ℕ) (e : Entry K V) (r : Tree K V) (m : Option (Popped K V))
      → (Option.map forget m >>= λ out.
          if out.1
          then balance_right (node out.0 h e r) out.1
          else some (node (kept_link l out.0) h e r, out.1))
        ≡ Option.map forget (m >>= pop_left l h e r)
  unfolding pop_left
  forget_left l h e r none = refl
  forget_left l h e r (some out) = ground arith

  forget_right :
      (l : Tree K V) (h : ℕ) (e : Entry K V) (r : Tree K V) (m : Option (Popped K V))
      → (Option.map forget m >>= λ out.
          if out.1
          then balance_left (node l h e out.0) out.1
          else some (node l h e (kept_link r out.0), out.1))
        ≡ Option.map forget (m >>= pop_right l h e r)
  unfolding pop_right
  forget_right l h e r none = refl
  forget_right l h e r (some out) = ground arith

  -- Removing an end is popping it and forgetting the node.
  pub remove_min-pop_min : (t : Tree K V) → remove_min t ≡ Option.map forget (pop_min t)
  unfolding remove_min pop_min
  remove_min-pop_min null = refl
  remove_min-pop_min (node null h e r) = refl
  remove_min-pop_min (node (node p q s t) h e r) =
      rw (remove_min-pop_min (node p q s t))
        (forget_left (node p q s t) h e r (pop_min (node p q s t)))

  pub remove_max-pop_max : (t : Tree K V) → remove_max t ≡ Option.map forget (pop_max t)
  unfolding remove_max pop_max
  remove_max-pop_max null = refl
  remove_max-pop_max (node l h e null) = refl
  remove_max-pop_max (node l h e (node p q s t)) =
      rw (remove_max-pop_max (node p q s t))
        (forget_right l h e (node p q s t) (pop_max (node p q s t)))

  pub get_min-head? : (t : Tree K V) → get_min t ≡ head? (to_list t)
  unfolding get_min
  get_min-head? null = refl
  get_min-head? (node null h e r) = refl
  get_min-head? (node (node p q s t) h e r) =
      get_min-head? (node p q s t) ∙ first (to_list p) s (to_list t) (e ∷ to_list r)
    where
      first :
          (xs : List (Entry K V)) (y : Entry K V) (ys zs : List (Entry K V))
          → head? (xs ++ (y ∷ ys)) ≡ head? ((xs ++ (y ∷ ys)) ++ zs)
      first [] y ys zs = refl
      first (x ∷ xs) y ys zs = refl

  pub get_max-get_last? : (t : Tree K V) → get_max t ≡ get_last? (to_list t)
  unfolding get_max
  get_max-get_last? null = refl
  get_max-get_last? (node l h e null) = sym (get_last?-append (to_list l) e [])
  get_max-get_last? (node l h e (node p q s t)) =
      get_max-get_last? (node p q s t)
      ∙ get_last?-append (to_list p) s (to_list t)
      ∙ sym (get_last?-append (e ∷ to_list p) s (to_list t))
      ∙ sym (get_last?-append (to_list l) e (to_list p ++ (s ∷ to_list t)))
