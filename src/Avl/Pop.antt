-- ===== src/Avl/Pop.antt =====
-- src/avltree.h: `pop_min_` and `pop_max_`, which unlink the first and the last node, `remove_min_`
-- and `remove_max_`, which do the same without handing it out, and the walks `get_min_` and
-- `get_max_`.
use xrossfire.Base.{
  ℕ, ◌+◌, ◌≤◌, ◌≡◌, Bool, true, false, Option, none, some, [], ◌∷◌, ◌++◌, ◌>>=◌, if◌then◌else◌,
}
use xrossfire.Avl.{
  Entry, Tree, null, node, get_height, balance_left, balance_right, to_list, root_entry, kept_link,
}
use xrossfire.Avl.Shape.{IsAvl}

-- What is left, the node that was unlinked (its entry and the height still stored in it), and
-- `*changed`.
pub record Popped {ℓ κ} (K : Type ℓ) (V : Type κ) : Type (ℓ ⊔ κ) where
  pub rest : Tree K V
  pub entry : Entry K V
  pub height : ℕ
  pub changed : Bool

module _ {ℓ κ} {K : Type ℓ} {V : Type κ} where
  unfoldable pub pop_left : Tree K V → ℕ → Entry K V → Tree K V → Popped K V → Option (Popped K V)
  pop_left l h e r out =
      if out.changed
      then (do
        (n, changed) ← balance_right (node out.rest h e r) out.changed
        some (record out { rest = n; changed = changed }))
      else some (record out { rest = node (kept_link l out.rest) h e r })

  unfoldable pub pop_right : Tree K V → ℕ → Entry K V → Tree K V → Popped K V → Option (Popped K V)
  pop_right l h e r out =
      if out.changed
      then (do
        (n, changed) ← balance_left (node l h e out.rest) out.changed
        some (record out { rest = n; changed = changed }))
      else some (record out { rest = node l h e (kept_link r out.rest) })

  unfoldable pub pop_min : Tree K V → Option (Popped K V)
  unfolding pop_left
  pop_min null = none
  pop_min (node null h e r) = some (record { rest = r; entry = e; height = h; changed = true })
  pop_min (node l h e r) = pop_min l >>= pop_left l h e r

  unfoldable pub pop_max : Tree K V → Option (Popped K V)
  unfolding pop_right
  pop_max null = none
  pop_max (node l h e null) = some (record { rest = l; entry = e; height = h; changed = true })
  pop_max (node l h e r) = pop_max r >>= pop_right l h e r

  unfoldable pub remove_min : Tree K V → Option (Tree K V × Bool)
  remove_min null = none
  remove_min (node null h e r) = some (r, true)
  remove_min (node l h e r) = do
    (left, changed) ← remove_min l
    if changed
        then balance_right (node left h e r) changed
        else some (node (kept_link l left) h e r, changed)

  unfoldable pub remove_max : Tree K V → Option (Tree K V × Bool)
  remove_max null = none
  remove_max (node l h e null) = some (l, true)
  remove_max (node l h e r) = do
    (right, changed) ← remove_max r
    if changed
        then balance_left (node l h e right) changed
        else some (node l h e (kept_link r right), changed)

  unfoldable pub get_min : Tree K V → Option (Entry K V)
  get_min null = none
  get_min (node null h e r) = some e
  get_min (node l h e r) = get_min l

  unfoldable pub get_max : Tree K V → Option (Entry K V)
  get_max null = none
  get_max (node l h e null) = some e
  get_max (node l h e r) = get_max r

  pub record Shrinks (t : Tree K V) (out : Popped K V) : Type (ℓ ⊔ κ) where
    pub avl : IsAvl out.rest
    pub shrinks : (get_height out.rest ≤ get_height t) × (get_height t ≤ get_height out.rest + 1)
    pub quiet :
        out.changed ≡ false
        → (get_height out.rest ≡ get_height t) × (root_entry out.rest ≡ root_entry t)

  abbrev pub PopsMin : Tree K V → Popped K V → Type (ℓ ⊔ κ)
  PopsMin t out = Shrinks t out × (to_list t ≡ out.entry ∷ to_list out.rest)

  abbrev pub PopsMax : Tree K V → Popped K V → Type (ℓ ⊔ κ)
  PopsMax t out = Shrinks t out × (to_list t ≡ to_list out.rest ++ (out.entry ∷ []))
