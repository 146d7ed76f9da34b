-- ===== src/Avl/Balance.antt =====
-- src/avltree.h: the outcomes of the two rebalancing steps, as equations: no rotation, a single one
-- or a double one.
use xrossfire.Base.{ℕ, ◌+◌, ◌≡◌, refl, ap, Bool, true, false, not, some, arith, ◌==◌, leb, max}
use xrossfire.Base.Int.{pos, negsuc, ◌-ℤ◌, leb_ℤ}
use xrossfire.Avl.{Entry, Tree, node, max_, get_height, refresh, balance_left, balance_right}

pub max_-max : (a b : ℕ) → max_ a b ≡ max a b
unfolding max_
max_-max a b = ground arith

two_le_bias : (a b : ℕ) → leb_ℤ (pos 2) (pos a -ℤ pos b) ≡ leb (b + 2) a
unfolding ◌-ℤ◌
two_le_bias a b = ground arith

zero_le_bias : (a b : ℕ) → leb_ℤ (pos 0) (pos a -ℤ pos b) ≡ leb b a
unfolding ◌-ℤ◌
zero_le_bias a b = ground arith

bias_le_minus_two : (a b : ℕ) → leb_ℤ (pos a -ℤ pos b) (negsuc 1) ≡ leb (a + 2) b
unfolding ◌-ℤ◌
bias_le_minus_two a b = ground arith

bias_le_zero : (a b : ℕ) → leb_ℤ (pos a -ℤ pos b) (pos 0) ≡ leb a b
unfolding ◌-ℤ◌
bias_le_zero a b = ground arith

module _ {ℓ κ} {K : Type ℓ} {V : Type κ} where
  pub get_height-node :
      (l : Tree K V) (h : ℕ) (e : Entry K V) (r : Tree K V) → get_height (node l h e r) ≡ h
  unfolding get_height
  get_height-node l h e r = refl

  pub get_height-refresh :
      (l : Tree K V) (e : Entry K V) (r : Tree K V)
      → get_height (refresh l e r) ≡ max (get_height l) (get_height r) + 1
  unfolding refresh get_height
  get_height-refresh l e r = ap (λ n. n + 1) (max_-max (get_height l) (get_height r))

  pub refresh_lem :
      (l : Tree K V) (e : Entry K V) (r : Tree K V)
      → refresh l e r ≡ node l (max (get_height l) (get_height r) + 1) e r
  unfolding refresh
  refresh_lem l e r = rw (max_-max (get_height l) (get_height r))

  pub balance_left_level :
      (l : Tree K V) (h : ℕ) (e : Entry K V) (r : Tree K V) (changed : Bool)
      → leb (get_height r + 2) (get_height l) ≡ false
      → balance_left (node l h e r) changed
        ≡ some (refresh l e r, not (get_height (refresh l e r) == h))
  unfolding balance_left
  balance_left_level l h e r changed p = rw (two_le_bias (get_height l) (get_height r), p)

  pub balance_left_single :
      (ll : Tree K V) (lh : ℕ) (le : Entry K V) (lr : Tree K V) (h : ℕ) (e : Entry K V)
      (r : Tree K V) (changed : Bool)
      → leb (get_height r + 2) lh ≡ true
      → leb (get_height lr) (get_height ll) ≡ true
      → balance_left (node (node ll lh le lr) h e r) changed
        ≡ some (node ll (get_height (refresh lr e r) + 1) le (refresh lr e r), changed)
  unfolding balance_left
  balance_left_single ll lh le lr h e r changed p q =
      rw (two_le_bias lh (get_height r), p, zero_le_bias (get_height ll) (get_height lr), q)

  pub balance_left_double :
      (ll : Tree K V) (lh : ℕ) (le : Entry K V) (ml : Tree K V) (mh : ℕ) (m : Entry K V)
      (mr : Tree K V) (h : ℕ) (e : Entry K V) (r : Tree K V) (changed : Bool)
      → leb (get_height r + 2) lh ≡ true
      → leb mh (get_height ll) ≡ false
      → balance_left (node (node ll lh le (node ml mh m mr)) h e r) changed
        ≡ some
            (node (refresh ll le ml) (get_height (refresh mr e r) + 1) m (refresh mr e r), changed)
  unfolding balance_left
  balance_left_double ll lh le ml mh m mr h e r changed p q =
      rw (two_le_bias lh (get_height r), p, zero_le_bias (get_height ll) mh, q)

  pub balance_right_level :
      (l : Tree K V) (h : ℕ) (e : Entry K V) (r : Tree K V) (changed : Bool)
      → leb (get_height l + 2) (get_height r) ≡ false
      → balance_right (node l h e r) changed
        ≡ some (refresh l e r, not (get_height (refresh l e r) == h))
  unfolding balance_right
  balance_right_level l h e r changed p = rw (bias_le_minus_two (get_height l) (get_height r), p)

  pub balance_right_single :
      (l : Tree K V) (h : ℕ) (e : Entry K V) (rl : Tree K V) (rh : ℕ) (re : Entry K V)
      (rr : Tree K V) (changed : Bool)
      → leb (get_height l + 2) rh ≡ true
      → leb (get_height rl) (get_height rr) ≡ true
      → balance_right (node l h e (node rl rh re rr)) changed
        ≡ some (node (refresh l e rl) (get_height (refresh l e rl) + 1) re rr, changed)
  unfolding balance_right
  balance_right_single l h e rl rh re rr changed p q =
      rw (bias_le_minus_two (get_height l) rh, p, bias_le_zero (get_height rl) (get_height rr), q)

  pub balance_right_double :
      (l : Tree K V) (h : ℕ) (e : Entry K V) (ml : Tree K V) (mh : ℕ) (m : Entry K V)
      (mr : Tree K V) (rh : ℕ) (re : Entry K V) (rr : Tree K V) (changed : Bool)
      → leb (get_height l + 2) rh ≡ true
      → leb mh (get_height rr) ≡ false
      → balance_right (node l h e (node (node ml mh m mr) rh re rr)) changed
        ≡ some
            (node (refresh l e ml) (get_height (refresh l e ml) + 1) m (refresh mr re rr), changed)
  unfolding balance_right
  balance_right_double l h e ml mh m mr rh re rr changed p q =
      rw (bias_le_minus_two (get_height l) rh, p, bias_le_zero mh (get_height rr), q)
