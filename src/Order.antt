-- ===== src/Order.antt =====
-- What src/avltree.h asks of its parameter XF_AVLTREE_COMPARE(a, b): a three-way comparison of
-- keys. The code reads only the sign of the `int` it returns, so a negative result is `lt`, zero is
-- `eq` and a positive result is `gt`.
use Prim.Native.Nat.{Ordering}
use Prim.Native.Nat.Ordering.{lt, eq, gt}
use mathlib.Core.Path.{◌≡◌, refl}

pub record Comparator {ℓ} (K : Type ℓ) : Type ℓ where
  pub compare : K → K → Ordering
  pub refl_eq : (a : K) → compare a a ≡ eq
  pub eq_same : (a b : K) → compare a b ≡ eq → a ≡ b
  pub swap_gt : (a b : K) → compare a b ≡ gt → compare b a ≡ lt
  pub swap_lt : (a b : K) → compare a b ≡ lt → compare b a ≡ gt
  pub trans_lt : (a b c : K) → compare a b ≡ lt → compare b c ≡ lt → compare a c ≡ lt

infix 50 ◌≺◌
abbrev pub ◌≺◌ {ℓ} : {K : Type ℓ} ⦃o : Comparator K⦄ → K → K → Type 0
◌≺◌ ⦃o⦄ a b = o.compare a b ≡ lt

module _ {ℓ} {K : Type ℓ} ⦃o : Comparator K⦄ where
  -- A key above `b` is above whatever lies below `b`.
  pub compare-gt_of_lt : (a b c : K) → o.compare a b ≡ gt → c ≺ b → o.compare a c ≡ gt
  compare-gt_of_lt a b c p q = o.swap_lt c a (o.trans_lt c b a q (o.swap_gt a b p))

  -- A key equal to `b` compares as `b` does.
  pub compare-gt_of_eq : (a b c : K) → o.compare a b ≡ eq → c ≺ b → o.compare a c ≡ gt
  compare-gt_of_eq a b c p q = rw (o.eq_same a b p) (o.swap_lt c b q)

-- The three outcomes of a comparison, with the equation.
pub data Sign (c : Ordering) : Type 0 where
  is_lt : c ≡ lt → Sign c
  is_eq : c ≡ eq → Sign c
  is_gt : c ≡ gt → Sign c

pub sign : (c : Ordering) → Sign c
sign lt = is_lt refl
sign eq = is_eq refl
sign gt = is_gt refl
