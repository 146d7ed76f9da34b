-- ===== src/Timeout/Order.antt =====
-- src/timeout.c: `xf_timeout_compare` orders the handles by time and then by age.
use Prim.Native.Nat.{Ordering}
use Prim.Native.Nat.Ordering.{lt, eq, gt}
use xrossfire.Base.{ℕ, ◌≡◌, not, ◌==◌, ltb, if◌then◌else◌, arith}
use xrossfire.Base.Int.{ℤ, ltb_ℤ, ==ℤ, ◌≤ℤ◌, eq_of_parts}
use xrossfire.Order.{Comparator}

pub record Handle : Type 0 where
  pub id : ℕ
  pub timestamp : ℤ

unfoldable pub compare_handles : Handle → Handle → Ordering
compare_handles a b =
    if not (==ℤ a.timestamp b.timestamp)
    then (if ltb_ℤ a.timestamp b.timestamp then lt else gt)
    else (if not (a.id == b.id) then (if ltb a.id b.id then lt else gt) else eq)

pub refl_eq : (a : Handle) → compare_handles a a ≡ eq
unfolding compare_handles
refl_eq a = ground arith

pub eq_same : (a b : Handle) → compare_handles a b ≡ eq → a ≡ b
unfolding compare_handles
eq_same a b h = ground (arith, eq_of_parts a.timestamp b.timestamp)

pub swap_gt : (a b : Handle) → compare_handles a b ≡ gt → compare_handles b a ≡ lt
unfolding compare_handles
swap_gt a b h = ground arith

pub swap_lt : (a b : Handle) → compare_handles a b ≡ lt → compare_handles b a ≡ gt
unfolding compare_handles
swap_lt a b h = ground arith

pub trans_lt :
    (a b c : Handle)
    → compare_handles a b ≡ lt
    → compare_handles b c ≡ lt
    → compare_handles a c ≡ lt
unfolding compare_handles
trans_lt a b c h k = ground arith

instance unfoldable pub handle_order : Comparator Handle
handle_order = record {
  compare = compare_handles;
  refl_eq = refl_eq;
  eq_same = eq_same;
  swap_gt = swap_gt;
  swap_lt = swap_lt;
  trans_lt = trans_lt;
}

pub timestamp-le_of_lt : (a b : Handle) → compare_handles a b ≡ lt → a.timestamp ≤ℤ b.timestamp
unfolding compare_handles
timestamp-le_of_lt a b h = ground arith
