-- ===== src/Monitor/Bound.antt =====
-- src/timeout.c and src/poll.c: the wait that is computed is no longer than the pending timeouts allow,
-- and a timeout that does not become the first leaves it so.
use mathlib.Core.Option.{some-injective}
use Prim.Native.Nat.Ordering.{lt}
use xrossfire.Base.{
  ℕ, zero, suc, ◌<◌, ◌≡◌, sym, subst, ◌∙◌, false, none, some, List, [], ◌∷◌, ==_self, take, length,
  arith, All, All-imp, head?, inl, inr, Returns, Option-cases,
}
use xrossfire.Base.Int.{ℤ, pos, ◌+ℤ◌, ◌-ℤ◌, ◌≤ℤ◌}
use xrossfire.Order.{is_lt, is_eq, is_gt, sign}
use xrossfire.Avl.Root
use xrossfire.Avl.Root.Refines.{lookups_refine}
use xrossfire.Avl.Sorted.{IsIncreasing, Above, insert_entry}
use xrossfire.Avl.Cancel.{insert_entry-All}
use xrossfire.Timeout.{Timeout, Timeouts, wait_timeout, is_address}
use xrossfire.Timeout.Order.{Handle, handle_order, timestamp-le_of_lt}
use xrossfire.Timeout.Queue.{IsValid, pending}
use xrossfire.Timeout.Process.{nil_of_head?}
use xrossfire.Poll.{Pollings, get_wait_timeout}
use xrossfire.Poll.Table.{registered}
use xrossfire.Poll.Table
use xrossfire.Poll.Wait.{get_wait_timeout_lem}

-- The timeout is not before `time`.
abbrev pub From : ℤ → Timeout → Type 0
From time e = time ≤ℤ e.key.timestamp

Above-From :
    (time : ℤ) (k : Handle) (es : List Timeout)
    → time ≤ℤ k.timestamp
    → Above k es
    → All (From time) es
unfolding handle_order
Above-From time k es h a =
    All-imp {Q = From time} (λ e p. omega (arith, timestamp-le_of_lt k e.key p)) es a

first-From :
    (time : ℤ) (es : List Timeout) {x : Timeout}
    → IsIncreasing es
    → head? es ≡ some x
    → From time x
    → All (From time) es
first-From time [] s p h = tt
first-From time (y ∷ ys) {x} s p h =
    let h' : From time y = rw (some-injective y x p) h in (h', Above-From time y.key ys h' s.0)

sum_bound : (m a t : ℤ) → m ≤ℤ a -ℤ t → t +ℤ m ≤ℤ a
unfolding ◌-ℤ◌ ◌+ℤ◌
sum_bound m a t h = ground arith

-- No pending timeout is before the end of a wait that is at most what the table answers.
wait_timeout-From :
    (s : Timeouts) (ticks m : ℤ)
    → IsValid s
    → m ≤ℤ wait_timeout s ticks
    → All (From (ticks +ℤ m)) (pending s)
unfolding wait_timeout
wait_timeout-From s ticks m v h =
    let first = (lookups_refine s.tree).0 in
    elim (Option-cases (Root.get_min s.tree)) [
      | inl e ↦ rw (nil_of_head? (pending s) (sym first ∙ e)) tt
      | inr (x, e) ↦
          first-From (ticks +ℤ m) (pending s) v.tree.increasing (sym first ∙ e)
            (sum_bound m x.key.timestamp ticks (answered x e))
    ]
  where
    answered : (x : Timeout) → Root.get_min s.tree ≡ some x → m ≤ℤ x.key.timestamp -ℤ ticks
    answered x e =
        subst
          (λ o. m ≤ℤ (elim o as (λ _. ℤ) [
            | none ↦ pos 300_000
            | some node ↦ node.key.timestamp -ℤ ticks
          ]))
          e h

pub below_answer :
    (n : ℕ) (ps : List ℕ) (m a : ℤ) → 0 < n → 0 < length ps → All (λ p. m ≤ℤ a) (take n ps) → m ≤ℤ a
below_answer zero ps m a h h' all = absurd (omega arith)
below_answer (suc n) [] m a h h' all = absurd (omega arith)
below_answer (suc n) (p ∷ ps) m a h h' all = all.0

-- The wait of the loop, with the procedure of src/timeout.c as all that is registered.
pub get_wait_timeout-From :
    (pollings : Pollings) (s : Timeouts) (ticks : ℤ)
    → Table.IsValid pollings
    → 0 < pollings.n_pollings
    → IsValid s
    → Returns
        (get_wait_timeout pollings (λ procedure. wait_timeout s ticks))
        λ m. All (From (ticks +ℤ m)) (pending s)
get_wait_timeout-From pollings s ticks t some_polling v =
    let (m, ran, (limit, below, origin)) =
      get_wait_timeout_lem pollings (λ procedure. wait_timeout s ticks) t in
    (
      m,
      ran,
      wait_timeout-From s ticks m v (
          below_answer pollings.n_pollings pollings.pollings m (wait_timeout s ticks) some_polling
            (omega (arith, t.slots)) below),
    )

later_of :
    (time : ℤ) (a b : Handle)
    → handle_order.compare b a ≡ lt
    → time ≤ℤ b.timestamp
    → time ≤ℤ a.timestamp
unfolding handle_order
later_of time a b p h = omega (arith, timestamp-le_of_lt b a p)

-- A timeout that is not the first is no earlier than one that was pending.
pub insert_entry-From :
    (time : ℤ) (x : Timeout) (es : List Timeout)
    → is_address (head? (insert_entry x es)) x.address ≡ false
    → All (From time) es
    → All (From time) (insert_entry x es)
unfolding insert_entry
insert_entry-From time x [] not_first a = cc (not_first, ==_self x.address)
insert_entry-From time x (y ∷ ys) not_first a = elim (sign (handle_order.compare x.key y.key)) [
  | is_lt p ↦ cc (rw (p, insert_entry) at not_first, ==_self x.address)
  | is_eq p ↦ rw (p, insert_entry) a
  | is_gt p ↦
      insert_entry-All (From time) x (y ∷ ys)
        (later_of time x.key y.key (handle_order.swap_gt x.key y.key p) a.0) a
]
