-- ===== src/Monitor/Due.antt =====
-- src/poll.c: the polling thread comes to what is due.
use xrossfire.Base.{
  ℕ, ◌<◌, ◌≡◌, refl, sym, subst, ap, ◌∙◌, false, true, some, List, ◌∷◌, head?, arith,
}
use xrossfire.Base.Int.{ℤ, pos, ◌-ℤ◌, ◌≤ℤ◌, leb_ℤ, ltb_ℤ}
use xrossfire.Avl.Root
use xrossfire.Avl.Root.Refines.{lookups_refine}
use xrossfire.Timeout.{Timeout, Timeouts, wait_timeout}
use xrossfire.Timeout.Order.{handle_order}
use xrossfire.Timeout.Queue.{IsValid, pending}
use xrossfire.Timeout.Process.{unlink_first, IsDue}
use xrossfire.Poll.{Pollings}
use xrossfire.Poll.Table
use xrossfire.Poll.Wait.{get_wait_timeout_lem}
use xrossfire.Monitor.{running, calling, System, moved, at_poller, monitor_leave, process_next, ask}
use xrossfire.Monitor.Bound.{below_answer}

over : (m a t : ℤ) → m ≤ℤ a -ℤ t → a ≤ℤ t → ltb_ℤ (pos 0) m ≡ false
unfolding ◌-ℤ◌
over m a t h d = ground arith

now : (a t : ℤ) → a ≤ℤ t → leb_ℤ a t ≡ true
now a t h = ground arith

module _ (pollings : Pollings) (table : Table.IsValid pollings)
    (some_polling : 0 < pollings.n_pollings) (s : System) (valid : IsValid s.timeouts) (x : Timeout)
    (rest : List Timeout) (first : pending s.timeouts ≡ x ∷ rest) (due : IsDue s.clock x) where
  get_min-first : Root.get_min s.timeouts.tree ≡ some x
  get_min-first = (lookups_refine s.timeouts.tree).0 ∙ ap head? first

  wait_answer : wait_timeout s.timeouts s.clock ≡ x.key.timestamp -ℤ s.clock
  unfolding wait_timeout
  wait_answer = rw (wait_timeout, get_min-first) refl

  pub ask-running : ask pollings s ≡ moved (at_poller (running pollings.n_pollings) s)
  unfolding ask
  ask-running =
      let (m, ran, (limit, below, origin)) =
        get_wait_timeout_lem pollings (λ procedure. wait_timeout s.timeouts s.clock) table in
      let bound =
        below_answer pollings.n_pollings pollings.pollings m (wait_timeout s.timeouts s.clock)
          some_polling (omega (arith, table.slots)) below in
      let short = over m x.key.timestamp s.clock (subst (λ a. m ≤ℤ a) wait_answer bound) due in
      simp (ask, ran, short) refl

  -- The callback of the first timeout is called.
  abbrev pub called : ℕ → Timeouts → System
  called left timeouts =
      monitor_leave (record s { timeouts = timeouts; poller = calling left s.clock x })

  pub process_next-calling :
      (left : ℕ)
      → (timeouts : Timeouts) × (process_next left s.clock s ≡ moved (called left timeouts))
        × (pending timeouts ≡ rest)
  unfolding process_next
  process_next-calling left =
      let (tree, ran, (valid', split)) = unlink_first s.timeouts valid get_min-first in
      (
        record s.timeouts { tree = tree },
        simp (process_next, get_min-first, now x.key.timestamp s.clock due, ran) refl,
        tail_of (sym split ∙ first),
      )
    where
      tail_of : {y z : Timeout} {ys zs : List Timeout} → y ∷ ys ≡ z ∷ zs → ys ≡ zs
      tail_of e = cc
