-- ===== src/Monitor/Poller.antt =====
-- src/poll.c: a step of the polling thread.
use xrossfire.Base.{
  ℕ, zero, suc, ◌<◌, ◌≡◌, refl, true, false, ◌||◌, inl, inr, Bool-cases, Option-cases, arith,
}
use xrossfire.Base.Int.{ℤ, pos, ◌+ℤ◌, ◌≤ℤ◌, ◌<ℤ◌, leb_ℤ, ltb_ℤ}
use xrossfire.Avl.Root
use xrossfire.Timeout.Queue.{IsValid, pending}
use xrossfire.Timeout.Process.{unlink_first}
use xrossfire.Poll.{Pollings}
use xrossfire.Poll.Table
use xrossfire.Monitor.{
  nobody, polling, PollPc, starting, asking, waiting, sleeping, waking, running, processing,
  calling, System, at_poller, process_next, ask, move_poller,
}
use xrossfire.Monitor.Inside.{Owned, inside_poller, poller_stays, poller_enters, poller_leaves}
use xrossfire.Monitor.Bound.{get_wait_timeout-From}
use xrossfire.Monitor.Safe.{Expects, IsSafe, Allows, enter-Allows}

positive : (a : ℤ) → ltb_ℤ (pos 0) a ≡ true → pos 0 <ℤ a
positive a h = ground arith

due : (a t : ℤ) → leb_ℤ a t ≡ true → a ≤ℤ t
due a t h = ground arith

later_start : (a b t : ℤ) → a ≤ℤ b → a +ℤ t ≤ℤ b +ℤ t
unfolding ◌+ℤ◌
later_start a b t h = ground arith

-- The polling thread stands at `pc`.
module _ (s : System) (pc : PollPc) (valid : IsValid s.timeouts)
    (owned : Owned s.owner pc s.clients)
    (expects : Expects pc s.clock s.clients (pending s.timeouts)) where
  at_poller-IsSafe :
      (pc' : PollPc)
      → inside_poller pc' ≡ inside_poller pc
      → Expects pc' s.clock s.clients (pending s.timeouts)
      → IsSafe (at_poller pc' s)
  at_poller-IsSafe pc' e x = record { owned = poller_stays owned pc' e; valid = valid; expects = x }

  enter-IsSafe :
      (pc' : PollPc)
      → inside_poller pc' ≡ true
      → Expects pc' s.clock s.clients (pending s.timeouts)
      → s.owner ≡ nobody
      → IsSafe (at_poller pc' (record s { owner = polling }))
  enter-IsSafe pc' i x e = record {
    owned = poller_enters owned pc' e i;
    valid = valid;
    expects = x;
  }

module _ (left : ℕ) (ticks : ℤ) (s : System) (valid : IsValid s.timeouts)
    (owned : Owned s.owner (processing left ticks) s.clients) (past : ticks ≤ℤ s.clock) where
  process_next-IsSafe : Allows IsSafe (process_next left ticks s)
  unfolding process_next
  process_next-IsSafe = elim (Option-cases (Root.get_min s.timeouts.tree)) [
    | inl e ↦
        simp (process_next, e)
          (at_poller-IsSafe s (processing left ticks) valid owned past (running left) refl tt)
    | inr (x, e) ↦ elim (Bool-cases (leb_ℤ x.key.timestamp ticks)) [
      | inr late ↦
          simp (process_next, e, late)
            (at_poller-IsSafe s (processing left ticks) valid owned past (running left) refl tt)
      | inl now ↦
          (let (tree, ran, (valid', split)) = unlink_first s.timeouts valid e in
            simp (process_next, e, now, ran)
              (record {
                owned = poller_leaves owned (calling left ticks x) refl refl;
                valid = valid';
                expects = (due x.key.timestamp ticks now, past);
              }))
    ]
  ]

module _ (pollings : Pollings) (table : Table.IsValid pollings)
    (some_polling : 0 < pollings.n_pollings) (s : System) (valid : IsValid s.timeouts) where
  ask-IsSafe : Owned s.owner asking s.clients → Allows IsSafe (ask pollings s)
  unfolding ask
  ask-IsSafe owned =
      let (m, ran, from) =
        get_wait_timeout-From pollings s.timeouts s.clock table some_polling valid in
      elim (Bool-cases (ltb_ℤ (pos 0) m)) [
        | inl long ↦
            simp (ask, ran, long)
              (at_poller-IsSafe s asking valid owned tt (waiting s.clock m) refl
                (positive m long, omega arith, from))
        | inr over ↦
            simp (ask, ran, over)
              (at_poller-IsSafe s asking valid owned tt (running pollings.n_pollings) refl tt)
      ]

  pub move_poller-Allows :
      (pc : PollPc)
      → Owned s.owner pc s.clients
      → Expects pc s.clock s.clients (pending s.timeouts)
      → Allows IsSafe (move_poller pollings pc s)
  unfolding move_poller
  move_poller-Allows starting owned x =
      enter-Allows IsSafe polling (at_poller asking) s
        (enter-IsSafe s starting valid owned x asking refl tt)
  move_poller-Allows asking owned x = ask-IsSafe owned
  move_poller-Allows (waiting asked timeout) owned (p, past, from) = record {
    owned = poller_leaves owned (sleeping asked timeout (s.clock +ℤ timeout) false) refl refl;
    valid = valid;
    expects = (later_start asked s.clock timeout past, inr (inr from));
  }
  move_poller-Allows (sleeping asked timeout deadline woken) owned x =
      elim (Bool-cases (woken || leb_ℤ deadline s.clock)) [
        | inl over ↦ simp over (
            at_poller-IsSafe s (sleeping asked timeout deadline woken) valid owned x waking refl tt)
        | inr on ↦ simp on tt
      ]
  move_poller-Allows waking owned x =
      enter-Allows IsSafe polling (at_poller asking) s
        (enter-IsSafe s waking valid owned x asking refl tt)
  move_poller-Allows (running zero) owned x =
      at_poller-IsSafe s (running 0) valid owned x asking refl tt
  move_poller-Allows (running (suc left)) owned x =
      at_poller-IsSafe s (running (suc left)) valid owned x (processing left s.clock) refl
        (omega arith)
  move_poller-Allows (processing left ticks) owned x =
      process_next-IsSafe left ticks s valid owned x
  move_poller-Allows (calling left ticks node) owned (d, past) =
      enter-Allows IsSafe polling (at_poller (processing left ticks)) s (
        enter-IsSafe s (calling left ticks node) valid owned (d, past) (processing left ticks) refl
          past)
