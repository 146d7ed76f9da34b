-- ===== src/Monitor/Reached.antt =====
-- src/poll.c and src/timeout.c: what holds in every state that the threads reach.
use xrossfire.Base.{ℕ, ◌<◌, ◌≡◌, ◌≢◌, refl, sym, subst, ap, ◌∙◌, true, false, inl, inr, All, arith}
use xrossfire.Base.Int.{ℤ, ◌+ℤ◌, ◌≤ℤ◌}
use xrossfire.Timeout.{Timeout}
use xrossfire.Timeout.Order.{handle_order}
use xrossfire.Timeout.Queue.{pending, init-IsValid_lem}
use xrossfire.Poll.{Pollings}
use xrossfire.Poll.Table
use xrossfire.Monitor.{
  Owner, nobody, polling, client, sleeping, waking, calling, scheduling, notifying, cancelling,
  System, Outcome, moved, move_poller, Step, poller_moves, client_moves, schedules, cancels, passes,
  wakes_early, initial, Reach, start, later,
}
use xrossfire.Monitor.Inside.{inside_poller, inside_client, is_inside, poller_stays}
use xrossfire.Monitor.Bound.{From}
use xrossfire.Monitor.Safe.{Covered, Expects, IsSafe, Allows, Expects-later}
use xrossfire.Monitor.Poller.{move_poller-Allows}
use xrossfire.Monitor.Client.{client_stays-IsSafe, move_client-Allows}

-- No timeout is pending at the start, and nobody is inside.
pub initial-IsSafe : (clock : ℤ) → IsSafe (initial clock)
initial-IsSafe clock = record {
  owned = record {
    poller_owns = λ h. cc;
    poller_inside = λ h. cc;
    client_owns = λ k h. cc;
    client_inside = λ k h. cc;
  };
  valid = init-IsValid_lem;
  expects = tt;
}

-- A turn that moves leads to a state in which it holds.
moved-IsSafe : (s t : System) (o : Outcome) → Allows IsSafe o → o ≡ moved t → IsSafe t
moved-IsSafe s t o a e = subst (Allows IsSafe) e a

module _ (pollings : Pollings) (table : Table.IsValid pollings)
    (some_polling : 0 < pollings.n_pollings) where
  pub poller-Allows : (s : System) → IsSafe s → Allows IsSafe (move_poller pollings s.poller s)
  poller-Allows s i =
      move_poller-Allows pollings table some_polling s i.valid s.poller i.owned i.expects

  Step-IsSafe : {s t : System} → Step pollings s t → IsSafe s → IsSafe t
  Step-IsSafe {s} {t} (poller_moves e) i = moved-IsSafe s t _ (poller-Allows s i) e
  Step-IsSafe {s} {t} (client_moves k e) i =
      moved-IsSafe s t _ (move_client-Allows s k i (s.clients k) refl) e
  Step-IsSafe {s} (schedules k self timeout callback e) i =
      client_stays-IsSafe s k i (scheduling self timeout callback s.clock)
        (sym (ap inside_client e)) (λ h. cc (h, e))
  Step-IsSafe {s} (cancels k key e) i =
      client_stays-IsSafe s k i (cancelling key) (sym (ap inside_client e)) (λ h. cc (h, e))
  Step-IsSafe {s} (passes clock h) i = record {
    owned = i.owned;
    valid = i.valid;
    expects = Expects-later s.poller s.clock clock s.clients (pending s.timeouts) h i.expects;
  }
  Step-IsSafe {s} (wakes_early e) i = record {
    owned = poller_stays i.owned waking (sym (ap inside_poller e));
    valid = i.valid;
    expects = tt;
  }

  pub Reach-IsSafe : {clock : ℤ} {s : System} → Reach pollings clock s → IsSafe s
  Reach-IsSafe {clock} start = initial-IsSafe clock
  Reach-IsSafe (later r st) = Step-IsSafe st (Reach-IsSafe r)

  owner_of : {s : System} → IsSafe s → (who : Owner) → is_inside s who ≡ true → s.owner ≡ who
  owner_of i nobody h = cc
  owner_of i polling h = i.owned.poller_owns h
  owner_of i (client k) h = i.owned.client_owns k h

  -- Let the procedure of the table of timeouts be all that is registered, at least once, in a
  -- valid table of procedures. In every state that the threads reach from the start, at most one
  -- thread is inside the monitor.
  pub exclusion :
      {clock : ℤ} {s : System}
      → Reach pollings clock s
      → (a b : Owner) → is_inside s a ≡ true
      → is_inside s b ≡ true
      → a ≡ b
  exclusion r a b h k = let i = Reach-IsSafe r in sym (owner_of i a h) ∙ owner_of i b k

  -- Let the procedure of the table of timeouts be all that is registered, at least once, in a
  -- valid table of procedures. In every state that the threads reach from the start, if the
  -- polling thread sleeps, has not been woken, and no other thread is about to notify it, then no
  -- pending timeout is before the clock that was asked for plus the wait: no timeout that is
  -- scheduled is overlooked.
  pub sleeping-From :
      {clock : ℤ} {s : System}
      → Reach pollings clock s
      → (asked timeout deadline : ℤ) → s.poller ≡ sleeping asked timeout deadline false
      → ((k : ℕ) → s.clients k ≢ notifying true)
      → All (From (asked +ℤ timeout)) (pending s.timeouts)
  sleeping-From {s = s} r asked timeout deadline e quiet =
      covered
        (subst (λ pc. Expects pc s.clock s.clients (pending s.timeouts)) e
          (Reach-IsSafe r).expects).1
    where
      covered :
          Covered s.clients false (asked +ℤ timeout) (pending s.timeouts)
          → All (From (asked +ℤ timeout)) (pending s.timeouts)
      covered (inl h) = cc
      covered (inr (inl (k, h))) = absurd (quiet k h)
      covered (inr (inr a)) = a

  -- Let the procedure of the table of timeouts be all that is registered, at least once, in a
  -- valid table of procedures. In every state that the threads reach from the start, a timeout
  -- whose callback is being called is not before its time.
  pub calling-le-clock :
      {clock : ℤ} {s : System}
      → Reach pollings clock s
      → (left : ℕ) (ticks : ℤ) (node : Timeout) → s.poller ≡ calling left ticks node
      → node.key.timestamp ≤ℤ s.clock
  calling-le-clock {s = s} r left ticks node e =
      let x =
        subst (λ pc. Expects pc s.clock s.clients (pending s.timeouts)) e
          (Reach-IsSafe r).expects in
      omega (arith, x.0, x.1)
