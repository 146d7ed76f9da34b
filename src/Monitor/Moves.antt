-- ===== src/Monitor/Moves.antt =====
-- src/poll.c and src/timeout.c: the threads do not block one another for good.
use xrossfire.Base.{
  ℕ, zero, suc, ◌<◌, ◌≡◌, ◌≢◌, ◌⊎◌, refl, ap, ◌∙◌, Bool, true, false, ◌||◌, inl, inr, All,
  Bool-cases, arith,
}
use xrossfire.Base.Int.{ℤ, ◌+ℤ◌, ◌<ℤ◌, leb_ℤ}
use xrossfire.Timeout.Order.{handle_order}
use xrossfire.Timeout.Queue.{pending}
use xrossfire.Poll.{Pollings}
use xrossfire.Poll.Table
use xrossfire.Monitor.{
  Owner, nobody, polling, client, PollPc, starting, asking, waiting, sleeping, waking, running,
  processing, calling, ClientPc, outside, scheduling, inserting, notifying, cancelling, removing,
  leaving, System, Outcome, moved, blocked, faulted, process_next, ask, move_poller, move_client,
  at_poller, after_enter, monitor_enter, Reach,
}
use xrossfire.Monitor.Inside.{inside_poller, inside_client}
use xrossfire.Monitor.Bound.{From}
use xrossfire.Monitor.Safe.{Covered, Expects, IsSafe, Allows}
use xrossfire.Monitor.Client.{move_client-Allows}
use xrossfire.Monitor.Reached.{poller-Allows, Reach-IsSafe}

abbrev pub Moves : Outcome → Type 0
Moves o = (t : System) × (o ≡ moved t)

Moves-of : (o : Outcome) → Allows IsSafe o → o ≢ blocked → Moves o
Moves-of (moved t) a h = (t, refl)
Moves-of blocked a h = absurd (h refl)
Moves-of faulted a h = absurd a

process_next-ne-blocked : (left : ℕ) (ticks : ℤ) (s : System) → process_next left ticks s ≢ blocked
unfolding process_next
process_next-ne-blocked left ticks s = λ e. ground arith

ask-ne-blocked : (pollings : Pollings) (s : System) → ask pollings s ≢ blocked
unfolding ask
ask-ne-blocked pollings s = λ e. ground arith

poller-ne-blocked :
    (pollings : Pollings) (pc : PollPc) (s : System)
    → inside_poller pc ≡ true
    → move_poller pollings pc s ≢ blocked
unfolding move_poller
poller-ne-blocked pollings asking s h = ask-ne-blocked pollings s
poller-ne-blocked pollings (waiting asked timeout) s h = λ e. cc
poller-ne-blocked pollings (running zero) s h = λ e. cc
poller-ne-blocked pollings (running (suc left)) s h = λ e. cc
poller-ne-blocked pollings (processing left ticks) s h = process_next-ne-blocked left ticks s
poller-ne-blocked pollings starting s h = cc
poller-ne-blocked pollings (sleeping asked timeout deadline woken) s h = cc
poller-ne-blocked pollings waking s h = cc
poller-ne-blocked pollings (calling left ticks node) s h = cc

client-ne-blocked :
    (k : ℕ) (pc : ClientPc) (s : System) → inside_client pc ≡ true → move_client k pc s ≢ blocked
unfolding move_client
client-ne-blocked k (inserting self timeout callback ticks) s h = λ e. ground arith
client-ne-blocked k (notifying woken) s h = λ e. cc
client-ne-blocked k (removing key) s h = λ e. ground arith
client-ne-blocked k leaving s h = λ e. cc
client-ne-blocked k outside s h = cc
client-ne-blocked k (scheduling self timeout callback ticks) s h = cc
client-ne-blocked k (cancelling key) s h = cc

-- A free monitor is entered.
pub enters :
    (who : Owner) (go : System → System) (s : System)
    → s.owner ≡ nobody
    → after_enter go (monitor_enter who s) ≡ moved (go (record s { owner = who }))
enters who go s e = by_owner s.owner e
  where
    by_owner :
        (owner : Owner)
        → owner ≡ nobody
        → after_enter go (elim owner as (λ _. Outcome) [
          | nobody ↦ moved (record s { owner = who })
          | polling ↦ blocked
          | client k ↦ blocked
        ])
          ≡ moved (go (record s { owner = who }))
    by_owner nobody h = refl
    by_owner polling h = cc
    by_owner (client k) h = cc

-- The polling thread sleeps, its time is not over, and nothing is pending before `asked + timeout`.
pub record Rests (s : System) : Type 0 where
  pub asked : ℤ
  pub timeout : ℤ
  pub deadline : ℤ
  pub sleeps : s.poller ≡ sleeping asked timeout deadline false
  pub early : s.clock <ℤ deadline
  pub nothing_before : All (From (asked +ℤ timeout)) (pending s.timeouts)

not_over :
    (woken : Bool) (deadline clock : ℤ)
    → (woken || leb_ℤ deadline clock) ≡ false
    → (woken ≡ false) × (clock <ℤ deadline)
not_over true deadline clock h = cc
not_over false deadline clock h = (refl, ground arith)

module _ (pollings : Pollings) (s : System) (i : IsSafe s) (free : s.owner ≡ nobody) where
  asleep :
      (asked timeout deadline : ℤ) (woken : Bool)
      → s.poller ≡ sleeping asked timeout deadline woken
      → (woken || leb_ℤ deadline s.clock) ≡ false
      → Covered s.clients woken (asked +ℤ timeout) (pending s.timeouts)
      → Rests s
  asleep asked timeout deadline woken e on (inl w) = cc (w, (not_over woken deadline s.clock on).0)
  asleep asked timeout deadline woken e on (inr (inl (k, n))) =
      cc (free, i.owned.client_owns k (ap inside_client n))
  asleep asked timeout deadline woken e on (inr (inr a)) =
      let (quiet, early) = not_over woken deadline s.clock on in
      record {
        asked = asked;
        timeout = timeout;
        deadline = deadline;
        sleeps = e ∙ ap (sleeping asked timeout deadline) quiet;
        early = early;
        nothing_before = a;
      }

  free_poller :
      (pc : PollPc)
      → s.poller ≡ pc
      → Expects pc s.clock s.clients (pending s.timeouts)
      → inside_poller pc ≡ false
      → Moves (move_poller pollings pc s) ⊎ Rests s
  unfolding move_poller
  free_poller starting e x h = inl (_, enters polling (at_poller asking) s free)
  free_poller waking e x h = inl (_, enters polling (at_poller asking) s free)
  free_poller (calling left ticks node) e x h =
      inl (_, enters polling (at_poller (processing left ticks)) s free)
  free_poller (sleeping asked timeout deadline woken) e (h', c) h =
      elim (Bool-cases (woken || leb_ℤ deadline s.clock)) [
        | inl over ↦ inl (simp (move_poller, over) (_, refl))
        | inr on ↦ inr (asleep asked timeout deadline woken e on c)
      ]
  free_poller asking e x h = cc
  free_poller (waiting asked timeout) e x h = cc
  free_poller (running left) e x h = cc
  free_poller (processing left ticks) e x h = cc

module _ (pollings : Pollings) (table : Table.IsValid pollings)
    (some_polling : 0 < pollings.n_pollings) where
  -- Let the procedure of the table of timeouts be all that is registered, at least once, in a
  -- valid table of procedures. In every state that the threads reach from the start, the polling
  -- thread can take a turn without a fault, or another thread can, or the polling thread sleeps,
  -- its time is not over, and no pending timeout is before the clock that was asked for plus the
  -- wait.
  pub reached-Moves :
      {clock : ℤ} {s : System}
      → Reach pollings clock s
      → Moves (move_poller pollings s.poller s)
        ⊎ ((k : ℕ) × Moves (move_client k (s.clients k) s))
        ⊎ Rests s
  reached-Moves {s = s} r = by_owner s.owner refl
    where
      i : IsSafe s
      i = Reach-IsSafe pollings table some_polling r

      turn : inside_poller s.poller ≡ true → Moves (move_poller pollings s.poller s)
      turn h =
          Moves-of _ (poller-Allows pollings table some_polling s i)
            (poller-ne-blocked pollings s.poller s h)

      by_owner :
          (owner : Owner)
          → s.owner ≡ owner
          → Moves (move_poller pollings s.poller s)
            ⊎ ((k : ℕ) × Moves (move_client k (s.clients k) s))
            ⊎ Rests s
      by_owner polling e = inl (turn (i.owned.poller_inside e))
      by_owner (client k) e = inr (
          inl (
            k,
            Moves-of _ (move_client-Allows s k i (s.clients k) refl)
                (client-ne-blocked k (s.clients k) s (i.owned.client_inside k e)),
          ))
      by_owner nobody e = elim (Bool-cases (inside_poller s.poller)) [
        | inl h ↦ inl (turn h)
        | inr h ↦ elim (free_poller pollings s i e s.poller refl i.expects h) [
          | inl m ↦ inl m
          | inr rests ↦ inr (inr rests)
        ]
      ]
