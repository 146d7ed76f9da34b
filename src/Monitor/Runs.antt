-- ===== src/Monitor/Runs.antt =====
-- src/poll.c: turns of the polling thread, one after the other.
use xrossfire.Base.{ℕ, zero, suc, ◌<◌, ◌≡◌, refl, ap, ◌∙◌, Bool, true, List, ◌∷◌, ◌||◌, arith}
use xrossfire.Base.Int.{ℤ, leb_ℤ}
use xrossfire.Timeout.{Timeout}
use xrossfire.Timeout.Queue.{IsValid, pending}
use xrossfire.Timeout.Process.{IsDue}
use xrossfire.Poll.{Pollings}
use xrossfire.Poll.Table
use xrossfire.Monitor.{
  nobody, polling, PollPc, asking, sleeping, waking, running, processing, calling, System, Outcome,
  moved, blocked, faulted, at_poller, move_poller,
}
use xrossfire.Monitor.Moves.{enters}
use xrossfire.Monitor.Due.{called, ask-running, process_next-calling}

abbrev after_turn : (System → Outcome) → Outcome → Outcome
after_turn go (moved s) = go s
after_turn go blocked = blocked
after_turn go faulted = faulted

-- So many turns, while no other thread takes one.
unfoldable pub run_poller : Pollings → ℕ → System → Outcome
run_poller pollings zero s = moved s
run_poller pollings (suc n) s = after_turn (run_poller pollings n) (move_poller pollings s.poller s)

one_turn :
    (pollings : Pollings) (n : ℕ) (s t : System) (pc : PollPc)
    → s.poller ≡ pc
    → move_poller pollings pc s ≡ moved t
    → run_poller pollings (suc n) s ≡ run_poller pollings n t
unfolding run_poller
one_turn pollings n s t pc e h =
    ap (λ place. after_turn (run_poller pollings n) (move_poller pollings place s)) e
    ∙ ap (after_turn (run_poller pollings n)) h

not_zero : (n : ℕ) → 0 < n → (left : ℕ) × (n ≡ suc left)
not_zero zero h = absurd (omega arith)
not_zero (suc left) h = (left, refl)

-- The callback of `x` is being called, nobody is inside, and the others are left.
pub record Calls (s : System) (x : Timeout) (rest : List Timeout) (o : Outcome) : Type 0 where
  pub left : ℕ
  pub state : System
  pub reached : o ≡ moved state
  pub called_is : state.poller ≡ calling left s.clock x
  pub outside : state.owner ≡ nobody
  pub others : pending state.timeouts ≡ rest

module _ (pollings : Pollings) (table : Table.IsValid pollings)
    (some_polling : 0 < pollings.n_pollings) (x : Timeout) (rest : List Timeout) where
  asking-Calls :
      (s : System)
      → IsValid s.timeouts
      → pending s.timeouts ≡ x ∷ rest
      → IsDue s.clock x
      → s.poller ≡ asking
      → Calls s x rest (run_poller pollings 3 s)
  unfolding move_poller run_poller
  asking-Calls s valid first due e =
      let (left, count) = not_zero pollings.n_pollings some_polling in
      let s' = at_poller (running (suc left)) s in
      let s'' = at_poller (processing left s.clock) s in
      let (timeouts, ran, others) =
        process_next-calling pollings table some_polling s'' valid x rest first due left in
      record {
        left = left;
        state = called pollings table some_polling s'' valid x rest first due left timeouts;
        reached =
            one_turn pollings 2 s s' asking e (
              ask-running pollings table some_polling s valid x rest first due
              ∙ ap (λ n. moved (at_poller (running n) s)) count)
            ∙ one_turn pollings 1 s' s'' (running (suc left)) refl refl
            ∙ one_turn pollings 0 s'' _ (processing left s.clock) refl ran;
        called_is = refl;
        outside = refl;
        others = others;
      }

  -- Let a valid table of procedures have at least one, all of them that of a valid table of
  -- timeouts, let nobody be inside, and let the polling thread sleep and have been woken, or its
  -- time be over. If the first pending timeout is due, five turns of the polling thread alone
  -- come to its callback with nobody inside the monitor, and leave the other timeouts pending.
  pub sleeping-Calls :
      (s : System) (asked timeout deadline : ℤ) (woken : Bool)
      → IsValid s.timeouts
      → s.owner ≡ nobody
      → s.poller ≡ sleeping asked timeout deadline woken
      → (woken || leb_ℤ deadline s.clock) ≡ true
      → pending s.timeouts ≡ x ∷ rest
      → IsDue s.clock x
      → Calls s x rest (run_poller pollings 5 s)
  unfolding move_poller
  sleeping-Calls s asked timeout deadline woken valid free e over first due =
      let s' = at_poller waking s in
      let s'' = at_poller asking (record s { owner = polling }) in
      let c = asking-Calls s'' valid first due refl in
      record {
        left = c.left;
        state = c.state;
        reached =
            one_turn pollings 4 s s' (sleeping asked timeout deadline woken) e
              (simp (move_poller, over) refl)
            ∙ one_turn pollings 3 s' s'' waking refl (enters polling (at_poller asking) s' free)
            ∙ c.reached;
        called_is = c.called_is;
        outside = c.outside;
        others = c.others;
      }
