-- ===== src/Loop/Rounds.antt =====
-- src/poll.c over src/timeout.c: what any number of rounds of the loop leave.
use xrossfire.Base.{
  ℕ, suc, ◌≤◌, ◌≡◌, refl, ◌⊎◌, inl, inr, Option, none, some, List, [], ◌∷◌, ◌>>=◌, All, Returns,
  arith,
}
use xrossfire.Base.Int.{ℤ, pos, ◌<ℤ◌}
use xrossfire.Timeout.{Timeout, Timeouts}
use xrossfire.Timeout.Queue.{IsValid, pending}
use xrossfire.Timeout.Process.{IsLate, count_due}
use xrossfire.Poll.{Pollings, Round, poll_round, poll_loop}
use xrossfire.Poll.Table.{registered}
use xrossfire.Poll.Table
use xrossfire.Loop.{ask_procedure, run_procedure}
use xrossfire.Loop.Round.{Settles, poll_round-runs, run_procedure-runs}

-- The clock when the procedure is asked and when it is run, what a callback does to the table, and
-- what the other threads do to it while the loop waits.
pub record Turn : Type 0 where
  pub asked : ℤ
  pub ran : ℤ
  pub fire : Timeout → Timeouts → Timeouts
  pub wait : ℤ → Timeouts → Timeouts

-- The rounds that the processing loop needs: one more than the entries that are due.
abbrev pub enough : ℤ → Option Timeouts → ℕ
enough ran none = 0
enough ran (some s) = suc (count_due ran (pending s))

abbrev pub waiting : (ℤ → Timeouts → Timeouts) → ℤ → Option Timeouts → Option Timeouts
waiting wait timeout s = s >>= λ t. some (wait timeout t)

abbrev pub round_of : Turn → Round (Option Timeouts)
round_of turn = record {
  ask = ask_procedure turn.asked;
  run = λ procedure s. run_procedure (enough turn.ran s) turn.ran turn.fire procedure s;
  wait = waiting turn.wait;
}

abbrev pub rounds_of : List Turn → List (Round (Option Timeouts))
rounds_of [] = []
rounds_of (turn ∷ turns) = round_of turn ∷ rounds_of turns

-- Callbacks and other threads keep the table valid, and no callback adds an entry that is due.
pub record IsTurn (turn : Turn) : Type 0 where
  pub fires : (x : Timeout) (s : Timeouts) → IsValid s → IsValid (turn.fire x s)
  pub calm :
      (x : Timeout) (s : Timeouts)
      → IsValid s
      → count_due turn.ran (pending (turn.fire x s)) ≤ count_due turn.ran (pending s)
  pub waits : (timeout : ℤ) (s : Timeouts) → IsValid s → IsValid (turn.wait timeout s)

-- From `s` to `s'` in one turn: nothing was due and the loop waited, or nothing is due any more.
abbrev pub Settled : Turn → Timeouts → Timeouts → Type 0
Settled turn s s' =
    All (IsLate turn.asked) (pending s)
      × ((timeout : ℤ) × (pos 0 <ℤ timeout) × (s' ≡ turn.wait timeout s))
    ⊎ All (IsLate turn.ran) (pending s')

-- The tables that the turns leave, each valid, from `s` to the last, `out`.
abbrev pub Trace : List Turn → Timeouts → Option Timeouts → Type 0
Trace [] s out = out ≡ some s
Trace (turn ∷ turns) s out = (s' : Timeouts) × IsValid s' × Settled turn s s' × Trace turns s' out

module _ (pollings : Pollings) (procedure : ℕ) (alone : registered pollings ≡ procedure ∷ [])
    (table : Table.IsValid pollings) where
  Settles-Settled :
      (turn : Turn) (s : Timeouts) (out : Option Timeouts)
      → IsTurn turn
      → IsValid s
      → Settles turn.asked turn.ran (waiting turn.wait) s out
      → Returns out λ s'. IsValid s' × Settled turn s s'
  Settles-Settled turn s out i v (inl (late, (timeout, later, same))) =
      (turn.wait timeout s, same, (i.waits timeout s v, inl (late, (timeout, later, refl))))
  Settles-Settled turn s out i v (inr (s', same, (valid, late))) = (s', same, (valid, inr late))

  round_of-Settled :
      (turn : Turn) (s : Timeouts)
      → IsTurn turn
      → IsValid s
      → let r = round_of turn in
        Returns
          (poll_round pollings r.ask r.run r.wait (some s))
          (λ out. Returns out λ s'. IsValid s' × Settled turn s s')
  round_of-Settled turn s i v =
      let wait = waiting turn.wait in
      let fuel = suc (count_due turn.ran (pending s)) in
      let (out, ran, settles) =
        poll_round-runs pollings procedure alone turn.asked turn.ran wait (round_of turn).run s
          table v
          (run_procedure-runs pollings procedure alone turn.asked turn.ran wait turn.fire i.fires
            i.calm fuel s v (omega arith)) in
      (out, ran, Settles-Settled turn s out i v settles)

  -- Let the procedure of a valid table of timeouts be the only one of a valid table of
  -- procedures. Let every callback and every other thread keep the table of timeouts valid, and
  -- no callback raise the number of entries that are due. Then the loop never faults, however
  -- many rounds it makes. Each round leaves a valid table. It has waited, for a positive time,
  -- and nothing was due when it asked, or nothing is due at the time when it ran.
  pub poll_loop-Trace :
      (turns : List Turn) (s : Timeouts)
      → All IsTurn turns
      → IsValid s
      → Returns (poll_loop pollings (rounds_of turns) (some s)) (Trace turns s)
  unfolding poll_loop
  poll_loop-Trace [] s i v = (some s, refl, refl)
  poll_loop-Trace (turn ∷ turns) s i v =
      let (out, ran, (s', same, (valid, settled))) = round_of-Settled turn s i.0 v in
      let (out', loop, trace) = poll_loop-Trace turns s' i.1 valid in
      (out', rw ran (rw same loop), (s', valid, settled, trace))
