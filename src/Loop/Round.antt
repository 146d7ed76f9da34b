-- ===== src/Loop/Round.antt =====
-- src/poll.c over src/timeout.c: what a round of the loop leaves, and the start.
use mathlib.Core.Option.{some-injective}
use xrossfire.Base.{
  ℕ, ◌<◌, ◌≤◌, ◌≡◌, refl, sym, subst, ◌∙◌, ◌⊎◌, inl, inr, true, Option, some, [], ◌∷◌, ◌++◌, All,
  Returns, Bool-cases, arith,
}
use xrossfire.Base.Int.{ℤ, pos, ◌<ℤ◌, ◌≤ℤ◌, ltb_ℤ}
use xrossfire.Timeout.{Timeout, Timeouts, wait_timeout}
use xrossfire.Timeout
use xrossfire.Timeout.Queue.{IsValid, pending, init-IsValid_lem}
use xrossfire.Timeout.Process.{IsLate, count_due, wait_timeout_lem, process-Processes}
use xrossfire.Poll.{Pollings, poll_round}
use xrossfire.Poll.Table.{capacity, registered, poll_add_lem}
use xrossfire.Poll.Table
use xrossfire.Poll.Wait.{run_all, get_wait_timeout_lem, poll_round_lem}
use xrossfire.Loop.{timeout_init, ask_procedure, run_procedure}

positive : (a : ℤ) → ltb_ℤ (pos 0) a ≡ true → pos 0 <ℤ a
positive a h = ground arith

below : (m a : ℤ) → pos 0 <ℤ m → m ≤ℤ a → pos 0 <ℤ a
below m a h p = omega arith

-- After a round: it has waited and nothing was due, or what was due has been run.
abbrev pub Settles :
    ℤ → ℤ → (ℤ → Option Timeouts → Option Timeouts) → Timeouts → Option Timeouts → Type 0
Settles asked ran wait s out =
    All (IsLate asked) (pending s)
      × ((timeout : ℤ) × (pos 0 <ℤ timeout) × (out ≡ wait timeout (some s)))
    ⊎ Returns out λ s'. IsValid s' × All (IsLate ran) (pending s')

module _ (pollings : Pollings) (procedure : ℕ) (alone : registered pollings ≡ procedure ∷ [])
    (asked ran : ℤ) (wait : ℤ → Option Timeouts → Option Timeouts) where
  IsLate-alone :
      (s : Timeouts) (m : ℤ)
      → IsValid s
      → pos 0 <ℤ m
      → All (λ p. m ≤ℤ ask_procedure asked (some s) p) (registered pollings)
      → All (IsLate asked) (pending s)
  unfolding ask_procedure
  IsLate-alone s m v h a =
      let bound = subst (All λ p. m ≤ℤ wait_timeout s asked) alone a in
      (wait_timeout_lem s asked v).0 (below m (wait_timeout s asked) h bound.0)

  -- A round settles a table that the procedure, when it is run, leaves valid with nothing due.
  pub poll_round-runs :
      (run : ℕ → Option Timeouts → Option Timeouts) (s : Timeouts)
      → Table.IsValid pollings
      → IsValid s
      → Returns (run procedure (some s)) (λ s'. IsValid s' × All (IsLate ran) (pending s'))
      → Returns
          (poll_round pollings (ask_procedure asked) run wait (some s))
          (Settles asked ran wait s)
  unfolding run_all
  poll_round-runs run s t v runs =
      let (m, found, round) = poll_round_lem pollings (ask_procedure asked) run wait (some s) t in
      let (m', found', (limit, bounds, origin)) =
        get_wait_timeout_lem pollings (ask_procedure asked (some s)) t in
      let same = some-injective m' m (sym found' ∙ found) in
      rw round (elim (Bool-cases (ltb_ℤ (pos 0) m)) [
        | inl later ↦ rw later (
          wait m (some s),
          refl,
          inl (
            IsLate-alone s m v (positive m later) (
                subst (λ k. All (λ p. k ≤ℤ ask_procedure asked (some s) p) (registered pollings))
                  same bounds),
            (m, positive m later, refl),
          ),
        )
        | inr now ↦ rw now (rw alone (_, refl, inr runs))
      ])

  module _ (fire : Timeout → Timeouts → Timeouts)
      (keeps : (x : Timeout) (s : Timeouts) → IsValid s → IsValid (fire x s))
      (calm : (x : Timeout) (s : Timeouts)
        → IsValid s
        → count_due ran (pending (fire x s)) ≤ count_due ran (pending s)) where
    pub run_procedure-runs :
        (fuel : ℕ) (s : Timeouts)
        → IsValid s
        → count_due ran (pending s) < fuel
        → Returns
            (run_procedure fuel ran fire procedure (some s))
            λ s'. IsValid s' × All (IsLate ran) (pending s')
    unfolding run_procedure
    run_procedure-runs fuel s v h =
        let (out, done, i) = process-Processes ran fire keeps calm fuel s v h in
        rw done (out.0, refl, (i.valid, i.late))

    -- Let the procedure of a valid table of timeouts be the only one of a valid table of
    -- procedures, let every callback keep the table of timeouts valid and not raise the number of
    -- entries that are due, and let the fuel exceed that number. A round of the loop never
    -- faults: either it waits, for a positive time, and no timeout was due when it asked, or it
    -- leaves a valid table in which none is due when it runs.
    pub poll_round-Settles :
        (fuel : ℕ) (s : Timeouts)
        → Table.IsValid pollings
        → IsValid s
        → count_due ran (pending s) < fuel
        → Returns
            (poll_round pollings (ask_procedure asked) (run_procedure fuel ran fire) wait (some s))
            (Settles asked ran wait s)
    poll_round-Settles fuel s t v h =
        poll_round-runs (run_procedure fuel ran fire) s t v (run_procedure-runs fuel s v h)

-- On a valid table of procedures with a free slot, the initialisation of the timeouts never
-- faults: it registers the procedure as the last, and leaves both tables valid and no timeout
-- pending.
pub timeout_init-IsValid :
    (pollings : Pollings) (procedure : ℕ)
    → Table.IsValid pollings
    → pollings.n_pollings < capacity
    → Returns (timeout_init pollings procedure) λ out.
      Table.IsValid out.0
      × (registered out.0 ≡ registered pollings ++ (procedure ∷ []))
      × IsValid out.1
      × (pending out.1 ≡ [])
unfolding timeout_init Timeout.init xrossfire.Avl.Root.init
timeout_init-IsValid pollings procedure t h = elim (poll_add_lem pollings procedure t) [
  | inl (room, (out, ran, (valid, grown))) ↦
      rw ran ((out, Timeout.init), refl, (valid, grown, init-IsValid_lem, refl))
  | inr (full, fault) ↦ absurd (omega (arith, full))
]
