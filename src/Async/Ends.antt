-- ===== src/Async/Ends.antt =====
-- src/async.c: an operation of several phases that is called for one with a completion procedure, and
-- ends in its first phase.
pub mod Tests
use xrossfire.Base.{
  ℕ, suc, ◌≡◌, ◌≢◌, refl, sym, ap, subst, ◌∙◌, inl, inr, Bool, true, false, Option, none, some,
  ◌==◌, ==_self, if◌then◌else◌, Returns, Bool-cases,
}
use mathlib.Core.Option.{some-injective}
use xrossfire.Base.Int.{ℤ, pos, ==ℤ, ◌≤ℤ◌}
use xrossfire.Avl.Sorted.{find_key}
use xrossfire.Timeout.{is_some}
use xrossfire.Timeout.Order.{handle_order}
use xrossfire.Timeout.Queue.{IsValid, pending}
use xrossfire.Async.{Async, multi_phase, World, write, set_child}
use xrossfire.Async.Notify.{
  Platform, notify, finish, run_error_phase, run_next_phase, get_next_phase, with_next_phase,
  phase_error, phase_exit, call_procedure,
}
use xrossfire.Async.Create.{setup, schedule_timeout, call}
use xrossfire.Async.Counts.{Operation}
use xrossfire.Async.Pair.{no_timeout, phases, Pair, p_not_q, q_not_p}
use xrossfire.Async.Phases.{Step, stepped, with_phase, answer}
use xrossfire.Async.Parent.{parent_at, Ended, finish_faults, finish-Ended}

module _ {ℓ} {W : Type ℓ} (platform : Platform W) (p : ℕ) (op : Operation) (apart : p ≢ op.address)
    (procedure context : ℕ) (act : ℤ → ℕ → W → Step W)
    (calm : (phase : ℤ) (error : ℕ) (w : World W)
      → platform.procedure procedure p phase error context w
        ≡ some (
          record w { rest = (act phase error w.rest).after },
          (act phase error w.rest).error,
          (act phase error w.rest).next,
        )) where
  abbrev q : ℕ
  q = op.address

  -- What the phases that are run leave: the first, and the error phase if the first fails.
  abbrev pub after_phases : W → W
  after_phases r =
      let first = act (pos 0) 0 r in
      if first.error == 0 then first.after else (act phase_error first.error first.after).after

  -- The operation is about to end with the error.
  record Ending (fuel error : ℕ) (parent : Async) (r : W) (w : World W) : Type ℓ where
    at : ℤ
    state : World W
    ends :
        run_next_phase platform (notify platform (suc fuel)) p 0 w
        ≡ finish platform (notify platform (suc fuel)) p error state
    pair :
        Pair platform p q apart (some (phases procedure at context q)) parent (after_phases r) state

  abbrev Outcome : ℕ → Async → W → World W → Option ℕ → Type ℓ
  Outcome fuel parent r w none = Unit
  Outcome fuel parent r w (some error) = Ending fuel error parent r w

  next_at : Step W → ℤ → ℤ
  next_at step at = get_next_phase (with_next_phase (multi_phase procedure at context) step.next)

  settle :
      (phase at : ℤ) (error : ℕ) (parent : Async) (r : W) (w : World W)
      → Pair platform p q apart (some (phases procedure at context q)) parent r w
      → (out : World W × ℕ) × (call_procedure platform p phase error w ≡ some out)
        × (out.1 ≡ (act phase error r).error)
        × Pair platform p q apart
            (some (phases procedure (next_at (act phase error r) at) context q))
            parent
            (act phase error r).after
            out.0
  unfolding next_at
  settle phase at error parent r w i =
      let (out, ran, (e, j)) =
        stepped platform p q apart procedure context act calm phase at error parent r w i in
      (
        out,
        ran,
        e,
        subst (λ c. Pair platform p q apart (some c) parent (act phase error r).after out.0)
            (with_phase platform p q apart procedure context act calm at (act phase error r).next)
            j,
      )

  first_phase-Outcome :
      (fuel : ℕ) (parent : Async) (r : W) (w : World W)
      → Pair platform p q apart (some (phases procedure (pos 0) context q)) parent r w
      → Outcome fuel parent r w (answer platform p q apart procedure context act calm r)
  unfolding run_next_phase run_error_phase next_at
  first_phase-Outcome fuel parent r w i =
      let first = act (pos 0) 0 r in
      let (out, ran, e, k) = settle (pos 0) (pos 0) 0 parent r w i in
      let at = next_at first (pos 0) in
      elim (Bool-cases (first.error == 0)) [
        | inl good ↦ elim (Bool-cases (==ℤ at phase_exit)) [
          | inl exit ↦
              rw (good, exit)
                (record {
                  at = at;
                  state = out.0;
                  ends = rw (i.here, ran) (rw (k.here, e) (rw (good, exit) refl));
                  pair = rw good k;
                })
          | inr on ↦ rw (good, on) tt
        ]
        | inr bad ↦
            (let (out', ran', e', k') =
                settle phase_error at first.error parent first.after out.0 k in
              rw bad (record {
                at = next_at (act phase_error first.error first.after) at;
                state = out'.0;
                ends = rw (i.here, ran) (rw (k.here, e) (rw (bad, ran') (rw e' refl)));
                pair = rw bad k';
              }))
      ]

  -- The state in which the first phase is run.
  started :
      (parent : Async) (w : World W)
      → IsValid w.timeouts
      → is_some (find_key parent.timeout (pending w.timeouts)) ≡ false
      → Pair platform p q apart
          (some (phases procedure (pos 0) context q))
          parent
          w.rest
          (write q parent (write p (phases procedure (pos 0) context q) w))
  started parent w v free = record {
    here = rw (p_not_q platform p q apart, ==_self p) refl;
    there = rw (==_self q) refl;
    rest_is = refl;
    valid = v;
    free = free;
  }

  call-run_next_phase :
      (address fuel : ℕ) (timeout ticks : ℤ) (n : ℕ) (canceled : Bool) (link : Option ℕ)
      (w : World W)
      → timeout ≤ℤ pos 0
      → w.asyncs q ≡ some (parent_at op n canceled false link)
      → call address platform fuel (some p) timeout procedure context (some q) ticks w
        ≡ run_next_phase platform (notify platform fuel) p 0 (
            write q
              (parent_at op n canceled false (some p))
              (write p (phases procedure (pos 0) context q) w))
  unfolding call setup set_child schedule_timeout
  call-run_next_phase address fuel timeout ticks n canceled link w t there =
      rw (q_not_p platform p q apart, there) (rw (no_timeout timeout t) refl)

  module _ (act' : ℕ → W → W)
      (calm' : (error : ℕ) (w : World W)
        → platform.completed op.completed error op.context w
          ≡ some (record w { rest = act' error w.rest })) where
    -- Take an operation with a completion procedure, not completed, with no timeout pending, with
    -- one holder, and let its completion procedure not touch the records and the table of
    -- timeouts, which is valid. Let the timeout not be positive, and let a procedure of several
    -- phases, at another address, not touch them either and end in its first phase, or in the
    -- error phase after it. Calling the procedure for the operation faults, with any fuel but
    -- none: the operation is completed and freed, and then its child writes to it.
    pub call_faults :
        (address fuel error : ℕ) (timeout ticks : ℤ) (canceled : Bool) (link : Option ℕ)
        (w : World W)
        → IsValid w.timeouts
        → timeout ≤ℤ pos 0
        → w.asyncs q ≡ some (parent_at op 0 canceled false link)
        → is_some (find_key op.key (pending w.timeouts)) ≡ false
        → answer platform p q apart procedure context act calm w.rest ≡ some error
        → call address platform (suc fuel) (some p) timeout procedure context (some q) ticks w
          ≡ none
    call_faults address fuel error timeout ticks canceled link w v t there free ans =
        let parent = parent_at op 0 canceled false (some p) in
        let e : Ending fuel error parent w.rest _ =
          subst (Outcome fuel parent w.rest _) ans
            (first_phase-Outcome fuel parent w.rest _ (started parent w v free)) in
        call-run_next_phase address (suc fuel) timeout ticks 0 canceled link w t there
        ∙ e.ends
        ∙ finish_faults platform p op apart act' calm' procedure context e.at false none fuel error
            canceled (after_phases w.rest) e.state e.pair

    -- Take an operation with a completion procedure, not completed, with no timeout pending, with
    -- n + 2 holders, and let its completion procedure not touch the records and the table of
    -- timeouts, which is valid. Let the timeout not be positive, and let a procedure of several
    -- phases, at another address, not touch them either and end in its first phase, or in the
    -- error phase after it. Calling the procedure for the operation never faults, with any fuel
    -- but none: the operation is completed once, with the error of the last phase, after the
    -- phases have acted; it keeps n + 1 holders and has no child, and the child is freed.
    pub call-Ended :
        (address fuel n error : ℕ) (timeout ticks : ℤ) (canceled : Bool) (link : Option ℕ)
        (w : World W)
        → IsValid w.timeouts
        → timeout ≤ℤ pos 0
        → w.asyncs q ≡ some (parent_at op (suc n) canceled false link)
        → is_some (find_key op.key (pending w.timeouts)) ≡ false
        → answer platform p q apart procedure context act calm w.rest ≡ some error
        → Returns
            (call address platform (suc fuel) (some p) timeout procedure context (some q) ticks w)
            (Ended platform p op apart act' calm' n canceled (act' error (after_phases w.rest)))
    call-Ended address fuel n error timeout ticks canceled link w v t there free ans =
        let parent = parent_at op (suc n) canceled false (some p) in
        let e : Ending fuel error parent w.rest _ =
          subst (Outcome fuel parent w.rest _) ans
            (first_phase-Outcome fuel parent w.rest _ (started parent w v free)) in
        rw (call-run_next_phase address (suc fuel) timeout ticks (suc n) canceled link w t there) (
          rw e.ends (
            finish-Ended platform p op apart act' calm' procedure context e.at false none fuel n
              error canceled (after_phases w.rest) e.state e.pair))
