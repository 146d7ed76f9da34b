-- ===== src/Async/Cancelled.antt =====
-- src/async.c: a cancellation that goes down to a child of several phases, and comes back.
pub mod Tests
use xrossfire.Base.{
  ℕ, suc, ◌≡◌, ◌≢◌, refl, ◌∙◌, Bool, true, false, Option, none, some, ◌>>=◌, Returns,
}
use xrossfire.Base.Int.{ℤ}
use xrossfire.Async.{Async, World, write}
use xrossfire.Async.Notify.{
  Platform, error_cancel, run_next_phase, notify, cancel_, cancel, phase_error,
}
use xrossfire.Async.Counts.{Operation}
use xrossfire.Async.Phases.{Step}
use xrossfire.Async.Parent.{parent_at, Ended, finish_faults, finish-Ended}
use xrossfire.Async.Linked.{
  child, Linked, child_timeout-Linked, parent_timeout-Linked, write_parent, write_gone, Ending,
  error_phase-Ending,
}

module _ {ℓ} {W : Type ℓ} (platform : Platform W) (p : ℕ) (op : Operation) (apart : p ≢ op.address)
    (procedure context : ℕ) (act : ℤ → ℕ → W → Step W)
    (calm : (phase : ℤ) (error : ℕ) (w : World W)
      → platform.procedure procedure p phase error context w
        ≡ some (
          record w { rest = (act phase error w.rest).after },
          (act phase error w.rest).error,
          (act phase error w.rest).next,
        )) where
  -- The child has no child of its own.
  abbrev pub Leaf : ℤ → Bool → Async → W → World W → Type ℓ
  Leaf = Linked platform p op apart procedure context act calm none

  abbrev Stops : ℕ → Async → W → Option (World W) → Type ℓ
  Stops fuel parent r o =
      (kept : ℕ → Option Async) × Ending platform p op apart procedure context act calm none fuel
        error_cancel parent r kept o

  -- The cancellation at the child.
  child-Ending :
      (fuel : ℕ) (phase : ℤ) (gone : Bool) (parent : Async) (r : W) (w : World W)
      → Leaf phase gone parent r w
      → Stops fuel parent r (cancel_ platform (suc (suc (suc fuel))) p w)
  unfolding cancel_ notify
  child-Ending fuel phase gone parent r w h =
      let (w', ran, (h', same)) =
        child_timeout-Linked platform p op apart procedure context act calm none phase true parent r
          (write p (child platform p op apart procedure context act calm none phase true) w)
          (write_gone platform p op apart procedure context act calm none phase gone parent r w
            h) in
      let e =
        error_phase-Ending platform p op apart procedure context act calm none fuel error_cancel
          phase true parent r w' refl h' in
      (
        w'.asyncs,
        record {
          phase = e.phase;
          gone = e.gone;
          state = e.state;
          ends = rw (h.0.here, ran) (rw h'.0.here e.ends);
          others = e.others;
          pair = e.pair;
        },
      )

  cancel-Ending :
      (fuel n : ℕ) (phase : ℤ) (canceled gone : Bool) (r : W) (w : World W)
      → Leaf phase gone (parent_at op n canceled false (some p)) r w
      → Stops fuel
          (parent_at op n true false (some p))
          r
          (cancel platform (suc (suc (suc (suc fuel)))) op.address w)
  unfolding cancel cancel_
  cancel-Ending fuel n phase canceled gone r w h =
      let before = parent_at op n canceled false (some p) in
      let after = parent_at op n true false (some p) in
      let (w', ran, h') =
        parent_timeout-Linked platform p op apart procedure context act calm none phase gone before
          r w h in
      let marked =
        write_parent platform p op apart procedure context act calm none phase gone before after r
          w' refl h' in
      let (w'', ran', (h'', same)) =
        child_timeout-Linked platform p op apart procedure context act calm none phase gone after r
          (write op.address after w') marked in
      let (kept, e) = child-Ending fuel phase gone after r w'' h'' in
      (
        kept,
        record {
          phase = e.phase;
          gone = e.gone;
          state = e.state;
          ends = rw (ran, h'.0.there) (rw ran' e.ends);
          others = e.others;
          pair = e.pair;
        },
      )

  module _ (act' : ℕ → W → W)
      (calm' : (error : ℕ) (w : World W)
        → platform.completed op.completed error op.context w
          ≡ some (record w { rest = act' error w.rest })) where
    -- Take an operation with a completion procedure, not completed, with n + 2 holders, and its
    -- child, of several phases, without a child or I/O and with one holder. Let neither have a
    -- timeout pending, and let the completion procedure and the procedure of the child not touch
    -- the records and the table of timeouts, which is valid. A cancellation of the operation
    -- never faults, with fuel for four steps: the error phase of the child is run with
    -- XF_ERROR_CANCEL, the operation is marked and completed once, with the error of that phase,
    -- and keeps n + 1 holders and no child, and the child is freed.
    pub cancel-Ended :
        (fuel n : ℕ) (phase : ℤ) (canceled gone : Bool) (r : W) (w : World W)
        → Leaf phase gone (parent_at op (suc n) canceled false (some p)) r w
        → let step = act phase_error error_cancel r in
          Returns
            (cancel platform (suc (suc (suc (suc fuel)))) op.address w)
            (Ended platform p op apart act' calm' n true (act' step.error step.after))
    cancel-Ended fuel n phase canceled gone r w h =
        let step = act phase_error error_cancel r in
        let (kept, e) = cancel-Ending fuel (suc n) phase canceled gone r w h in
        rw e.ends (
          finish-Ended platform p op apart act' calm' procedure context e.phase e.gone none fuel n
            step.error true step.after e.state e.pair)

    pub cancel_faults :
        (fuel : ℕ) (phase : ℤ) (canceled gone : Bool) (r : W) (w : World W)
        → Leaf phase gone (parent_at op 0 canceled false (some p)) r w
        → cancel platform (suc (suc (suc (suc fuel)))) op.address w ≡ none
    cancel_faults fuel phase canceled gone r w h =
        let step = act phase_error error_cancel r in
        let (kept, e) = cancel-Ending fuel 0 phase canceled gone r w h in
        e.ends
        ∙ finish_faults platform p op apart act' calm' procedure context e.phase e.gone none fuel
            step.error true step.after e.state e.pair
