-- ===== src/Async/Phases.antt =====
-- src/async.c: an operation of several phases that is called for one that waits.
pub mod Tests
use xrossfire.Base.{
  ℕ, zero, suc, ◌+◌, ◌≡◌, ◌≢◌, refl, sym, ap, subst, ◌∙◌, ◌⊎◌, inl, inr, Bool, true, false, Option,
  none, some, ◌==◌, ==_iff, ==_self, ltb, if◌then◌else◌, ◌>>=◌, Returns, Returns-bind, Bool-cases,
  arith,
}
use xrossfire.Base.Int.{ℤ, pos, ltb_ℤ, ◌≤ℤ◌, ==ℤ, ◌-ℤ◌}
use xrossfire.Avl.Sorted.{find_key}
use xrossfire.Timeout.{Timeouts, is_some}
use xrossfire.Timeout
use xrossfire.Timeout.Order.{Handle, handle_order}
use xrossfire.Timeout.Queue.{IsValid, pending}
use xrossfire.Async.{
  IoAsync, async, wait, multi_phase, Async, Body, World, update, write, set_child,
}
use xrossfire.Async.Notify.{
  Platform, release, cancel_timeout, notify, wait_notify, with_next_phase, get_next_phase,
  call_procedure, finish, run_error_phase, run_next_phase, phase_error, phase_exit,
}
use xrossfire.Async.Create.{cleared, setup, schedule_timeout, call, wait_result}
use xrossfire.Async.Counts.{here_after, cancelled, minus_one}
use xrossfire.Async.Pair.{
  waiting, no_timeout, phases, Pair, p_not_q, q_not_p, write_child, Done, finish-waiting,
}

-- What a procedure does in a phase: the rest of the program, its error and the next phase, if it
-- writes one.
pub record Step {ℓ} (W : Type ℓ) : Type ℓ where
  pub after : W
  pub error : ℕ
  pub next : Option ℤ

module _ {ℓ} {W : Type ℓ} (platform : Platform W) (p q : ℕ) (apart : p ≢ q) (procedure context : ℕ)
    (act : ℤ → ℕ → W → Step W)
    (calm : (phase : ℤ) (error : ℕ) (w : World W)
      → platform.procedure procedure p phase error context w
        ≡ some (
          record w { rest = (act phase error w.rest).after },
          (act phase error w.rest).error,
          (act phase error w.rest).next,
        )) where
  pub stepped :
      (phase at : ℤ) (error : ℕ) (parent : Async) (r : W) (w : World W)
      → Pair platform p q apart (some (phases procedure at context q)) parent r w
      → Returns (call_procedure platform p phase error w) λ out.
        (out.1 ≡ (act phase error r).error)
        × Pair platform p q apart
            (some (record (phases procedure at context q) {
              body = with_next_phase (multi_phase procedure at context) (act phase error r).next;
            }))
            parent
            (act phase error r).after
            out.0
  unfolding call_procedure
  stepped phase at error parent r w i =
      rw (i.here, calm phase error w)
        (rw (i.here, i.rest_is)
          (
            _,
            refl,
            (
              refl,
              write_child platform p q apart _ _ parent (act phase error r).after _ (record {
                here = i.here;
                there = i.there;
                rest_is = refl;
                valid = i.valid;
                free = i.free;
              }),
            ),
          ))

  -- What the waiting record is given after the first phase: nothing while the operation goes on.
  abbrev pub answer : W → Option ℕ
  answer r =
      let first = act (pos 0) 0 r in
      if first.error == 0
      then (if ==ℤ
            (get_next_phase (with_next_phase (multi_phase procedure (pos 0) context) first.next))
            phase_exit
          then some 0
          else none)
      else some (act phase_error first.error first.after).error

  Answers : Async → Option ℕ → World W → Type 0
  Answers parent none w = w.asyncs q ≡ some (waiting parent (some p) 0 0)
  Answers parent (some error) w = Done platform p q apart parent error w

  pub with_phase :
      (at : ℤ) (next : Option ℤ)
      → record (phases procedure at context q) {
        body = with_next_phase (multi_phase procedure at context) next;
      }
        ≡ phases procedure
            (get_next_phase (with_next_phase (multi_phase procedure at context) next))
            context
            q
  with_phase at none = refl
  with_phase at (some phase) = refl

  error_phase :
      (fuel error : ℕ) (at : ℤ) (parent : Async) (r : W) (w : World W)
      → Pair platform p q apart
          (some (phases procedure at context q))
          (waiting parent (some p) 0 0)
          r
          w
      → Returns
          (run_error_phase platform (notify platform (suc fuel)) p error w)
          (Done platform p q apart parent (act phase_error error r).error)
  unfolding run_error_phase
  error_phase fuel error at parent r w i =
      let (out, ran, (e, j)) = stepped phase_error at error (waiting parent (some p) 0 0) r w i in
      rw ran (
        rw e (
          finish-waiting platform p q apart fuel (act phase_error error r).error procedure context _
            parent _ out.0
            (subst
              (λ c.
                Pair platform p q apart (some c) (waiting parent (some p) 0 0)
                  (act phase_error error r).after out.0)
              (with_phase at (act phase_error error r).next) j)))

  first_phase :
      (fuel : ℕ) (parent : Async) (r : W) (w : World W)
      → Pair platform p q apart
          (some (phases procedure (pos 0) context q))
          (waiting parent (some p) 0 0)
          r
          w
      → Returns
          (run_next_phase platform (notify platform (suc fuel)) p 0 w)
          (Answers parent (answer r))
  unfolding run_next_phase Answers
  first_phase fuel parent r w i =
      let (out, ran, (e, j)) = stepped (pos 0) (pos 0) 0 (waiting parent (some p) 0 0) r w i in
      let first = act (pos 0) 0 r in
      let at =
        get_next_phase (with_next_phase (multi_phase procedure (pos 0) context) first.next) in
      let k =
        subst
          (λ c. Pair platform p q apart (some c) (waiting parent (some p) 0 0) first.after out.0)
          (with_phase (pos 0) first.next) j in
      rw (i.here, ran)
        (rw (k.here, e)
          (elim (Bool-cases (first.error == 0)) [
            | inr bad ↦ rw bad (error_phase fuel first.error at parent first.after out.0 k)
            | inl good ↦ rw good (elim (Bool-cases (==ℤ at phase_exit)) [
              | inl exit ↦ rw exit (
                  finish-waiting platform p q apart fuel 0 procedure context at parent first.after
                    out.0 k)
              | inr on ↦ rw on (out.0, refl, k.there)
            ])
          ]))

  waited :
      (parent : Async) (a : Option ℕ) (w : World W) → Answers parent a w → wait_result q w ≡ some a
  unfolding Answers wait_result
  waited parent none w h = rw h refl
  waited parent (some error) w h = rw h.1 refl

  -- Let a record wait at another address than the new one, with no timeout pending, let the table
  -- of timeouts be valid, let the timeout not be positive, and let a procedure of several phases
  -- not touch the records and the table. Calling the procedure for the waiting record never
  -- faults, with any fuel but none. After the first phase, the wait returns 0 if the phase ends
  -- without error in the exit phase; it returns the error of the error phase, which is run with
  -- the error of the first phase, if that has one; and otherwise it goes on.
  pub call-answer :
      (async_timeout_address fuel : ℕ) (timeout ticks : ℤ) (parent : Async) (link : Option ℕ)
      (w : World W)
      → IsValid w.timeouts
      → timeout ≤ℤ pos 0
      → w.asyncs q ≡ some (waiting parent link 0 0)
      → is_some (find_key parent.timeout (pending w.timeouts)) ≡ false
      → Returns
          (call async_timeout_address platform
            (suc fuel)
            (some p)
            timeout
            procedure
            context
            (some q)
            ticks
            w)
          λ w'. wait_result q w' ≡ some (answer w.rest)
  unfolding call setup set_child schedule_timeout
  call-answer async_timeout_address fuel timeout ticks parent link w v t there free =
      rw (q_not_p platform p q apart, there)
        (rw (no_timeout timeout t) (
          let (out, ran, ans) = first_phase fuel parent w.rest _ started in
          (out, ran, waited parent (answer w.rest) out ans)))
    where
      started :
          Pair platform p q apart
            (some (phases procedure (pos 0) context q))
            (waiting parent (some p) 0 0)
            w.rest
            (write q (waiting parent (some p) 0 0) (write p (phases procedure (pos 0) context q) w))
      started = record {
        here = rw (p_not_q platform p q apart, ==_self p) refl;
        there = rw (==_self q) refl;
        rest_is = refl;
        valid = v;
        free = free;
      }
