-- ===== src/Async/Linked.antt =====
-- src/async.c: an operation of several phases without a timeout, its parent, and its error phase.
use xrossfire.Base.{
  ℕ, suc, ◌≡◌, ◌≢◌, refl, ap, ◌∙◌, Bool, true, false, Option, none, some, List, [], ◌∷◌, arith,
  ◌==◌, ==_self, Returns,
}
use xrossfire.Base.Int.{ℤ, pos}
use xrossfire.Avl.Sorted.{find_key, erase_key}
use xrossfire.Timeout.{Timeout, Timeouts, is_some}
use xrossfire.Timeout
use xrossfire.Timeout.Order.{Handle, handle_order}
use xrossfire.Timeout.Queue.{IsValid, pending, cancel-Cancels}
use xrossfire.Async.{Async, multi_phase, World, write}
use xrossfire.Async.Notify.{
  Platform, cancel_timeout, call_procedure, finish, run_error_phase, run_next_phase, notify,
  phase_error, with_next_phase,
}
use xrossfire.Async.Counts.{Operation}
use xrossfire.Async.Pair.{phases, Pair, p_not_q, write_child}
use xrossfire.Async.Phases.{Step}

abbrev pub no_key : Handle
no_key = record { id = 0; timestamp = pos 0 }

is_none : (o : Option Timeout) → is_some o ≡ false → o ≡ none
is_none none h = refl
is_none (some x) h = cc

erase_key-absent :
    (key : Handle) (es : List Timeout) → find_key key es ≡ none → erase_key key es ≡ es
unfolding find_key erase_key
erase_key-absent key [] h = refl
erase_key-absent key (e ∷ es) h = ground (arith, erase_key-absent key es)

-- Cancelling a handle that is not pending changes nothing.
pub cancel-absent :
    (s : Timeouts) (key : Handle)
    → IsValid s
    → is_some (find_key key (pending s)) ≡ false
    → Returns
        (Timeout.cancel s key)
        λ out. IsValid out.0 × (pending out.0 ≡ pending s) × (out.1 ≡ false)
cancel-absent s key v absent =
    let (out, ran, i) = cancel-Cancels s key v in
    (
      out,
      ran,
      (
        i.valid,
        i.contents ∙ erase_key-absent key (pending s) (is_none (find_key key (pending s)) absent),
        i.result ∙ absent,
      ),
    )

module _ {ℓ} {W : Type ℓ} (platform : Platform W) (p : ℕ) (op : Operation) (apart : p ≢ op.address)
    (procedure context : ℕ) (act : ℤ → ℕ → W → Step W)
    (calm : (phase : ℤ) (error : ℕ) (w : World W)
      → platform.procedure procedure p phase error context w
        ≡ some (
          record w { rest = (act phase error w.rest).after },
          (act phase error w.rest).error,
          (act phase error w.rest).next,
        ))
    (link : Option ℕ) where
  abbrev pub child : ℤ → Bool → Async
  child phase gone = record (phases procedure phase context op.address) {
    canceled = gone;
    child_async = link;
  }

  -- A child without a timeout, and its parent.
  abbrev pub Linked : ℤ → Bool → Async → W → World W → Type ℓ
  Linked phase gone parent r w =
      Pair platform p op.address apart (some (child phase gone)) parent r w
      × (is_some (find_key no_key (pending w.timeouts)) ≡ false)

  linked :
      (phase : ℤ) (gone : Bool) (parent : Async) (r : W) (w : World W) (timeouts : Timeouts)
      → Linked phase gone parent r w
      → IsValid timeouts
      → pending timeouts ≡ pending w.timeouts
      → Linked phase gone parent r (record w { timeouts = timeouts })
  linked phase gone parent r w timeouts (i, absent) valid same = (
    record {
      here = i.here;
      there = i.there;
      rest_is = i.rest_is;
      valid = valid;
      free = ap (λ es. is_some (find_key parent.timeout es)) same ∙ i.free;
    },
    ap (λ es. is_some (find_key no_key es)) same ∙ absent,
  )

  -- Neither has a timeout to cancel.
  pub child_timeout-Linked :
      (phase : ℤ) (gone : Bool) (parent : Async) (r : W) (w : World W)
      → Linked phase gone parent r w
      → Returns
          (cancel_timeout platform p w)
          (λ w'. Linked phase gone parent r w' × (w'.asyncs ≡ w.asyncs))
  unfolding cancel_timeout
  child_timeout-Linked phase gone parent r w (i, absent) =
      let (out, ran, (valid, same, found)) = cancel-absent w.timeouts no_key i.valid absent in
      rw (i.here, ran)
        (rw found (_, refl, (linked phase gone parent r w out.0 (i, absent) valid same, refl)))

  pub parent_timeout-Linked :
      (phase : ℤ) (gone : Bool) (parent : Async) (r : W) (w : World W)
      → Linked phase gone parent r w
      → Returns (cancel_timeout platform op.address w) (Linked phase gone parent r)
  unfolding cancel_timeout
  parent_timeout-Linked phase gone parent r w (i, absent) =
      let (out, ran, (valid, same, found)) =
        cancel-absent w.timeouts parent.timeout i.valid i.free in
      rw (i.there, ran)
        (rw found (_, refl, linked phase gone parent r w out.0 (i, absent) valid same))

  pub write_parent :
      (phase : ℤ) (gone : Bool) (parent parent' : Async) (r : W) (w : World W)
      → parent'.timeout ≡ parent.timeout
      → Linked phase gone parent r w
      → Linked phase gone parent' r (write op.address parent' w)
  write_parent phase gone parent parent' r w same (i, absent) = (
    record {
      here = rw (p_not_q platform p op.address apart) i.here;
      there = rw (==_self op.address) refl;
      rest_is = i.rest_is;
      valid = i.valid;
      free = ap (λ key. is_some (find_key key (pending w.timeouts))) same ∙ i.free;
    },
    absent,
  )

  pub write_gone :
      (phase : ℤ) (gone : Bool) (parent : Async) (r : W) (w : World W)
      → Linked phase gone parent r w
      → Linked phase true parent r (write p (child phase true) w)
  write_gone phase gone parent r w (i, absent) = (
    write_child platform p op.address apart (some (child phase gone)) (child phase true) parent r w
        i,
    absent,
  )

  with_next :
      (phase : ℤ) (next : Option ℤ)
      → (phase' : ℤ) × (with_next_phase (multi_phase procedure phase context) next
          ≡ multi_phase procedure phase' context)
  with_next phase none = (phase, refl)
  with_next phase (some phase') = (phase', refl)

  -- The child is about to end with the error of its error phase, which is run with `error`; the
  -- other records are as they were.
  pub record Ending (fuel error : ℕ) (parent : Async) (r : W) (kept : ℕ → Option Async)
      (o : Option (World W)) : Type ℓ where
    pub phase : ℤ
    pub gone : Bool
    pub state : World W
    pub ends :
        o ≡ finish platform (notify platform (suc fuel)) p (act phase_error error r).error state
    pub others : (k : ℕ) → (k == p) ≡ false → state.asyncs k ≡ kept k
    pub pair :
        Pair platform p op.address apart
          (some (child phase gone))
          parent
          (act phase_error error r).after
          state

  pub error_phase-Ending :
      (fuel error : ℕ) (phase : ℤ) (gone : Bool) (parent : Async) (r : W) (w : World W)
      → (error == 0) ≡ false
      → Linked phase gone parent r w
      → Ending fuel error parent r w.asyncs
          (run_next_phase platform (notify platform (suc fuel)) p error w)
  unfolding run_next_phase run_error_phase call_procedure
  error_phase-Ending fuel error phase gone parent r w fails (i, absent) =
      let step = act phase_error error r in
      let (phase', e) = with_next phase step.next in
      let w' : World W = record w { rest = step.after } in
      record {
        phase = phase';
        gone = gone;
        state = write p (child phase' gone) w';
        ends =
            rw fails (rw (i.here, calm phase_error error w) (rw (i.here, i.rest_is) (rw e refl)));
        others = λ k d. rw d refl;
        pair =
            write_child platform p op.address apart (some (child phase gone)) (child phase' gone)
              parent step.after w'
              (record {
                here = i.here;
                there = i.there;
                rest_is = refl;
                valid = i.valid;
                free = i.free;
              });
      }
