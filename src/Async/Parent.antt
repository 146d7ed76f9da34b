-- ===== src/Async/Parent.antt =====
-- src/async.c: an operation of several phases whose parent has a completion procedure: how it ends.
use xrossfire.Base.{
  ℕ, zero, suc, ◌≡◌, ◌≢◌, refl, ap, ◌∙◌, Bool, true, false, Option, none, some, ◌==◌, ==_self,
  Returns,
}
use xrossfire.Base.Int.{ℤ, pos}
use xrossfire.Timeout.Order.{Handle, handle_order}
use xrossfire.Timeout.Queue.{IsValid}
use xrossfire.Async.{Async, World, set_child}
use xrossfire.Async.Notify.{Platform, release, cancel_timeout, async_notify, notify, finish}
use xrossfire.Async.Counts.{Operation, no_io, record_at, settled, cancelled, minus_one, above_zero}
use xrossfire.Async.Pair.{phases, Pair, p_not_q, q_not_p}

-- The parent: an operation with n + 1 holders, and its child.
abbrev pub parent_at : Operation → ℕ → Bool → Bool → Option ℕ → Async
parent_at op n canceled called child = record (record_at op n canceled called) {
  child_async = child;
}

-- What is left of it: nothing without holders.
abbrev pub left_of : Operation → ℕ → Bool → Option ℕ → Option Async
left_of op zero canceled child = none
left_of op (suc n) canceled child = some (parent_at op n canceled true child)

module _ {ℓ} {W : Type ℓ} (platform : Platform W) (p : ℕ) (op : Operation) (apart : p ≢ op.address)
    (act : ℕ → W → W)
    (calm : (error : ℕ) (w : World W)
      → platform.completed op.completed error op.context w
        ≡ some (record w { rest = act error w.rest })) where
  -- The child and all others are as they were, and the parent is completed, with n holders.
  record Completed (child : Async) (n : ℕ) (canceled : Bool) (r : W) (before w : World W)
      : Type ℓ where
    here : w.asyncs p ≡ some child
    there : w.asyncs op.address ≡ left_of op n canceled (some p)
    rest_is : w.rest ≡ settled platform op.io n r
    valid : IsValid w.timeouts
    others : (k : ℕ) → (k == op.address) ≡ false → w.asyncs k ≡ before.asyncs k

  complete :
      (n : ℕ) (canceled : Bool) (child : Async) (r : W) (w : World W)
      → Pair platform p op.address apart (some child) (parent_at op n canceled true (some p)) r w
      → Returns (release platform (some op.address) w) (Completed child n canceled r w)
  unfolding release set_child
  complete zero canceled child r w i =
      let (out, ran, (valid, gone, found)) = cancelled platform op.key w.timeouts i.valid in
      rw (i.there, minus_one 0, ran)
        (
          _,
          refl,
          record {
            here = rw (p_not_q platform p op.address apart) i.here;
            there = rw (==_self op.address) refl;
            rest_is = ap (platform.clear_io op.io) i.rest_is;
            valid = valid;
            others = λ k e. rw e refl;
          },
        )
  complete (suc n) canceled child r w i = rw i.there (
      rw (minus_one (suc n)) (
        rw (above_zero n) (
          _,
          refl,
          record {
            here = rw (p_not_q platform p op.address apart) i.here;
            there = rw (==_self op.address) refl;
            rest_is = i.rest_is;
            valid = i.valid;
            others = λ k e. rw e refl;
          },
        )))

  -- What was so before a step that touches the parent alone is so before the next one.
  since :
      {n : ℕ} {canceled : Bool} {child : Async} {r : W} {w : World W} {m : Option (World W)}
      (before : World W)
      → Returns m (Completed child n canceled r w)
      → ((k : ℕ) → (k == op.address) ≡ false → w.asyncs k ≡ before.asyncs k)
      → Returns m (Completed child n canceled r before)
  since before (w', ran, j) same = (
    w',
    ran,
    record {
      here = j.here;
      there = j.there;
      rest_is = j.rest_is;
      valid = j.valid;
      others = λ k e. j.others k e ∙ same k e;
    },
  )

  notify-parent :
      (fuel n error : ℕ) (canceled : Bool) (child : Async) (r : W) (w : World W)
      → Pair platform p op.address apart (some child) (parent_at op n canceled false (some p)) r w
      → Returns
          (notify platform (suc fuel) op.address error w)
          (Completed child n canceled (act error r) w)
  unfolding notify cancel_timeout async_notify
  notify-parent fuel n error canceled child r w i =
      let (out, ran, (valid, gone, found)) = cancelled platform op.key w.timeouts i.valid in
      rw (i.there, ran)
        (rw (found ∙ i.free) (
          rw i.there (
            rw (calm error _) (
              since w
                (complete n canceled child (act error r) _ (record {
                  here = rw (p_not_q platform p op.address apart) i.here;
                  there = rw (==_self op.address) refl;
                  rest_is = ap (act error) i.rest_is;
                  valid = valid;
                  free = gone;
                }))
                (λ k e. rw e refl)))))

  -- The child is freed, and the parent, completed, has n + 1 holders and no child.
  pub record Ended (n : ℕ) (canceled : Bool) (r : W) (w : World W) : Type ℓ where
    pub freed : w.asyncs p ≡ none
    pub completed_is : w.asyncs op.address ≡ some (parent_at op n canceled true none)
    pub rest_is : w.rest ≡ platform.clear_io no_io r
    pub valid : IsValid w.timeouts

  -- And the others are as they were.
  pub record Finished (n : ℕ) (canceled : Bool) (r : W) (before w : World W) : Type ℓ where
    pub ended : Ended n canceled r w
    pub others :
        (k : ℕ) → (k == p) ≡ false → (k == op.address) ≡ false → w.asyncs k ≡ before.asyncs k

  module _ (procedure context : ℕ) (phase : ℤ) (gone : Bool) (link : Option ℕ) where
    abbrev child_at : Async
    child_at = record (phases procedure phase context op.address) {
      canceled = gone;
      child_async = link;
    }

    -- Without another holder the parent is freed before the child lets go of it.
    pub finish_faults :
        (fuel error : ℕ) (canceled : Bool) (r : W) (w : World W)
        → Pair platform p op.address apart
            (some child_at)
            (parent_at op 0 canceled false (some p))
            r
            w
        → finish platform (notify platform (suc fuel)) p error w ≡ none
    unfolding finish release set_child
    finish_faults fuel error canceled r w i =
        let (w', ran, j) = notify-parent fuel 0 error canceled child_at r w i in
        let none_key : Handle = record { id = 0; timestamp = pos 0 } in
        let (out, ran', free) = cancelled platform none_key w'.timeouts j.valid in
        rw (i.here, ran)
          (rw (j.here, minus_one 0, ran') (rw (q_not_p platform p op.address apart, j.there) refl))

    pub finish-Finished :
        (fuel n error : ℕ) (canceled : Bool) (r : W) (w : World W)
        → Pair platform p op.address apart
            (some child_at)
            (parent_at op (suc n) canceled false (some p))
            r
            w
        → Returns
            (finish platform (notify platform (suc fuel)) p error w)
            (Finished n canceled (act error r) w)
    unfolding finish release set_child
    finish-Finished fuel n error canceled r w i =
        let (w', ran, j) = notify-parent fuel (suc n) error canceled child_at r w i in
        let none_key : Handle = record { id = 0; timestamp = pos 0 } in
        let (out, ran', (valid, free, found)) = cancelled platform none_key w'.timeouts j.valid in
        rw (i.here, ran)
          (rw (j.here, minus_one 0, ran')
            (rw (q_not_p platform p op.address apart, j.there)
              (
                _,
                refl,
                record {
                  ended = record {
                    freed = rw (==_self p) refl;
                    completed_is =
                        rw (q_not_p platform p op.address apart, ==_self op.address) refl;
                    rest_is = ap (platform.clear_io no_io) j.rest_is;
                    valid = valid;
                  };
                  others = λ k e e'. rw (e, e') (j.others k e');
                },
              )))

    pub finish-Ended :
        (fuel n error : ℕ) (canceled : Bool) (r : W) (w : World W)
        → Pair platform p op.address apart
            (some child_at)
            (parent_at op (suc n) canceled false (some p))
            r
            w
        → Returns
            (finish platform (notify platform (suc fuel)) p error w)
            (Ended n canceled (act error r))
    finish-Ended fuel n error canceled r w i =
        let (w', ran, f) = finish-Finished fuel n error canceled r w i in (w', ran, f.ended)
