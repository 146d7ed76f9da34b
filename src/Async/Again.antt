-- ===== src/Async/Again.antt =====
-- src/async.c: a cancellation and a timeout of an operation that is completed already.
use xrossfire.Base.{
  ℕ, suc, ◌≡◌, Bool, true, false, none, some, if◌then◌else◌, Returns, Returns-bind,
}
use xrossfire.Timeout.Order.{handle_order}
use xrossfire.Async.{World}
use xrossfire.Async.Notify.{Platform, cancel_timeout, cancel_, cancel, async_timeout, error_cancel}
use xrossfire.Async.Counts.{
  Operation, stored, Holds, here_after, cancel_timeout-Holds, release_unarmed,
}
use xrossfire.Async.Once.{notify_again, cancel_-notify}

module _ {ℓ} {W : Type ℓ} (platform : Platform W) (op : Operation) (act : ℕ → W → W)
    (calm : (error : ℕ) (w : World W)
      → platform.completed op.completed error op.context w
        ≡ some (record w { rest = act error w.rest })) where
  -- It is marked, and nothing else happens.
  cancel_-again :
      (fuel n : ℕ) (canceled : Bool) (r : W) (w : World W)
      → op.io.handle ≡ none
      → Holds platform op (suc n) false canceled true r w
      → Returns
          (cancel_ platform (suc (suc fuel)) op.address w)
          (Holds platform op (suc n) false true true r)
  cancel_-again fuel n canceled r w no_io h =
      rw (cancel_-notify platform op act calm fuel n canceled true w h.here no_io) (
        notify_again platform op act calm fuel n error_cancel false true r _ (record {
          here = here_after platform op.address (stored op (suc n) true true) w.asyncs;
          rest_is = h.rest_is;
          valid = h.valid;
          armed_is = h.armed_is;
        }))

  pub cancel_again :
      (fuel n : ℕ) (armed canceled : Bool) (r : W) (w : World W)
      → op.io.handle ≡ none
      → Holds platform op (suc (if armed then suc n else n)) armed canceled true r w
      → Returns
          (cancel platform (suc (suc fuel)) op.address w)
          (Holds platform op (suc n) false true true r)
  unfolding cancel
  cancel_again fuel n armed canceled r w no_io h =
      Returns-bind (Holds platform op (suc n) false true true r)
        (cancel_timeout platform op.address w) _
        (cancel_timeout-Holds platform op n armed canceled true r w h)
        λ w' h'. cancel_-again fuel n canceled r w' no_io h'

  pub async_timeout_again :
      (fuel n : ℕ) (canceled : Bool) (r : W) (w : World W)
      → op.io.handle ≡ none
      → Holds platform op (suc n) false canceled true r w
      → Returns
          (async_timeout platform (suc (suc fuel)) op.address w)
          (Holds platform op n false true true r)
  unfolding async_timeout
  async_timeout_again fuel n canceled r w no_io h =
      Returns-bind (Holds platform op n false true true r)
        (cancel_ platform (suc (suc fuel)) op.address w) _
        (cancel_-again fuel n canceled r w no_io h)
        λ w' h'. release_unarmed platform op n true true r w' h'
