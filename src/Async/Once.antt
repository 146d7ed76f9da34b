-- ===== src/Async/Once.antt =====
-- src/async.c: a notification, a cancellation and a timeout of one operation.
use xrossfire.Base.{
  ℕ, suc, ◌≡◌, refl, ap, Bool, true, false, none, some, if◌then◌else◌, Returns, Returns-bind,
}
use xrossfire.Timeout.Order.{handle_order}
use xrossfire.Async.{World, write}
use xrossfire.Async.Notify.{
  Platform, cancel_timeout, async_notify, notify, cancel_, cancel, async_timeout, error_cancel,
}
use xrossfire.Async.Counts.{
  Operation, record_at, stored, Holds, here_after, cancel_timeout-Holds, release_unarmed,
}

module _ {ℓ} {W : Type ℓ} (platform : Platform W) (op : Operation) (act : ℕ → W → W)
    (calm : (error : ℕ) (w : World W)
      → platform.completed op.completed error op.context w
        ≡ some (record w { rest = act error w.rest })) where
  complete :
      (n error : ℕ) (canceled : Bool) (r : W) (w : World W)
      → Holds platform op (suc n) false canceled false r w
      → Returns
          (async_notify platform op.address error
            (record_at op n canceled false)
            false
            op.completed
            op.context
            w)
          (Holds platform op n false canceled true (act error r))
  unfolding async_notify
  complete n error canceled r w h =
      rw (calm error (write op.address (record_at op n canceled true) w)) (
        release_unarmed platform op n canceled true (act error r) _ (record {
          here = here_after platform op.address (stored op (suc n) canceled true) w.asyncs;
          rest_is = ap (act error) h.rest_is;
          valid = h.valid;
          armed_is = h.armed_is;
        }))

  -- Take an operation with a completion procedure, without parent, child or I/O, that is not
  -- completed and has n + 1 holders, and one more while its timeout is pending; let its
  -- completion procedure not touch the records and the table of timeouts. A notification never
  -- faults, with any fuel but none: it calls the completion procedure once, with its error, its
  -- timeout is not pending any more, n holders are left, and without holders the record is freed.
  pub notify_completes :
      (fuel n error : ℕ) (armed canceled : Bool) (r : W) (w : World W)
      → Holds platform op (suc (if armed then suc n else n)) armed canceled false r w
      → Returns
          (notify platform (suc fuel) op.address error w)
          (Holds platform op n false canceled true (act error r))
  unfolding notify
  notify_completes fuel n error armed canceled r w h =
      Returns-bind (Holds platform op n false canceled true (act error r))
        (cancel_timeout platform op.address w) _
        (cancel_timeout-Holds platform op n armed canceled false r w h)
        λ w' h'. rw h'.here (complete n error canceled r w' h')

  -- Take an operation with a completion procedure, without parent, child or I/O, that is
  -- completed already and has n + 1 holders, and one more while its timeout is pending; let its
  -- completion procedure not touch the records and the table of timeouts. A further notification
  -- never faults, with any fuel but none, and does not call the completion procedure: its timeout
  -- is not pending any more, and n + 1 holders are left.
  pub notify_again :
      (fuel n error : ℕ) (armed canceled : Bool) (r : W) (w : World W)
      → Holds platform op (suc (if armed then suc n else n)) armed canceled true r w
      → Returns
          (notify platform (suc fuel) op.address error w)
          (Holds platform op (suc n) false canceled true r)
  unfolding notify async_notify
  notify_again fuel n error armed canceled r w h =
      Returns-bind (Holds platform op (suc n) false canceled true r)
        (cancel_timeout platform op.address w) _
        (cancel_timeout-Holds platform op n armed canceled true r w h)
        λ w' h'. rw h'.here (w', refl, h')

  pub cancel_-notify :
      (fuel n : ℕ) (canceled called : Bool) (w : World W)
      → w.asyncs op.address ≡ some (record_at op n canceled called)
      → op.io.handle ≡ none
      → cancel_ platform (suc (suc fuel)) op.address w
        ≡ notify platform
            (suc fuel)
            op.address
            error_cancel
            (write op.address (record_at op n true called) w)
  unfolding cancel_
  cancel_-notify fuel n canceled called w here no_io = rw here (simp no_io refl)

  pub cancel_-Holds :
      (fuel n : ℕ) (canceled : Bool) (r : W) (w : World W)
      → op.io.handle ≡ none
      → Holds platform op (suc n) false canceled false r w
      → Returns
          (cancel_ platform (suc (suc fuel)) op.address w)
          (Holds platform op n false true true (act error_cancel r))
  cancel_-Holds fuel n canceled r w no_io h =
      rw (cancel_-notify fuel n canceled false w h.here no_io) (
        notify_completes fuel n error_cancel false true r _ (record {
          here = here_after platform op.address (stored op (suc n) true false) w.asyncs;
          rest_is = h.rest_is;
          valid = h.valid;
          armed_is = h.armed_is;
        }))

  -- Take an operation with a completion procedure, without parent, child or I/O, that is not
  -- completed, with n + 1 holders and one more while its timeout is pending, and let its
  -- completion procedure not touch the records and the table. A cancellation never faults, with
  -- fuel for two steps: the operation is marked, the completion procedure is called once with
  -- XF_ERROR_CANCEL, its timeout is not pending any more, and n holders are left, the record
  -- being freed without any.
  pub cancel_completes :
      (fuel n : ℕ) (armed canceled : Bool) (r : W) (w : World W)
      → op.io.handle ≡ none
      → Holds platform op (suc (if armed then suc n else n)) armed canceled false r w
      → Returns
          (cancel platform (suc (suc fuel)) op.address w)
          (Holds platform op n false true true (act error_cancel r))
  unfolding cancel
  cancel_completes fuel n armed canceled r w no_io h =
      Returns-bind (Holds platform op n false true true (act error_cancel r))
        (cancel_timeout platform op.address w) _
        (cancel_timeout-Holds platform op n armed canceled false r w h)
        λ w' h'. cancel_-Holds fuel n canceled r w' no_io h'

  -- Take an operation with a completion procedure, without parent, child or I/O, that is not
  -- completed, with n + 2 holders, whose timeout has just been taken out of the table, and let
  -- its completion procedure not touch the records and the table. The timeout never faults, with
  -- fuel for two steps: the operation is marked, the completion procedure is called once with
  -- XF_ERROR_CANCEL, and n holders are left, the record being freed without any.
  pub async_timeout_completes :
      (fuel n : ℕ) (canceled : Bool) (r : W) (w : World W)
      → op.io.handle ≡ none
      → Holds platform op (suc (suc n)) false canceled false r w
      → Returns
          (async_timeout platform (suc (suc fuel)) op.address w)
          (Holds platform op n false true true (act error_cancel r))
  unfolding async_timeout
  async_timeout_completes fuel n canceled r w no_io h =
      Returns-bind (Holds platform op n false true true (act error_cancel r))
        (cancel_ platform (suc (suc fuel)) op.address w) _
        (cancel_-Holds fuel (suc n) canceled r w no_io h)
        λ w' h'. release_unarmed platform op n true true (act error_cancel r) w' h'
