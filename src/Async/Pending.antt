-- ===== src/Async/Pending.antt =====
-- src/async.c: a cancellation while the operating system works on the operation.
use xrossfire.Base.{
  ℕ, suc, ◌≡◌, refl, ap, ◌∙◌, Bool, true, false, none, some, if◌then◌else◌, Returns, Returns-bind,
}
use xrossfire.Async.{World, write}
use xrossfire.Async.Notify.{Platform, cancel_timeout, cancel_io_async, cancel_, cancel}
use xrossfire.Async.Counts.{Operation, record_at, stored, Holds, here_after, cancel_timeout-Holds}

-- The operation, after `xf_io_async_cancel` has cancelled its I/O.
abbrev pub detached : Operation → Operation
detached op = record op { io = record op.io { handle = none } }

module _ {ℓ} {W : Type ℓ} (platform : Platform W) (op : Operation) where
  cancel_-detached :
      (fuel n k : ℕ) (canceled called : Bool) (r' : W) (w : World W)
      → w.asyncs op.address ≡ some (record_at op n canceled called)
      → op.io.handle ≡ some k
      → platform.cancel_io k w.rest ≡ (true, r')
      → cancel_ platform (suc fuel) op.address w
        ≡ some (
            write op.address
              (record_at (detached op) n true called)
              (record (write op.address (record_at op n true called) w) { rest = r' }))
  unfolding cancel_ cancel_io_async
  cancel_-detached fuel n k canceled called r' w here pending answer =
      rw here (simp (pending, answer) refl)

  cancel_-detaches :
      (fuel n k : ℕ) (canceled called : Bool) (r r' : W) (w : World W)
      → op.io.handle ≡ some k
      → platform.cancel_io k r ≡ (true, r')
      → Holds platform op (suc n) false canceled called r w
      → Returns
          (cancel_ platform (suc fuel) op.address w)
          (Holds platform (detached op) (suc n) false true called r')
  cancel_-detaches fuel n k canceled called r r' w pending answer h =
      rw
        (cancel_-detached fuel n k canceled called r' w h.here pending
          (ap (platform.cancel_io k) h.rest_is ∙ answer))
        (
          _,
          refl,
          record {
            here =
                here_after platform op.address (stored (detached op) (suc n) true called)
                  (write op.address (record_at op n true called) w).asyncs;
            rest_is = refl;
            valid = h.valid;
            armed_is = h.armed_is;
          },
        )

  -- Take an operation.
  pub cancel-detaches :
      (fuel n k : ℕ) (armed canceled called : Bool) (r r' : W) (w : World W)
      → op.io.handle ≡ some k
      → platform.cancel_io k r ≡ (true, r')
      → Holds platform op (suc (if armed then suc n else n)) armed canceled called r w
      → Returns
          (cancel platform (suc fuel) op.address w)
          (Holds platform (detached op) (suc n) false true called r')
  unfolding cancel
  cancel-detaches fuel n k armed canceled called r r' w pending answer h =
      Returns-bind (Holds platform (detached op) (suc n) false true called r')
        (cancel_timeout platform op.address w) _
        (cancel_timeout-Holds platform op n armed canceled called r w h)
        λ w' h'. cancel_-detaches fuel n k canceled called r r' w' pending answer h'
