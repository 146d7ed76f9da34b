-- ===== src/Async/Create.antt =====
-- src/async.c: the creation of the records, waiting, and the brackets round an operation.
--
-- `malloc` gives an address or none. Scheduling a timeout reads the clock, `ticks`, and never fails.
-- `xf_async_wait_new` does not write every field: what it leaves is the argument `garbage`.
use xrossfire.Base.{ℕ, Bool, true, false, Option, none, some, ◌==◌, if◌then◌else◌, ◌>>=◌}
use xrossfire.Base.Int.{ℤ, pos, ◌+ℤ◌, ltb_ℤ}
use xrossfire.Timeout.{Callback}
use xrossfire.Timeout
use xrossfire.Async.{no_context, Body, async, wait, multi_phase, Async, World, write, set_child}
use xrossfire.Async.Notify.{Platform, release, notify, run_next_phase, error_cancel}

-- The record with every byte 0 and no I/O handle.
abbrev pub cleared : Body → Async
cleared body = record {
  io_async = record { handle = none; io_type = 0; context = no_context };
  ref = pos 1;
  canceled = false;
  timeout = record { id = 0; timestamp = pos 0 };
  parent = none;
  child_async = none;
  body = body;
}

-- The address of the function `async_timeout`, which is scheduled with the record as its context.
module _ {ℓ} {W : Type ℓ} (async_timeout_address : ℕ) where
  unfoldable pub schedule_timeout : ℕ → ℤ → ℤ → World W → Option (World W)
  schedule_timeout p timeout ticks w =
      if ltb_ℤ (pos 0) timeout
      then (do
        self ← w.asyncs p
        (timeouts, entry, woken) ←
            Timeout.schedule w.timeouts p timeout
              (record { procedure = async_timeout_address; context = p }) ticks
        some (
            write p (record self { ref = self.ref +ℤ pos 1; timeout = entry.key })
              (record w { timeouts = timeouts })))
      else some w

  -- What `xf_async_new` and `xf_async_call` have in common.
  unfoldable pub setup : ℕ → ℤ → Body → Option ℕ → ℤ → World W → Option (World W)
  setup p timeout body parent ticks w =
      set_child parent (some p) (write p (record (cleared body) { parent = parent }) w)
      >>= schedule_timeout p timeout ticks

  -- The address of the new record, none without memory.
  unfoldable pub new : Option ℕ → ℤ → ℕ → ℕ → Option ℕ → ℤ → World W → Option (World W × Option ℕ)
  new none timeout completed context parent ticks w = some (w, none)
  new (some p) timeout completed context parent ticks w = do
    w' ← setup p timeout (async false completed context) parent ticks w
    some (w', some p)

  unfoldable pub wait_new : Option ℕ → Async → ℤ → ℤ → World W → Option (World W × Option ℕ)
  wait_new none garbage timeout ticks w = some (w, none)
  wait_new (some p) garbage timeout ticks w = do
    let self = record garbage {
      io_async = record { handle = none; io_type = 0; context = no_context };
      ref = pos 1;
      canceled = false;
      body = wait 0 0;
    }
    w' ← schedule_timeout p timeout ticks (write p self w)
    some (w', some p)

  unfoldable pub call :
      Platform W → ℕ → Option ℕ → ℤ → ℕ → ℕ → Option ℕ → ℤ → World W → Option (World W)
  call platform fuel none timeout procedure context parent ticks w = some w
  call platform fuel (some p) timeout procedure context parent ticks w =
      setup p timeout (multi_phase procedure (pos 0) context) parent ticks w
      >>= run_next_phase platform (notify platform fuel) p 0

module _ {ℓ} {W : Type ℓ} where
  unfoldable pub add_ref : Option ℕ → World W → Option (World W)
  add_ref none w = some w
  add_ref (some p) w =
      w.asyncs p >>= λ self. some (write p (record self { ref = self.ref +ℤ pos 1 }) w)

  -- What `xf_async_wait` returns, `none` while it still waits.
  unfoldable pub wait_result : ℕ → World W → Option (Option ℕ)
  wait_result p w = w.asyncs p >>= λ self. elim self.body [
    | async called completed context ↦ none
    | wait status error ↦ some (if status == 0 then none else some error)
    | multi_phase procedure next_phase context ↦ none
  ]

  unfoldable pub is_canceled : ℕ → World W → Option Bool
  is_canceled p w = w.asyncs p >>= λ self. some self.canceled

module _ {ℓ} {W : Type ℓ} (platform : Platform W) where
  -- A cancelled operation is notified, and then its lock is left, which must still be there.
  unfoldable pub enter : ℕ → ℕ → World W → Option (World W × Bool)
  enter fuel p w = w.asyncs p >>= λ self.
      if self.canceled
      then (notify platform fuel p error_cancel w >>= λ w'.
          w'.asyncs p >>= λ left. some (w', false))
      else (add_ref (some p) w >>= λ w'. some (w', true))

  unfoldable pub leave : ℕ → World W → Option (World W)
  leave p w = release platform (some p) w
