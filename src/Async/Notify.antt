-- ===== src/Async/Notify.antt =====
-- src/async.c: release, notification and cancellation.
--
-- What the program's callbacks and the operating system do are arguments: `completed` and `procedure`
-- act on the whole state, and `cancel_io` and `clear_io` on the rest of it. Notification goes up the
-- parents and cancellation down the children, on fuel: a step for each record on the way.
use xrossfire.Base.{ℕ, zero, suc, Bool, true, Option, none, some, ◌==◌, if◌then◌else◌, ◌>>=◌}
use xrossfire.Base.Int.{ℤ, pos, negsuc, ◌-ℤ◌, ltb_ℤ, ==ℤ}
use xrossfire.Timeout
use xrossfire.Async.{
  IoAsync, Body, async, wait, multi_phase, Async, World, update, write, set_child,
}

abbrev pub error_cancel : ℕ
error_cancel = 2

abbrev pub phase_error : ℤ
phase_error = negsuc 0

abbrev pub phase_exit : ℤ
phase_exit = negsuc 1

-- What the program and the operating system do. A procedure of several phases gives its error and
-- the phase that it writes to `next_phase`, if it writes one.
pub record Platform {ℓ} (W : Type ℓ) : Type ℓ where
  pub completed : ℕ → ℕ → ℕ → World W → Option (World W)
  pub procedure : ℕ → ℕ → ℤ → ℕ → ℕ → World W → Option (World W × ℕ × Option ℤ)
  pub cancel_io : ℕ → W → Bool × W
  pub clear_io : IoAsync → W → W

abbrev pub with_next_phase : Body → Option ℤ → Body
with_next_phase (multi_phase procedure next_phase context) (some phase) =
    multi_phase procedure phase context
with_next_phase body next = body

abbrev pub get_next_phase : Body → ℤ
get_next_phase (multi_phase procedure next_phase context) = next_phase
get_next_phase body = pos 0

module _ {ℓ} {W : Type ℓ} (platform : Platform W) where
  unfoldable pub release : Option ℕ → World W → Option (World W)
  release none w = some w
  release (some p) w = do
    self ← w.asyncs p
    let ref = self.ref -ℤ pos 1
    let w' = write p (record self { ref = ref }) w
    if ltb_ℤ (pos 0) ref then some w' else (do
      (timeouts, found) ← Timeout.cancel w'.timeouts self.timeout
      w'' ← set_child self.parent none (record w' { timeouts = timeouts })
      some (record w'' {
        asyncs = update p none w''.asyncs;
        rest = platform.clear_io self.io_async w''.rest;
      }))

  -- `if (xf_timeout_cancel(&self->timeout) == true) xf_async_release(self);`
  unfoldable pub cancel_timeout : ℕ → World W → Option (World W)
  cancel_timeout p w = do
    self ← w.asyncs p
    (timeouts, found) ← Timeout.cancel w.timeouts self.timeout
    let w' = record w { timeouts = timeouts }
    if found then release (some p) w' else some w'

  unfoldable pub async_notify : ℕ → ℕ → Async → Bool → ℕ → ℕ → World W → Option (World W)
  async_notify p error self called completed context w =
      if called
      then some w
      else (platform.completed completed error context
            (write p (record self { body = async true completed context }) w)
          >>= release (some p))

  unfoldable pub wait_notify : ℕ → ℕ → Async → World W → Option (World W)
  wait_notify p error self w = some (write p (record self { body = wait 1 error }) w)

  -- Calls the procedure of a record, and writes the next phase.
  unfoldable pub call_procedure : ℕ → ℤ → ℕ → World W → Option (World W × ℕ)
  call_procedure p phase error w = w.asyncs p >>= λ self. elim self.body [
    | async called completed context ↦ none
    | wait status error' ↦ none
    | multi_phase procedure next_phase context ↦ (do
      (w', err, next) ← platform.procedure procedure p phase error context w
      self' ← w'.asyncs p
      some (write p (record self' { body = with_next_phase self'.body next }) w', err))
  ]

  -- `xf_async_notify(self->parent, error); xf_async_release(self);`
  unfoldable pub finish : (ℕ → ℕ → World W → Option (World W)) → ℕ → ℕ → World W → Option (World W)
  finish notify p error w = do
    self ← w.asyncs p
    parent ← self.parent
    w' ← notify parent error w
    release (some p) w'

  unfoldable pub run_error_phase :
      (ℕ → ℕ → World W → Option (World W)) → ℕ → ℕ → World W → Option (World W)
  run_error_phase notify p error w = do
    (w', err) ← call_procedure p phase_error error w
    finish notify p err w'

  unfoldable pub run_next_phase :
      (ℕ → ℕ → World W → Option (World W)) → ℕ → ℕ → World W → Option (World W)
  run_next_phase notify p error w =
      if error == 0
      then (do
        self ← w.asyncs p
        (w', err) ← call_procedure p (get_next_phase self.body) 0 w
        self' ← w'.asyncs p
        if err == 0
            then (if ==ℤ (get_next_phase self'.body) phase_exit
                then finish notify p 0 w'
                else some w')
            else run_error_phase notify p err w')
      else run_error_phase notify p error w

  unfoldable pub notify : ℕ → ℕ → ℕ → World W → Option (World W)
  notify zero p error w = none
  notify (suc fuel) p error w = do
    w' ← cancel_timeout p w
    self ← w'.asyncs p
    elim self.body [
      | async called completed context ↦ async_notify p error self called completed context w'
      | wait status error' ↦ wait_notify p error self w'
      | multi_phase procedure next_phase context ↦ run_next_phase (notify fuel) p error w'
    ]

  -- `CancelIoEx` answers whether there was an operation to cancel.
  unfoldable pub cancel_io_async : ℕ → ℕ → ℕ → Async → World W → Option (World W)
  cancel_io_async fuel p handle self w =
      let (cancelled, rest) = platform.cancel_io handle w.rest in
      let io_async = record self.io_async { handle = none } in
      if cancelled
      then some (write p (record self { io_async = io_async }) (record w { rest = rest }))
      else notify fuel p error_cancel (record w { rest = rest })

  -- `_cancel`.
  unfoldable pub cancel_ : ℕ → ℕ → World W → Option (World W)
  cancel_ zero p w = none
  cancel_ (suc fuel) p w = do
    before ← w.asyncs p
    let self = record before { canceled = true }
    let w' = write p self w
    elim self.child_async [
      | some child ↦ cancel_timeout child w' >>= cancel_ fuel child
      | none ↦ elim self.io_async.handle [
        | some handle ↦ cancel_io_async fuel p handle self w'
        | none ↦ notify fuel p error_cancel w'
      ]
    ]

  unfoldable pub cancel : ℕ → ℕ → World W → Option (World W)
  cancel fuel p w = cancel_timeout p w >>= cancel_ fuel p

  unfoldable pub async_timeout : ℕ → ℕ → World W → Option (World W)
  async_timeout fuel p w = cancel_ fuel p w >>= release (some p)
