-- ===== src/Async/Lives.antt =====
-- src/async.c: any order of events in the life of an operation, against the count of those who hold it.
use xrossfire.Base.{
  ℕ, zero, suc, ◌≡◌, refl, subst, Bool, true, false, Option, none, some, List, [], ◌∷◌, >>=-eq-some,
  if◌then◌else◌, Returns, Returns-bind, ◌==◌,
}
use mathlib.Core.Option.{some-injective}
use xrossfire.Timeout.Order.{handle_order}
use xrossfire.Async.{World}
use xrossfire.Async.Notify.{Platform, release, notify, cancel, async_timeout, error_cancel}
use xrossfire.Async.Create.{add_ref}
use xrossfire.Async.Counts.{Operation, Holds}
use xrossfire.Async.Once.{notify_completes, notify_again, cancel_completes, async_timeout_completes}
use xrossfire.Async.Again.{cancel_again, async_timeout_again}
use xrossfire.Async.Life.{
  Event, notified, cancels, expires, times_out, retains, releases, Life, holders_of, live_on, live,
  perform, run, Stands,
}
use xrossfire.Async.Held.{closes, retained, released, expired}

-- What a test lets through.
unless {ℓ} :
    {A : Type ℓ} (b : Bool) (m : Option A) {a : A}
    → (if b then none else m) ≡ some a
    → (b ≡ false) × (m ≡ some a)
unless true m h = cc
unless false m h = (refl, h)

abbrev made_of {ℓ} : {W : Type ℓ} → ℕ → Bool → Bool → Bool → Bool → W → Life W
made_of others armed running canceled called r = record {
  others = others;
  armed = armed;
  running = running;
  canceled = canceled;
  called = called;
  rest = r;
}

module _ {ℓ} {W : Type ℓ} (platform : Platform W) (op : Operation) (act : ℕ → W → W)
    (calm : (error : ℕ) (w : World W)
      → platform.completed op.completed error op.context w
        ≡ some (record w { rest = act error w.rest }))
    (no_io : op.io.handle ≡ none) where
  timed_out :
      (fuel others : ℕ) (canceled called : Bool) (r : W) (w : World W)
      → Holds platform op (holders_of others true called) false canceled called r w
      → Returns (async_timeout platform (suc (suc fuel)) op.address w) (
          Holds platform op
            (holders_of others false true)
            false
            true
            true
            (if called then r else act error_cancel r))
  timed_out fuel others canceled true r w h =
      async_timeout_again platform op act calm fuel others canceled r w no_io h
  timed_out fuel others canceled false r w h =
      async_timeout_completes platform op act calm fuel others canceled r w no_io h

  -- One event. The life is given by what it consists of.
  perform-Stands :
      (fuel : ℕ) (e : Event) (others : ℕ) (armed running canceled called : Bool) (r : W)
      (l : Life W) (w : World W)
      → let before = made_of others armed running canceled called r in
        live_on act e before ≡ some l
        → Stands platform op before w
        → Returns (perform platform op fuel e w) (Stands platform op l)
  unfolding perform live_on
  perform-Stands fuel (notified error) others armed running canceled called r l w lives h =
      let (alive, is) = unless (holders_of others running called == 0) _ lives in
      subst (λ k. Returns (notify platform (suc fuel) op.address error w) (Stands platform op k))
        (some-injective _ _ is)
        (closes platform op _ (act error r) others armed running canceled canceled called r w
          (λ n. notify_completes platform op act calm fuel n error armed canceled r w)
          (λ n. notify_again platform op act calm fuel n error armed canceled r w) alive h)
  perform-Stands fuel cancels others armed running canceled called r l w lives h =
      let (alive, is) = unless (holders_of others running called == 0) _ lives in
      subst (λ k. Returns (cancel platform (suc (suc fuel)) op.address w) (Stands platform op k))
        (some-injective _ _ is)
        (closes platform op _ (act error_cancel r) others armed running canceled true called r w
          (λ n. cancel_completes platform op act calm fuel n armed canceled r w no_io)
          (λ n. cancel_again platform op act calm fuel n armed canceled r w no_io) alive h)
  perform-Stands fuel expires others true false canceled called r l w lives h =
      subst (λ k. Returns (perform platform op fuel expires w) (Stands platform op k))
        (some-injective _ _ lives) (expired platform op others canceled called r w h)
  perform-Stands fuel expires others true true canceled called r l w lives h = cc
  perform-Stands fuel expires others false running canceled called r l w lives h = cc
  perform-Stands fuel times_out others false true canceled called r l w lives h =
      subst (λ k. Returns (perform platform op fuel times_out w) (Stands platform op k))
        (some-injective _ _ lives) (timed_out fuel others canceled called r w h)
  perform-Stands fuel times_out others false false canceled called r l w lives h = cc
  perform-Stands fuel times_out others true running canceled called r l w lives h = cc
  perform-Stands fuel retains others armed running canceled called r l w lives h =
      let (alive, is) = unless (holders_of others running called == 0) _ lives in
      subst (λ k. Returns (add_ref (some op.address) w) (Stands platform op k))
        (some-injective _ _ is)
        (retained platform op others armed running canceled called r w alive h)
  perform-Stands fuel releases zero armed running canceled called r l w lives h = cc
  perform-Stands fuel releases (suc others) armed running canceled called r l w lives h =
      subst (λ k. Returns (release platform (some op.address) w) (Stands platform op k))
        (some-injective _ _ lives) (released platform op others armed running canceled called r w h)

  -- Take an operation with a completion procedure, without parent, child or I/O, and let its
  -- completion procedure not touch the records and the table of timeouts. Take any sequence of
  -- notifications, cancellations, expiries of its timeout, runs of the callback of its timeout,
  -- new references and releases, each by one who holds it, the expiry only while the timeout is
  -- pending and the callback once after it. With fuel for two steps, none of them faults; the
  -- record then counts those who hold it by the protocol, and is freed without any; and the
  -- completion procedure is called by the first notification, cancellation or timeout, with its
  -- error, and by no other.
  pub run-Stands :
      (fuel : ℕ) (events : List Event) (l l' : Life W) (w : World W)
      → live act events l ≡ some l'
      → Stands platform op l w
      → Returns (run platform op fuel events w) (Stands platform op l')
  unfolding run live
  run-Stands fuel [] l l' w lives h =
      (w, refl, subst (λ k. Stands platform op k w) (some-injective _ _ lives) h)
  run-Stands fuel (e ∷ events) l l' w lives h =
      let (l'', is, rest) = >>=-eq-some (live_on act e l) (live act events) lives in
      Returns-bind (Stands platform op l') (perform platform op fuel e w) _
        (perform-Stands fuel e l.others l.armed l.running l.canceled l.called l.rest l'' w is h)
        λ w' h'. run-Stands fuel events l'' l' w' rest h'
