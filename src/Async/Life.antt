-- ===== src/Async/Life.antt =====
-- src/async.c: any order of events in the life of an operation with a completion procedure, against a
-- count of those who hold it.
use xrossfire.Base.{
  ℕ, zero, suc, Bool, true, false, Option, none, some, List, [], ◌∷◌, ◌>>=◌, if◌then◌else◌, ◌==◌,
}
use xrossfire.Timeout
use xrossfire.Async.{World}
use xrossfire.Async.Notify.{Platform, release, notify, cancel, async_timeout, error_cancel}
use xrossfire.Async.Create.{add_ref}
use xrossfire.Async.Counts.{Operation, Holds}

-- `expires` is the polling loop that takes the timeout out of the table, and `times_out` is its callback.
pub data Event : Type 0 where
  notified : (error : ℕ) → Event
  cancels expires times_out retains releases : Event

-- `others` are those who hold the operation besides its completion and its timeout. The timeout is
-- pending while `armed`, and its callback is still to come while `running`.
pub record Life {ℓ} (W : Type ℓ) : Type ℓ where
  pub others : ℕ
  pub armed : Bool
  pub running : Bool
  pub canceled : Bool
  pub called : Bool
  pub rest : W

-- Those who hold it, but for a timeout that is pending.
abbrev pub holders_of : ℕ → Bool → Bool → ℕ
holders_of others false false = suc others
holders_of others true false = suc (suc others)
holders_of others false true = others
holders_of others true true = suc others

abbrev pub holders {ℓ} : {W : Type ℓ} → Life W → ℕ
holders l = holders_of l.others l.running l.called

-- The callers' protocol: what each event makes of the life, none if it comes from nobody who may
-- cause it.
module _ {ℓ} {W : Type ℓ} (act : ℕ → W → W) where
  abbrev pub complete : Bool → ℕ → Life W → Life W
  complete canceled error l = record l {
    armed = false;
    canceled = canceled;
    called = true;
    rest = if l.called then l.rest else act error l.rest;
  }

  unfoldable pub live_on : Event → Life W → Option (Life W)
  live_on (notified error) l = if holders l == 0 then none else some (complete l.canceled error l)
  live_on cancels l = if holders l == 0 then none else some (complete true error_cancel l)
  live_on expires l =
      if l.armed
      then (if l.running then none else some (record l { armed = false; running = true }))
      else none
  live_on times_out l =
      if l.armed
      then none
      else (if l.running
          then some (record (complete true error_cancel l) { running = false })
          else none)
  live_on retains l = if holders l == 0 then none else some (record l { others = suc l.others })
  live_on releases l = elim (l.others) [
    | zero ↦ none
    | suc others ↦ some (record l { others = others })
  ]

  unfoldable pub live : List Event → Life W → Option (Life W)
  unfolding live_on
  live [] l = some l
  live (e ∷ es) l = live_on e l >>= live es

module _ {ℓ} {W : Type ℓ} (platform : Platform W) (op : Operation) (fuel : ℕ) where
  unfoldable pub perform : Event → World W → Option (World W)
  perform (notified error) w = notify platform (suc fuel) op.address error w
  perform cancels w = cancel platform (suc (suc fuel)) op.address w
  perform expires w =
      Timeout.cancel w.timeouts op.key >>= λ out. some (record w { timeouts = out.0 })
  perform times_out w = async_timeout platform (suc (suc fuel)) op.address w
  perform retains w = add_ref (some op.address) w
  perform releases w = release platform (some op.address) w

  unfoldable pub run : List Event → World W → Option (World W)
  unfolding perform
  run [] w = some w
  run (e ∷ es) w = perform e w >>= run es

-- With the timeout, if it is pending.
abbrev pub total : Bool → ℕ → ℕ
total false n = n
total true n = suc n

-- The record counts those who hold it, and is there as long as there are any.
abbrev pub Stands {ℓ} : {W : Type ℓ} → Platform W → Operation → Life W → World W → Type ℓ
Stands platform op l w =
    Holds platform op (total l.armed (holders l)) l.armed l.canceled l.called l.rest w
