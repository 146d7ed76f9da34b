-- ===== src/Object/Lifetime.antt =====
-- src/object.c: the life of an object, from its creation to the message that destroys it.
use mathlib.Core.Option
use xrossfire.Base.{
  ℕ, zero, suc, ◌≡◌, refl, ap, subst, Option, none, some, List, [], ◌∷◌, arith, ◌>>=◌,
}
use xrossfire.Base.Int.{pos}
use xrossfire.Object.{
  Object, Args, no_args, Cell, live, freed, Created, created, out_of_memory, new, add_ref, call,
  release, query_interface, get_class_id, query_interface_args, get_class_id_args,
  object_query_interface, object_get_class_id, object_destroy, set_data,
}

pub data Call : Type 0 where
  retain drop class_id : Call
  query : ℕ → Call
  send : ℕ → Args → Call
  store_data : ℕ → Call

module _ {ℓ} {W : Type ℓ} (respond : ℕ → ℕ → Args → W → ℕ × W) where
  abbrev after_release : Option Cell × W → Option (Cell × W)
  after_release (none, w) = none
  after_release (some c, w) = some (c, w)

  abbrev after_retain : W → Option Object → Option (Cell × W)
  after_retain w none = none
  after_retain w (some o) = some (live o, w)

  -- One call on the object of a cell; a call on freed memory is a fault.
  unfoldable pub step : Call → Cell × W → Option (Cell × W)
  step k (freed, w) = none
  step retain (live o, w) = after_retain w (add_ref (some o))
  step drop (live o, w) = after_release (release respond (some o) w)
  step class_id (live o, w) = some (live o, (get_class_id respond o w).1)
  step (query interface_type) (live o, w) =
      some (live o, (query_interface respond o interface_type w).1)
  step (send message_id args) (live o, w) = some (live o, (call respond o message_id args w).1)
  step (store_data d) (live o, w) = some (live (set_data o d), w)

  unfoldable pub run : List Call → Cell × W → Option (Cell × W)
  unfolding step
  run [] s = some s
  run (k ∷ ks) s = step k s >>= run ks

-- The specification: the number of holders, the data, and the messages sent so far, the last first.
abbrev pub Life : Type 0
Life = ℕ × ℕ × List (ℕ × Args)

-- A call needs a holder. The last release sends the message that destroys the object; no other
-- retain or release sends anything.
unfoldable pub live_step : Call → Life → Option Life
live_step k (zero, d, ms) = none
live_step retain (suc n, d, ms) = some (suc (suc n), d, ms)
live_step drop (suc zero, d, ms) = some (zero, d, (object_destroy, no_args) ∷ ms)
live_step drop (suc (suc n), d, ms) = some (suc n, d, ms)
live_step class_id (suc n, d, ms) = some (suc n, d, (object_get_class_id, get_class_id_args) ∷ ms)
live_step (query i) (suc n, d, ms) =
    some (suc n, d, (object_query_interface, query_interface_args i) ∷ ms)
live_step (send m a) (suc n, d, ms) = some (suc n, d, (m, a) ∷ ms)
live_step (store_data d') (suc n, d, ms) = some (suc n, d', ms)

unfoldable pub live_run : List Call → Life → Option Life
unfolding live_step
live_run [] l = some l
live_run (k ∷ ks) l = live_step k l >>= live_run ks

object_of : Object → Created → Object
object_of o (created o') = o'
object_of o out_of_memory = o

module _ {ℓ} {W : Type ℓ} (respond : ℕ → ℕ → Args → W → ℕ × W) (procedure : ℕ) (w : W) where
  -- What the procedure does for the messages.
  abbrev pub replay : List (ℕ × Args) → W
  replay [] = w
  replay ((m, a) ∷ ms) = (respond procedure m a (replay ms)).1

  abbrev pub state : Life → Cell × W
  state (zero, d, ms) = (freed, replay ms)
  state (suc n, d, ms) =
      (live (record { procedure = procedure; ref = pos (suc n); user_data = d }), replay ms)

  add_ref-held :
      (n d : ℕ)
      → add_ref (some (record { procedure = procedure; ref = pos (suc n); user_data = d }))
        ≡ some (record { procedure = procedure; ref = pos (suc (suc n)); user_data = d })
  unfolding add_ref
  add_ref-held n d = ground arith

  release-held :
      (n d : ℕ) (v : W)
      → release respond
          (some (record { procedure = procedure; ref = pos (suc (suc n)); user_data = d }))
          v
        ≡ (some (live (record { procedure = procedure; ref = pos (suc n); user_data = d })), v)
  unfolding release
  release-held n d v = ground arith

  step-live_step :
      (k : Call) (l : Life) → step respond k (state l) ≡ Option.map state (live_step k l)
  unfolding step live_step call query_interface get_class_id set_data release
  step-live_step k (zero, d, ms) = refl
  step-live_step retain (suc n, d, ms) = rw (add_ref-held n d) refl
  step-live_step drop (suc zero, d, ms) = refl
  step-live_step drop (suc (suc n), d, ms) = rw (release-held n d (replay ms)) refl
  step-live_step class_id (suc n, d, ms) = refl
  step-live_step (query i) (suc n, d, ms) = refl
  step-live_step (send m a) (suc n, d, ms) = refl
  step-live_step (store_data d') (suc n, d, ms) = refl

  and_so :
      (f : Cell × W → Option (Cell × W)) (g : Life → Option Life)
      → ((l : Life) → f (state l) ≡ Option.map state (g l))
      → (m : Option Life) → (Option.map state m >>= f) ≡ Option.map state (m >>= g)
  and_so f g h none = refl
  and_so f g h (some l) = h l

  run-live_run :
      (ks : List Call) (l : Life) → run respond ks (state l) ≡ Option.map state (live_run ks l)
  unfolding run live_run
  run-live_run [] l = refl
  run-live_run (k ∷ ks) l =
      rw (step-live_step k l)
        (and_so (run respond ks) (live_run ks) (run-live_run ks) (live_step k l))

  -- Through any calls on a new object, the object lives as long as it has a holder, its data is
  -- what was stored last, and its procedure has answered the messages of the calls in turn; the
  -- last release sends the message that destroys the object and frees it, and the calls fault
  -- exactly when one of them comes after that.
  pub run-new :
      (ks : List Call) (p : ℕ) (o : Object)
      → new procedure (some p) ≡ created o
      → run respond ks (live o, w) ≡ Option.map state (live_run ks (1, 0, []))
  unfolding new object_of
  run-new ks p o h =
      subst (λ x. run respond ks (live x, w) ≡ Option.map state (live_run ks (1, 0, [])))
        (ap (object_of o) h) (run-live_run ks (1, 0, []))
