-- ===== src/Async/Counts.antt =====
-- src/async.c: the state of one operation with a completion procedure, no parent and no child, and what a release and the end of its timeout make of it.
use xrossfire.Base.{
  ℕ, zero, suc, ◌≡◌, refl, ap, ◌∙◌, Bool, true, false, Option, none, some, ==_self, if◌then◌else◌,
  Returns, arith,
}
use xrossfire.Base.Int.{pos, ◌-ℤ◌, ltb_ℤ}
use xrossfire.Avl.Sorted.{find_key}
use xrossfire.Avl.Cancel.{find_key-erase_key}
use xrossfire.Timeout.{Timeout, Timeouts, is_some}
use xrossfire.Timeout
use xrossfire.Timeout.Order.{Handle, handle_order}
use xrossfire.Timeout.Queue.{IsValid, pending, cancel-Cancels}
use xrossfire.Async.{no_context, IoAsync, async, Async, World, update, write, set_child}
use xrossfire.Async.Notify.{Platform, release, cancel_timeout}

-- The operation: its handle in the table of timeouts, and its completion procedure.
pub record Operation : Type 0 where
  pub address : ℕ
  pub io : IoAsync
  pub key : Handle
  pub completed : ℕ
  pub context : ℕ

abbrev pub no_io : IoAsync
no_io = record { handle = none; io_type = 0; context = no_context }

abbrev pub record_at : Operation → ℕ → Bool → Bool → Async
record_at op n canceled called = record {
  io_async = op.io;
  ref = pos (suc n);
  canceled = canceled;
  timeout = op.key;
  parent = none;
  child_async = none;
  body = async called op.completed op.context;
}

-- What stands at its address: nothing without holders.
abbrev pub stored : Operation → ℕ → Bool → Bool → Option Async
stored op zero canceled called = none
stored op (suc n) canceled called = some (record_at op n canceled called)

pub minus_one : (n : ℕ) → pos (suc n) -ℤ pos 1 ≡ pos n
unfolding ◌-ℤ◌
minus_one n = ground arith

pub above_zero : (n : ℕ) → ltb_ℤ (pos 0) (pos (suc n)) ≡ true
above_zero n = ground arith

module _ {ℓ} {W : Type ℓ} (platform : Platform W) where
  -- The rest, after the record has been freed if it has no holder.
  abbrev pub settled : IoAsync → ℕ → W → W
  settled io zero r = platform.clear_io io r
  settled io (suc n) r = r

  pub record Holds (op : Operation) (n : ℕ) (armed canceled called : Bool) (r : W) (w : World W)
      : Type ℓ where
    pub here : w.asyncs op.address ≡ stored op n canceled called
    pub rest_is : w.rest ≡ settled op.io n r
    pub valid : IsValid w.timeouts
    pub armed_is : is_some (find_key op.key (pending w.timeouts)) ≡ armed

  abbrev pub still_armed : ℕ → Bool → Bool
  still_armed zero armed = false
  still_armed (suc n) armed = armed

  pub here_after : (p : ℕ) (v : Option Async) (store : ℕ → Option Async) → update p v store p ≡ v
  here_after p v store = rw (==_self p) refl

  release_held :
      (p : ℕ) (w : World W) (self : Async) (n : ℕ)
      → w.asyncs p ≡ some self
      → self.ref ≡ pos (suc (suc n))
      → release platform (some p) w ≡ some (write p (record self { ref = pos (suc n) }) w)
  unfolding release
  release_held p w self n here count =
      rw here (rw (count, minus_one (suc n)) (rw (above_zero n) refl))

  -- The table after a handle has been cancelled.
  pub cancelled :
      (key : Handle) (s : Timeouts)
      → IsValid s
      → Returns (Timeout.cancel s key) λ out.
        IsValid out.0
        × (is_some (find_key key (pending out.0)) ≡ false)
        × (out.1 ≡ is_some (find_key key (pending s)))
  cancelled key s v =
      let (out, ran, i) = cancel-Cancels s key v in
      (
        out,
        ran,
        (
          i.valid,
          ap is_some
              (ap (find_key key) i.contents ∙ find_key-erase_key key (pending s) v.tree.increasing),
          i.result,
        ),
      )

  pub release-Holds :
      (op : Operation) (n : ℕ) (armed canceled called : Bool) (r : W) (w : World W)
      → Holds op (suc n) armed canceled called r w
      → Returns
          (release platform (some op.address) w)
          (Holds op n (still_armed n armed) canceled called r)
  unfolding release set_child
  release-Holds op zero armed canceled called r w h =
      let (out, ran, (valid, gone, found)) = cancelled op.key w.timeouts h.valid in
      rw (h.here, minus_one 0, ran)
        (
          _,
          refl,
          record {
            here = rw (==_self op.address) refl;
            rest_is = ap (platform.clear_io op.io) h.rest_is;
            valid = valid;
            armed_is = gone;
          },
        )
  release-Holds op (suc n) armed canceled called r w h =
      rw (release_held op.address w (record_at op (suc n) canceled called) n h.here refl) (
        _,
        refl,
        record {
          here = here_after op.address _ w.asyncs;
          rest_is = h.rest_is;
          valid = h.valid;
          armed_is = h.armed_is;
        },
      )

  -- Cancelling its timeout gives the reference back that the timeout holds.
  pub cancel_timeout-Holds :
      (op : Operation) (n : ℕ) (armed canceled called : Bool) (r : W) (w : World W)
      → Holds op (suc (if armed then suc n else n)) armed canceled called r w
      → Returns (cancel_timeout platform op.address w) (Holds op (suc n) false canceled called r)
  unfolding cancel_timeout
  cancel_timeout-Holds op n true canceled called r w h =
      let (out, ran, (valid, gone, found)) = cancelled op.key w.timeouts h.valid in
      rw (h.here, ran)
        (rw (found ∙ h.armed_is) (
          release-Holds op (suc n) false canceled called r (record w { timeouts = out.0 })
            (record { here = h.here; rest_is = h.rest_is; valid = valid; armed_is = gone })))
  cancel_timeout-Holds op n false canceled called r w h =
      let (out, ran, (valid, gone, found)) = cancelled op.key w.timeouts h.valid in
      rw (h.here, ran)
        (rw (found ∙ h.armed_is)
          (_, refl, record { here = h.here; rest_is = h.rest_is; valid = valid; armed_is = gone }))

  pub unarmed :
      (op : Operation) (n : ℕ) (canceled called : Bool) (r : W) (w : World W)
      → Holds op n (still_armed n false) canceled called r w
      → Holds op n false canceled called r w
  unarmed op zero canceled called r w h = h
  unarmed op (suc n) canceled called r w h = h

  pub release_unarmed :
      (op : Operation) (n : ℕ) (canceled called : Bool) (r : W) (w : World W)
      → Holds op (suc n) false canceled called r w
      → Returns (release platform (some op.address) w) (Holds op n false canceled called r)
  release_unarmed op n canceled called r w h =
      let (out, ran, h') = release-Holds op n false canceled called r w h in
      (out, ran, unarmed op n canceled called r out h')
