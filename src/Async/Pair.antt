-- ===== src/Async/Pair.antt =====
-- src/async.c: an operation of several phases and the record that waits for it.
use xrossfire.Base.{
  ℕ, suc, ◌≡◌, ◌≢◌, refl, sym, ◌∙◌, inl, inr, false, Option, none, some, ◌==◌, ==_iff, ==_self,
  Returns, Bool-cases, arith,
}
use xrossfire.Base.Int.{ℤ, pos, ltb_ℤ, ◌≤ℤ◌}
use xrossfire.Avl.Sorted.{find_key}
use xrossfire.Timeout.{is_some}
use xrossfire.Timeout.Order.{Handle, handle_order}
use xrossfire.Timeout.Queue.{IsValid, pending}
use xrossfire.Async.{wait, multi_phase, Async, World, write, set_child}
use xrossfire.Async.Notify.{Platform, release, cancel_timeout, notify, wait_notify, finish}
use xrossfire.Async.Create.{cleared}
use xrossfire.Async.Counts.{cancelled, minus_one}

-- The record that waits, and its child.
abbrev pub waiting : Async → Option ℕ → ℕ → ℕ → Async
waiting parent child status error = record parent { child_async = child; body = wait status error }

pub no_timeout : (a : ℤ) → a ≤ℤ pos 0 → ltb_ℤ (pos 0) a ≡ false
no_timeout a h = ground arith

abbrev pub phases : ℕ → ℤ → ℕ → ℕ → Async
phases procedure phase context q = record (cleared (multi_phase procedure phase context)) {
  parent = some q;
}

module _ {ℓ} {W : Type ℓ} (platform : Platform W) (p q : ℕ) (apart : p ≢ q) where
  pub record Pair (child : Option Async) (parent : Async) (r : W) (w : World W) : Type ℓ where
    pub here : w.asyncs p ≡ child
    pub there : w.asyncs q ≡ some parent
    pub rest_is : w.rest ≡ r
    pub valid : IsValid w.timeouts
    pub free : is_some (find_key parent.timeout (pending w.timeouts)) ≡ false

  pub p_not_q : (p == q) ≡ false
  p_not_q = elim (Bool-cases (p == q)) [ inl e ↦ absurd (apart ((==_iff p q).0 e)) | inr e ↦ e ]

  pub q_not_p : (q == p) ≡ false
  q_not_p = elim (Bool-cases (q == p)) [
    | inl e ↦ absurd (apart (sym ((==_iff q p).0 e)))
    | inr e ↦ e
  ]

  pub write_child :
      (child : Option Async) (child' parent : Async) (r : W) (w : World W)
      → Pair child parent r w
      → Pair (some child') parent r (write p child' w)
  write_child child child' parent r w i = record {
    here = rw (==_self p) refl;
    there = rw q_not_p i.there;
    rest_is = i.rest_is;
    valid = i.valid;
    free = i.free;
  }

  -- The waiting record is notified.
  notify-waiting :
      (fuel error : ℕ) (child : Option Async) (parent : Async) (link : Option ℕ) (r : W)
      (w : World W)
      → Pair child (waiting parent link 0 0) r w
      → Returns (notify platform (suc fuel) q error w) (Pair child (waiting parent link 1 error) r)
  unfolding notify cancel_timeout wait_notify
  notify-waiting fuel error child parent link r w i =
      let (out, ran, (valid, gone, found)) = cancelled platform parent.timeout w.timeouts i.valid in
      rw (i.there, ran)
        (rw (found ∙ i.free) (
          rw i.there (
            _,
            refl,
            record {
              here = rw p_not_q i.here;
              there = rw (==_self q) refl;
              rest_is = i.rest_is;
              valid = valid;
              free = gone;
            },
          )))

  -- The child has been freed, and the waiting record has been given an error.
  abbrev pub Done : Async → ℕ → World W → Type 0
  Done parent error w = (w.asyncs p ≡ none) × (w.asyncs q ≡ some (waiting parent none 1 error))

  -- The child notifies its parent and releases itself.
  pub finish-waiting :
      (fuel error : ℕ) (procedure context : ℕ) (phase : ℤ) (parent : Async) (r : W) (w : World W)
      → Pair (some (phases procedure phase context q)) (waiting parent (some p) 0 0) r w
      → Returns (finish platform (notify platform (suc fuel)) p error w) (Done parent error)
  unfolding finish release set_child
  finish-waiting fuel error procedure context phase parent r w i =
      let (w', ran, j) =
        notify-waiting fuel error (some (phases procedure phase context q)) parent (some p) r w i in
      let none_key : Handle = record { id = 0; timestamp = pos 0 } in
      let (out, ran', (valid, gone, found)) = cancelled platform none_key w'.timeouts j.valid in
      rw (i.here, ran)
        (rw (j.here, minus_one 0, ran')
          (rw (q_not_p, j.there) (_, refl, (rw (==_self p) refl, rw (q_not_p, ==_self q) refl))))
