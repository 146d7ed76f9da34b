-- ===== src/Async/Start.antt =====
-- src/async.c: what `xf_async_new` makes, with a timeout.
use xrossfire.Base.{ℕ, ◌≡◌, refl, ap, subst, ◌∙◌, true, false, none, some, ==_self, Returns, arith}
use xrossfire.Base.Int.{ℤ, pos, ◌+ℤ◌, ◌<ℤ◌, ltb_ℤ}
use xrossfire.Avl.Sorted.{find_key}
use xrossfire.Avl.Cancel.{find_key-insert_entry}
use xrossfire.Timeout.{Callback, Timeout, Timeouts, is_some}
use xrossfire.Timeout
use xrossfire.Timeout.Order.{handle_order}
use xrossfire.Timeout.Queue.{IsValid, pending, schedule-Schedules}
use xrossfire.Async.{async, World, set_child}
use xrossfire.Async.Notify.{Platform}
use xrossfire.Async.Create.{cleared, schedule_timeout, setup, new}
use xrossfire.Async.Counts.{Operation, no_io, Holds, here_after}

positive : (a : ℤ) → pos 0 <ℤ a → ltb_ℤ (pos 0) a ≡ true
positive a h = ground arith

one_more : pos 1 +ℤ pos 1 ≡ pos 2
unfolding ◌+ℤ◌
one_more = refl

-- The operation that is made: its handle is the next of the table.
abbrev pub started : ℕ → ℤ → ℕ → ℕ → ℤ → Timeouts → Operation
started p timeout completed context ticks s = record {
  address = p;
  io = no_io;
  key = record { id = s.seq; timestamp = ticks +ℤ timeout };
  completed = completed;
  context = context;
}

module _ {ℓ} {W : Type ℓ} (platform : Platform W) (async_timeout_address : ℕ) where
  -- On a valid table of timeouts, for a positive timeout and no parent, `xf_async_new` at an
  -- allocated address never faults: it makes an operation that is neither cancelled nor
  -- completed, with two holders, one of them its timeout, which is pending under the operation's
  -- handle.
  pub new-Holds :
      (p : ℕ) (timeout : ℤ) (completed context : ℕ) (ticks : ℤ) (w : World W)
      → IsValid w.timeouts
      → pos 0 <ℤ timeout
      → Returns (new async_timeout_address (some p) timeout completed context none ticks w) λ out.
        (out.1 ≡ some p)
        × Holds platform
            (started p timeout completed context ticks w.timeouts)
            2
            true
            false
            false
            w.rest
            out.0
  unfolding new setup set_child schedule_timeout Timeout.new_timeout
  new-Holds p timeout completed context ticks w v h =
      let callback : Callback = record { procedure = async_timeout_address; context = p } in
      let (out, ran, i) = schedule-Schedules w.timeouts p timeout callback ticks v in
      rw
        (
          positive timeout h,
          here_after platform p
              (some (record (cleared (async false completed context)) { parent = none })) w.asyncs,
          ran,
          i.written,
          one_more,
        )
        (
          _,
          refl,
          (
            refl,
            record {
              here = rw (==_self p) refl;
              rest_is = refl;
              valid = i.valid;
              armed_is =
                  subst (λ k. is_some (find_key k (pending out.0)) ≡ true)
                    (ap (λ (e : Timeout). e.key) i.written)
                    (ap is_some (
                      ap (find_key out.1.key) i.contents
                      ∙ find_key-insert_entry out.1 (pending w.timeouts) i.fresh));
            },
          ),
        )
