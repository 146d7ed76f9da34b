-- ===== src/Async/Tests.antt =====
-- Runs of src/async.c: an operation with a timeout, at address 3, whose procedure logs its error.
use xrossfire.Base.{
  ℕ, ◌≡◌, refl, Bool, true, false, none, some, List, [], ◌∷◌, Returns, arith, ◌==◌, if◌then◌else◌,
}
use xrossfire.Base.Int.{pos}
use xrossfire.Avl.{null, node, get_height}
use xrossfire.Avl.Sorted.{find_key}
use xrossfire.Timeout.{Timeouts}
use xrossfire.Timeout.Order.{Handle, handle_order, compare_handles}
use xrossfire.Timeout.Queue.{IsValid}
use xrossfire.Async.{World}
use xrossfire.Async.Notify.{Platform, notify}
use xrossfire.Async.Counts.{Operation, no_io, stored, Holds}
use xrossfire.Async.Once.{notify_completes}
use xrossfire.Async.Life.{
  Event, notified, expires, times_out, retains, releases, Life, live_on, live, run, Stands,
}
use xrossfire.Async.Lives.{run-Stands}

abbrev platform : Platform (List ℕ)
platform = record {
  completed = λ procedure error context w. some (record w { rest = error ∷ w.rest });
  procedure = λ procedure self phase error context w. some (w, 0, none);
  cancel_io = λ handle r. (false, r);
  clear_io = λ io r. r;
}

abbrev key : Handle
key = record { id = 0; timestamp = pos 9 }

abbrev operation : Operation
operation = record { address = 3; io = no_io; key = key; completed = 70; context = 80 }

abbrev timeouts : Timeouts
timeouts = record {
  tree = record {
    root =
        node null 1
          (record { address = 3; key = key; value = record { procedure = 60; context = 3 } }) null;
  };
  seq = 1;
}

timeouts-IsValid : IsValid timeouts
unfolding get_height
timeouts-IsValid = record {
  tree = record { avl = (refl, omega arith, omega arith, tt, tt); increasing = (tt, tt) };
  young = (omega arith, tt);
}

-- So many holders, while its timeout is pending.
abbrev pending_world : ℕ → Bool → World (List ℕ)
pending_world n called = record {
  asyncs = λ p. if p == 3 then stored operation n false called else none;
  timeouts = timeouts;
  rest = [];
}

pending-Holds : Holds platform operation 2 true false false [] (pending_world 2 false)
unfolding find_key handle_order compare_handles
pending-Holds = record { here = refl; rest_is = refl; valid = timeouts-IsValid; armed_is = refl }

abbrev act : ℕ → List ℕ → List ℕ
act error r = error ∷ r

calm :
    (error : ℕ) (w : World (List ℕ))
    → platform.completed 70 error 80 w ≡ some (record w { rest = act error w.rest })
calm error w = refl

notify_completes_example :
    Returns
      (notify platform 1 3 5 (pending_world 2 false))
      (Holds platform operation 0 false false true (5 ∷ []))
notify_completes_example =
    notify_completes platform operation act calm 0 0 5 true false [] (pending_world 2 false)
      pending-Holds

-- A reference is taken, the timeout expires while the operation completes, its callback comes after
-- that, and the two who hold it let go.
abbrev events : List Event
events = retains ∷ expires ∷ notified 5 ∷ times_out ∷ releases ∷ releases ∷ []

abbrev life : Life (List ℕ)
life = record {
  others = 1;
  armed = true;
  running = false;
  canceled = false;
  called = false;
  rest = [];
}

-- Nobody holds it, and its procedure has been called once.
abbrev last : Life (List ℕ)
last = record {
  others = 0;
  armed = false;
  running = false;
  canceled = true;
  called = true;
  rest = 5 ∷ [];
}

held-Holds : Holds platform operation 3 true false false [] (pending_world 3 false)
unfolding find_key handle_order compare_handles
held-Holds = record { here = refl; rest_is = refl; valid = timeouts-IsValid; armed_is = refl }

lived : live act events life ≡ some last
unfolding live live_on
lived = refl

run-Stands_example :
    Returns
      (run platform operation 0 events (pending_world 3 false))
      (Stands platform operation last)
run-Stands_example =
    run-Stands platform operation act calm refl 0 events life last (pending_world 3 false) lived
      held-Holds
