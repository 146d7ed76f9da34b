-- ===== src/Async/Cancelled/Tests.antt =====
-- Runs of src/async.c: a cancellation of an operation whose child waits in its phase 1.
use xrossfire.Base.{
  ℕ, ◌≡◌, ◌≢◌, refl, true, false, none, some, List, [], ◌∷◌, Returns, arith, ◌==◌, if◌then◌else◌,
}
use xrossfire.Base.Int.{ℤ, pos, negsuc}
use xrossfire.Avl.Sorted.{find_key}
use xrossfire.Timeout.{init, is_some}
use xrossfire.Timeout.Order.{handle_order}
use xrossfire.Timeout.Queue.{pending, init-IsValid_lem}
use xrossfire.Async.{World}
use xrossfire.Async.Notify.{Platform, cancel, error_cancel}
use xrossfire.Async.Counts.{Operation, no_io}
use xrossfire.Async.Pair.{phases}
use xrossfire.Async.Phases.{Step}
use xrossfire.Async.Parent.{parent_at, Ended}
use xrossfire.Async.Linked.{no_key}
use xrossfire.Async.Cancelled.{Leaf, cancel-Ended}

-- The operation at address 4 logs 2 and the error in its error phase, and gives error 8; its parent
-- at address 5 logs the error.
abbrev act : ℤ → ℕ → List ℕ → Step (List ℕ)
act (pos n) error r = record { after = 1 ∷ r; error = 0; next = none }
act (negsuc n) error r = record { after = 2 ∷ error ∷ r; error = 8; next = none }

abbrev log : ℕ → List ℕ → List ℕ
log error r = error ∷ r

abbrev platform : Platform (List ℕ)
platform = record {
  completed = λ procedure error context w. some (record w { rest = log error w.rest });
  procedure = λ procedure self phase error context w. some (
    record w { rest = (act phase error w.rest).after },
    (act phase error w.rest).error,
    (act phase error w.rest).next,
  );
  cancel_io = λ handle r. (false, r);
  clear_io = λ io r. r;
}

abbrev operation : Operation
operation = record {
  address = 5;
  io = no_io;
  key = record { id = 0; timestamp = pos 0 };
  completed = 90;
  context = 91;
}

abbrev held_by : ℕ → World (List ℕ)
held_by n = record {
  asyncs = λ p.
      if p == 5
      then some (parent_at operation n false false (some 4))
      else (if p == 4 then some (phases 70 (pos 1) 80 5) else none);
  timeouts = init;
  rest = [];
}

apart : ◌≢◌ {A = ℕ} 4 5
apart h = absurd (omega arith)

not_pending : is_some (find_key no_key (pending init)) ≡ false
unfolding find_key init xrossfire.Avl.Root.init
not_pending = refl

linked :
    (n : ℕ)
    → Leaf platform 4 operation apart 70 80 act
        (λ phase error w. refl)
        (pos 1)
        false
        (parent_at operation n false false (some 4))
        []
        (held_by n)
linked n = (
  record {
    here = refl;
    there = refl;
    rest_is = refl;
    valid = init-IsValid_lem;
    free = not_pending;
  },
  not_pending,
)

cancel-Ended_example :
    Returns
      (cancel platform 4 5 (held_by 1))
      (Ended platform 4 operation apart log (λ error w. refl) 0 true (8 ∷ 2 ∷ error_cancel ∷ []))
cancel-Ended_example =
    cancel-Ended platform 4 operation apart 70 80 act (λ phase error w. refl) log (λ error w. refl)
      0 0 (pos 1) false false [] (held_by 1) (linked 1)
