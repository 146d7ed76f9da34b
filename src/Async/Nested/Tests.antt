-- ===== src/Async/Nested/Tests.antt =====
-- A run of src/async.c: an operation of several phases at address 3, for one at address 4, for an
-- operation at address 5 with a completion procedure.
use xrossfire.Base.{ℕ, ◌≡◌, ◌≢◌, refl, false, none, some, List, [], ◌∷◌, arith, ◌==◌, if◌then◌else◌}
use xrossfire.Base.Int.{ℤ, pos}
use xrossfire.Avl.Sorted.{find_key}
use xrossfire.Timeout.{init, is_some}
use xrossfire.Timeout.Order.{handle_order}
use xrossfire.Timeout.Queue.{pending, init-IsValid_lem}
use xrossfire.Async.{Async, World}
use xrossfire.Async.Notify.{Platform, notify, finish}
use xrossfire.Async.Counts.{Operation, no_io}
use xrossfire.Async.Pair.{phases}
use xrossfire.Async.Phases.{Step}
use xrossfire.Async.Parent.{parent_at}
use xrossfire.Async.Linked.{no_key}
use xrossfire.Async.Nested.{IsInner, Surrounds, nested_faults}

-- The error phase gives the error that it is given.
abbrev act : ℤ → ℕ → List ℕ → Step (List ℕ)
act phase error r = record { after = error ∷ r; error = error; next = none }

abbrev platform : Platform (List ℕ)
platform = record {
  completed = λ procedure error context w. some (record w { rest = error ∷ w.rest });
  procedure = λ procedure self phase error context w. some (
    record w { rest = (act phase error w.rest).after },
    (act phase error w.rest).error,
    (act phase error w.rest).next,
  );
  cancel_io = λ handle r. (false, r);
  clear_io = λ io r. r;
}

abbrev operation : Operation
operation = record {
  address = 5;
  io = no_io;
  key = record { id = 0; timestamp = pos 0 };
  completed = 90;
  context = 91;
}

abbrev inner : Async
inner = phases 60 (pos 2) 61 4

abbrev outer : Async
outer = record (phases 70 (pos 1) 80 5) { child_async = some 3 }

abbrev world : World (List ℕ)
world = record {
  asyncs = λ p.
      if p == 3
      then some inner
      else (if p == 4
          then some outer
          else (if p == 5 then some (parent_at operation 1 false false (some 4)) else none));
  timeouts = init;
  rest = [];
}

p_q : ◌≢◌ {A = ℕ} 3 4
p_q h = absurd (omega arith)

p_op : ◌≢◌ {A = ℕ} 3 5
p_op h = absurd (omega arith)

q_op : ◌≢◌ {A = ℕ} 4 5
q_op h = absurd (omega arith)

not_pending : is_some (find_key no_key (pending init)) ≡ false
unfolding find_key init xrossfire.Avl.Root.init
not_pending = refl

inner-IsInner : IsInner 4 inner
inner-IsInner = record { one_holder = refl; inside = refl }

outer-Surrounds :
    Surrounds platform 3 4 operation p_q p_op q_op 70 80 act
      (λ phase error w. refl)
      (λ error r. error ∷ r)
      (λ error w. refl)
      0
      (pos 1)
      false
      false
      []
      world
outer-Surrounds = (
  record {
    here = refl;
    there = refl;
    rest_is = refl;
    valid = init-IsValid_lem;
    free = not_pending;
  },
  not_pending,
)

nested_faults_example : finish platform (notify platform 2) 3 7 world ≡ none
nested_faults_example =
    nested_faults platform 3 4 operation p_q p_op q_op 70 80 act (λ phase error w. refl)
      (λ error r. error ∷ r) (λ error w. refl) 0 0 7 (pos 1) false false inner [] world refl
      inner-IsInner refl outer-Surrounds
