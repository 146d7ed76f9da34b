-- ===== src/Async/Ends/Tests.antt =====
-- Runs of src/async.c: an operation of one phase for one with a completion procedure.
use xrossfire.Base.{
  ℕ, ◌≡◌, ◌≢◌, refl, false, none, some, List, [], ◌∷◌, Returns, arith, ◌==◌, if◌then◌else◌,
}
use xrossfire.Base.Int.{ℤ, pos}
use xrossfire.Avl.Sorted.{find_key}
use xrossfire.Timeout.{init, is_some}
use xrossfire.Timeout.Order.{handle_order}
use xrossfire.Timeout.Queue.{pending, init-IsValid_lem}
use xrossfire.Async.{World}
use xrossfire.Async.Notify.{Platform, phase_exit}
use xrossfire.Async.Create.{call}
use xrossfire.Async.Counts.{Operation, no_io}
use xrossfire.Async.Phases.{Step}
use xrossfire.Async.Parent.{parent_at, Ended}
use xrossfire.Async.Ends.{after_phases, call_faults, call-Ended}

-- The operation at address 4 logs 1 and exits; its parent at address 5 logs the error.
abbrev act : ℤ → ℕ → List ℕ → Step (List ℕ)
act phase error r = record { after = 1 ∷ r; error = 0; next = some phase_exit }

abbrev log : ℕ → List ℕ → List ℕ
log error r = error ∷ r

abbrev platform : Platform (List ℕ)
platform = record {
  completed = λ procedure error context w. some (record w { rest = log error w.rest });
  procedure = λ procedure self phase error context w. some (
    record w { rest = (act phase error w.rest).after },
    (act phase error w.rest).error,
    (act phase error w.rest).next,
  );
  cancel_io = λ handle r. (false, r);
  clear_io = λ io r. r;
}

abbrev operation : Operation
operation = record {
  address = 5;
  io = no_io;
  key = record { id = 0; timestamp = pos 0 };
  completed = 90;
  context = 91;
}

abbrev held_by : ℕ → World (List ℕ)
held_by n = record {
  asyncs = λ p. if p == 5 then some (parent_at operation n false false none) else none;
  timeouts = init;
  rest = [];
}

apart : ◌≢◌ {A = ℕ} 4 5
apart h = absurd (omega arith)

not_pending : is_some (find_key operation.key (pending init)) ≡ false
unfolding find_key init xrossfire.Avl.Root.init
not_pending = refl

call_faults_example : call 60 platform 1 (some 4) (pos 0) 70 80 (some 5) (pos 4) (held_by 0) ≡ none
call_faults_example =
    call_faults platform 4 operation apart 70 80 act (λ phase error w. refl) log (λ error w. refl)
      60 0 0 (pos 0) (pos 4) false none (held_by 0) init-IsValid_lem (omega arith) refl not_pending
      refl

call-Ended_example :
    Returns (call 60 platform 1 (some 4) (pos 0) 70 80 (some 5) (pos 4) (held_by 1)) (
      Ended platform 4 operation apart log
        (λ error w. refl)
        0
        false
        (log 0 (after_phases platform 4 operation apart 70 80 act (λ phase error w. refl) [])))
call-Ended_example =
    call-Ended platform 4 operation apart 70 80 act (λ phase error w. refl) log (λ error w. refl) 60
      0 0 0 (pos 0) (pos 4) false none (held_by 1) init-IsValid_lem (omega arith) refl not_pending
      refl
