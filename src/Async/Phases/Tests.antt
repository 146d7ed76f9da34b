-- ===== src/Async/Phases/Tests.antt =====
-- A run of src/async.c: an operation of several phases.
use xrossfire.Base.{
  ℕ, ◌≡◌, ◌≢◌, refl, false, none, some, List, [], ◌∷◌, Returns, arith, ◌==◌, if◌then◌else◌,
}
use xrossfire.Base.Int.{ℤ, pos, negsuc}
use xrossfire.Avl.Sorted.{find_key}
use xrossfire.Timeout.{init, is_some}
use xrossfire.Timeout.Order.{handle_order}
use xrossfire.Timeout.Queue.{pending, init-IsValid_lem}
use xrossfire.Async.{Async, World, wait}
use xrossfire.Async.Notify.{Platform}
use xrossfire.Async.Create.{cleared, call, wait_result}
use xrossfire.Async.Phases.{Step, answer, call-answer}

-- An operation of two phases at address 4, called for a record that waits at address 5: its second
-- phase, the error phase after error 6, ends with error 8.
abbrev act : ℤ → ℕ → List ℕ → Step (List ℕ)
act (pos n) error r = record { after = 1 ∷ r; error = 6; next = some (pos 1) }
act (negsuc n) error r = record { after = 2 ∷ r; error = 8; next = none }

abbrev two_phases : Platform (List ℕ)
two_phases = record {
  completed = λ procedure error context w. some w;
  procedure = λ procedure self phase error context w. some (
    record w { rest = (act phase error w.rest).after },
    (act phase error w.rest).error,
    (act phase error w.rest).next,
  );
  cancel_io = λ handle r. (false, r);
  clear_io = λ io r. r;
}

abbrev waiter : Async
waiter = cleared (wait 0 0)

abbrev waiting_world : World (List ℕ)
waiting_world = record {
  asyncs = λ p. if p == 5 then some waiter else none;
  timeouts = init;
  rest = [];
}

apart : ◌≢◌ {A = ℕ} 4 5
apart h = absurd (omega arith)

not_pending : is_some (find_key waiter.timeout (pending init)) ≡ false
unfolding find_key init xrossfire.Avl.Root.init
not_pending = refl

call-answer_example :
    Returns (call 60 two_phases 1 (some 4) (pos 0) 70 80 (some 5) (pos 4) waiting_world) λ w'.
      wait_result 5 w' ≡ some (answer two_phases 4 5 apart 70 80 act (λ phase error w. refl) [])
call-answer_example =
    call-answer two_phases 4 5 apart 70 80 act (λ phase error w. refl) 60 0 (pos 0) (pos 4) waiter
      none waiting_world init-IsValid_lem (omega arith) refl not_pending
