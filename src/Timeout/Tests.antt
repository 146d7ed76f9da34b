-- ===== src/Timeout/Tests.antt =====
-- Runs of src/timeout.c: a table with two timeouts, due at 5 and at 9.
use xrossfire.Base.{ℕ, ◌+◌, ◌≡◌, ◌<◌, ◌≤◌, refl, ◌++◌, Returns, arith}
use xrossfire.Base.Int.{pos}
use xrossfire.Avl.{null, node, get_height}
use xrossfire.Timeout.{Callback, Timeout, Timeouts, schedule, cancel, process}
use xrossfire.Timeout.Order.{Handle, handle_order, compare_handles}
use xrossfire.Timeout.Queue.{
  pending, IsValid, Schedules, schedule-Schedules, Cancels, cancel-Cancels,
}
use xrossfire.Timeout.Process.{count_due, Processes, process-Processes}
use xrossfire.Timeout.Drain.{leave_alone, process_drains}

abbrev handle : ℕ → ℕ → Handle
handle id at = record { id = id; timestamp = pos at }

abbrev callback : Callback
callback = record { procedure = 50; context = 60 }

abbrev timeout : ℕ → ℕ → Timeout
timeout id at = record { address = 20 + id; key = handle id at; value = callback }

abbrev queue : Timeouts
queue = record {
  tree = record { root = node null 2 (timeout 1 5) (node null 1 (timeout 0 9) null) };
  seq = 2;
}

queue-IsValid : IsValid queue
unfolding get_height handle_order compare_handles
queue-IsValid = record {
  tree = record {
    avl = (refl, omega arith, omega arith, tt, (refl, omega arith, omega arith, tt, tt));
    increasing = ((refl, tt), (tt, tt));
  };
  young = (omega arith, (omega arith, tt));
}

same : (s : Timeouts) → count_due (pos 6) (pending s) ≤ count_due (pos 6) (pending s)
same s = omega arith

one_due : count_due (pos 6) (pending queue) < 2
unfolding count_due
one_due = omega arith

schedule-Schedules_example :
    Returns
      (schedule queue 30 (pos 4) callback (pos 3))
      (Schedules queue 30 (pos 4) callback (pos 3))
schedule-Schedules_example = schedule-Schedules queue 30 (pos 4) callback (pos 3) queue-IsValid

cancel-Cancels_example : Returns (cancel queue (handle 0 9)) (Cancels queue (handle 0 9))
cancel-Cancels_example = cancel-Cancels queue (handle 0 9) queue-IsValid

process-Processes_example : Returns (process 2 (pos 6) (λ x s. s) queue) (Processes (pos 6))
process-Processes_example =
    process-Processes (pos 6) (λ x s. s) (λ x s v. v) (λ x s v. same s) 2 queue queue-IsValid
      one_due

process_drains_example :
    Returns
      (process 2 (pos 6) leave_alone queue)
      λ out. Processes (pos 6) out × (out.1 ++ pending out.0 ≡ pending queue)
process_drains_example = process_drains 2 (pos 6) queue queue-IsValid one_due
