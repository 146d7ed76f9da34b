-- ===== src/Port/Tests.antt =====
-- Runs of src/win32/io_completion_port.c, over a log of the operations that are completed.
use xrossfire.Base.{ℕ, ◌<◌, ◌≡◌, refl, false, Option, none, some, List, [], ◌∷◌, arith}
use xrossfire.Base.Int.{pos, ◌≤ℤ◌, ◌-ℤ◌}
use xrossfire.Port.{Packet, exit, handle, System, initial, register, enter_loop}
use xrossfire.Port.Workers.{
  PoolSteps, registered, entered, done, more, IsCounted, reachable-IsCounted,
}
use xrossfire.Port.Drain.{pool, drain}
use xrossfire.Port.Settle.{IsIdle, Settles, register-Settles}

abbrev log : ℕ → ℕ → ℕ → List ℕ → List ℕ
log error transfered command rest = command ∷ rest

abbrev start : ℕ → Option ℕ
start n = none

abbrev fresh : System (List ℕ)
fresh = initial []

abbrev after : System (List ℕ)
after = (register 5 0 start fresh).0

after-starting : after.starting ≡ 8
unfolding register xrossfire.Port.prepare_thread xrossfire.Port.start_threads initial ◌-ℤ◌
after-starting = refl

reachable-IsCounted_example :
    IsCounted after
    × ((enter_loop after).running < after.running
        → after.max_workers ≤ℤ pos (enter_loop after).running)
reachable-IsCounted_example =
    reachable-IsCounted log [] after (enter_loop after)
      (more fresh fresh after (done fresh) (registered 5 0 start fresh))
      (entered after (rw after-starting (omega arith)))

-- Three workers, and a maximum of two.
abbrev crowded : System (List ℕ)
crowded = record {
  max_workers = pos 2;
  current_workers = pos 3;
  exited = false;
  port = 5;
  starting = 0;
  running = 3;
  queue = [];
  rest = [];
}

abbrev packets : List Packet
packets = handle none 10 40 ∷ exit ∷ exit ∷ handle (some 7) 0 41 ∷ []

drain_example : PoolSteps log (pool 3 packets [] crowded) (pool 2 [] (41 ∷ 40 ∷ []) crowded)
drain_example = drain log 1 2 packets [] crowded refl refl

crowded-IsIdle : IsIdle 1 3 crowded
crowded-IsIdle = record {
  limit = refl;
  not_exited = refl;
  counted = refl;
  in_loop = refl;
  none_starting = refl;
  no_packet = refl;
}

register-Settles_example :
    ((register 5 0 start crowded).1 ≡ 0)
    × Settles log start (λ n. refl) 1 [] ((register 5 0 start crowded).0)
register-Settles_example =
    register-Settles log start (λ n. refl) 1 3 5 0 crowded (λ e. omega arith) crowded-IsIdle
