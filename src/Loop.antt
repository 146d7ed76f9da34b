-- ===== src/Loop.antt =====
-- src/timeout.c in src/poll.c: the table of timeouts as the procedure that the loop asks and runs.
--
-- The loop's state is the table, none after a fault. Every procedure that is registered is the one
-- of the table. It reads the clock when it is asked and again when it is run.
pub mod Round
pub mod Rounds
pub mod Tests
use xrossfire.Base.{ℕ, Option, none, some, ◌>>=◌}
use xrossfire.Base.Int.{ℤ, pos}
use xrossfire.Timeout.{Timeout, Timeouts, wait_timeout}
use xrossfire.Timeout
use xrossfire.Poll.{Pollings, poll_add}

unfoldable pub timeout_init : Pollings → ℕ → Option (Pollings × Timeouts)
timeout_init pollings procedure = poll_add pollings procedure >>= λ p. some (p, Timeout.init)

-- The two methods of `xf_timeout_poll_procedure`.
unfoldable pub ask_procedure : ℤ → Option Timeouts → ℕ → ℤ
ask_procedure ticks none procedure = pos 0
ask_procedure ticks (some s) procedure = wait_timeout s ticks

unfoldable pub run_procedure :
    ℕ → ℤ → (Timeout → Timeouts → Timeouts) → ℕ → Option Timeouts → Option Timeouts
run_procedure fuel ticks fire procedure s =
    s >>= λ t. Timeout.process fuel ticks fire t >>= λ out. some out.0
