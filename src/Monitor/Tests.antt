-- ===== src/Monitor/Tests.antt =====
-- A run of the threads: the polling thread falls asleep, a thread schedules a timeout for 5 and wakes
-- it, and it falls asleep again until 5.
use xrossfire.Base.{
  ℕ, zero, suc, ◌<◌, ◌≡◌, ◌≢◌, ◌⊎◌, refl, false, true, ◌||◌, List, [], ◌∷◌, All, arith,
}
use xrossfire.Base.Int.{ℤ, pos, ◌+ℤ◌, ◌-ℤ◌, ◌≤ℤ◌, leb_ℤ}
use xrossfire.Avl.Root
use xrossfire.Timeout.{Callback, Timeout, init, schedule, wait_timeout}
use xrossfire.Timeout.Process.{IsDue}
use xrossfire.Timeout.Queue.{pending}
use xrossfire.Poll.{Pollings, get_wait_timeout}
use xrossfire.Poll.Table
use xrossfire.Monitor.{
  Owner, nobody, client, sleeping, calling, ClientPc, outside, scheduling, notifying, System,
  Outcome, moved, blocked, faulted, at_client, move_poller, move_client, Step, poller_moves,
  client_moves, schedules, passes, initial, Reach, start, later,
}
use xrossfire.Monitor.Inside.{is_inside}
use xrossfire.Monitor.Bound.{From}
use xrossfire.Monitor.Reached.{Reach-IsSafe, exclusion, sleeping-From}
use xrossfire.Monitor.Moves.{Moves, Rests, reached-Moves}
use xrossfire.Monitor.Runs.{run_poller, Calls, sleeping-Calls}

abbrev zeros : ℕ → List ℕ
zeros zero = []
zeros (suc n) = 0 ∷ zeros n

abbrev one : Pollings
one = record { n_pollings = 1; pollings = 7 ∷ zeros 15 }

one-IsValid : Table.IsValid one
one-IsValid = record { slots = refl; bounded = omega arith }

one_polling : 0 < one.n_pollings
one_polling = omega arith

abbrev callback : Callback
callback = record { procedure = 50; context = 60 }

-- What happens next: a turn of the polling thread or of client 4, a call of it, and time.
data Event : Type 0 where
  poll : Event
  goes : Event
  calls : (self timeout : ℕ) → Event
  lasts : ℕ → Event

abbrev Run : Type 0
Run = (s : System) × Reach one (pos 0) s

follow :
    (s : System)
    → Reach one (pos 0) s
    → (o : Outcome) → ((t : System) → o ≡ moved t → Step one s t)
    → Run
follow s r (moved t) step = (t, later r (step t refl))
follow s r blocked step = (s, r)
follow s r faulted step = (s, r)

call_of : (s : System) → Reach one (pos 0) s → ℕ → ℤ → (pc : ClientPc) → s.clients 4 ≡ pc → Run
call_of s r self timeout outside e = (
  at_client 4 (scheduling self timeout callback s.clock) s,
  later r (schedules 4 self timeout callback e),
)
call_of s r self timeout _ e = (s, r)

grows : (a : ℤ) (n : ℕ) → a ≤ℤ a +ℤ pos n
unfolding ◌+ℤ◌
grows a n = ground arith

happens : Event → Run → Run
unfolding follow call_of
happens poll (s, r) = follow s r (move_poller one s.poller s) (λ t e. poller_moves e)
happens goes (s, r) = follow s r (move_client 4 (s.clients 4) s) (λ t e. client_moves 4 e)
happens (calls self timeout) (s, r) = call_of s r self (pos timeout) (s.clients 4) refl
happens (lasts n) (s, r) =
    (record s { clock = s.clock +ℤ pos n }, later r (passes (s.clock +ℤ pos n) (grows s.clock n)))

run : List Event → Run → Run
unfolding happens
run [] x = x
run (e ∷ es) x = run es (happens e x)

-- The polling thread has fallen asleep for five minutes.
abbrev alone : List Event
alone = poll ∷ poll ∷ poll ∷ []

-- Client 4 has scheduled a timeout at address 20 for 5, which is the first.
abbrev scheduled : List Event
scheduled = calls 20 5 ∷ goes ∷ goes ∷ []

abbrev awake : List Event
awake = goes ∷ goes ∷ poll ∷ poll ∷ poll ∷ poll ∷ []

abbrev from_start : Run
from_start = (initial (pos 0), start)

abbrev inserted : Run
inserted = run scheduled (run alone from_start)

abbrev asleep : Run
asleep = run awake inserted

abbrev timed_out : Run
timed_out = run (lasts 6 ∷ []) asleep

abbrev in_callback : Run
in_callback = run (poll ∷ poll ∷ poll ∷ poll ∷ poll ∷ []) timed_out

client_inside : is_inside inserted.0 (client 4) ≡ true
unfolding run move_client move_poller get_wait_timeout wait_timeout Root.get_min
    xrossfire.Avl.Pop.get_min init Root.init schedule Root.insert xrossfire.Avl.Insert.insert_node
    ◌+ℤ◌ ◌-ℤ◌
client_inside = refl

exclusion_example : ◌≡◌ {A = Owner} (client 4) (client 4)
exclusion_example =
    exclusion one one-IsValid one_polling inserted.1 (client 4) (client 4) client_inside
      client_inside

falls_asleep : asleep.0.poller ≡ sleeping (pos 0) (pos 5) (pos 5) false
unfolding run move_client move_poller get_wait_timeout wait_timeout Root.get_min
    xrossfire.Avl.Pop.get_min init Root.init schedule Root.insert xrossfire.Avl.Insert.insert_node
    ◌+ℤ◌ ◌-ℤ◌
falls_asleep = refl

quiet : (k : ℕ) → asleep.0.clients k ≢ notifying true
unfolding run move_client move_poller get_wait_timeout wait_timeout Root.get_min
    xrossfire.Avl.Pop.get_min init Root.init schedule Root.insert xrossfire.Avl.Insert.insert_node
    ◌+ℤ◌ ◌-ℤ◌
quiet k = λ e. ground arith

sleeping-From_example : All (From (pos 0 +ℤ pos 5)) (pending asleep.0.timeouts)
sleeping-From_example =
    sleeping-From one one-IsValid one_polling asleep.1 (pos 0) (pos 5) (pos 5) falls_asleep quiet

reached-Moves_example :
    Moves (move_poller one asleep.0.poller asleep.0)
    ⊎ ((k : ℕ) × Moves (move_client k (asleep.0.clients k) asleep.0))
    ⊎ Rests asleep.0
reached-Moves_example = reached-Moves one one-IsValid one_polling asleep.1

abbrev first : Timeout
first = record { address = 20; key = record { id = 0; timestamp = pos 5 }; value = callback }

calls_first : in_callback.0.poller ≡ calling 0 (pos 6) first
unfolding run move_client move_poller get_wait_timeout wait_timeout Root.get_min
    xrossfire.Avl.Pop.get_min init Root.init schedule Root.insert xrossfire.Avl.Insert.insert_node
    ◌+ℤ◌ ◌-ℤ◌ Root.remove_min xrossfire.Avl.Pop.remove_min
calls_first = refl

sleeps_on : timed_out.0.poller ≡ sleeping (pos 0) (pos 5) (pos 5) false
unfolding run move_client move_poller get_wait_timeout wait_timeout Root.get_min
    xrossfire.Avl.Pop.get_min init Root.init schedule Root.insert xrossfire.Avl.Insert.insert_node
    ◌+ℤ◌ ◌-ℤ◌
sleeps_on = refl

nobody_inside : timed_out.0.owner ≡ nobody
unfolding run move_client move_poller get_wait_timeout wait_timeout Root.get_min
    xrossfire.Avl.Pop.get_min init Root.init schedule Root.insert xrossfire.Avl.Insert.insert_node
    ◌+ℤ◌ ◌-ℤ◌
nobody_inside = refl

is_over : (false || leb_ℤ (pos 5) timed_out.0.clock) ≡ true
unfolding run move_client move_poller get_wait_timeout wait_timeout Root.get_min
    xrossfire.Avl.Pop.get_min init Root.init schedule Root.insert xrossfire.Avl.Insert.insert_node
    ◌+ℤ◌ ◌-ℤ◌
is_over = refl

only_first : pending timed_out.0.timeouts ≡ first ∷ []
unfolding run move_client move_poller get_wait_timeout wait_timeout Root.get_min
    xrossfire.Avl.Pop.get_min init Root.init schedule Root.insert xrossfire.Avl.Insert.insert_node
    ◌+ℤ◌ ◌-ℤ◌
only_first = refl

first-IsDue : IsDue timed_out.0.clock first
unfolding run move_client move_poller get_wait_timeout wait_timeout Root.get_min
    xrossfire.Avl.Pop.get_min init Root.init schedule Root.insert xrossfire.Avl.Insert.insert_node
    ◌+ℤ◌ ◌-ℤ◌
first-IsDue = omega arith

sleeping-Calls_example : Calls timed_out.0 first [] (run_poller one 5 timed_out.0)
sleeping-Calls_example =
    sleeping-Calls one one-IsValid one_polling first [] timed_out.0 (pos 0) (pos 5) (pos 5) false
      (Reach-IsSafe one one-IsValid one_polling timed_out.1).valid nobody_inside sleeps_on is_over
      only_first first-IsDue
