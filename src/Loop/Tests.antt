-- ===== src/Loop/Tests.antt =====
-- Two rounds of the loop over a table with one timeout, due at 5.
use xrossfire.Base.{ℕ, zero, suc, ◌≤◌, refl, some, List, [], ◌∷◌, Returns, arith}
use xrossfire.Base.Int.{ℤ, pos}
use xrossfire.Avl.{null, node, get_height}
use xrossfire.Timeout.{Timeout, Timeouts}
use xrossfire.Timeout.Queue.{IsValid, pending}
use xrossfire.Timeout.Process.{count_due}
use xrossfire.Poll.{Pollings, poll_loop}
use xrossfire.Loop.Rounds.{Turn, IsTurn, rounds_of, Trace, poll_loop-Trace}

abbrev zeros : ℕ → List ℕ
zeros zero = []
zeros (suc n) = 0 ∷ zeros n

abbrev one : Pollings
one = record { n_pollings = 1; pollings = 7 ∷ zeros 15 }

abbrev first : Timeout
first = record {
  address = 20;
  key = record { id = 0; timestamp = pos 5 };
  value = record { procedure = 50; context = 60 };
}

abbrev timeouts : Timeouts
timeouts = record { tree = record { root = node null 1 first null }; seq = 1 }

timeouts-IsValid : IsValid timeouts
unfolding get_height
timeouts-IsValid = record {
  tree = record { avl = (refl, omega arith, omega arith, tt, tt); increasing = (tt, tt) };
  young = (omega arith, tt);
}

same : (t : ℤ) (s : Timeouts) → count_due t (pending s) ≤ count_due t (pending s)
same t s = omega arith

-- Nothing is added, neither by the callback nor while the loop waits.
abbrev turn : ℤ → ℤ → Turn
turn asked ran = record { asked = asked; ran = ran; fire = λ x s. s; wait = λ t s. s }

turn-IsTurn : (asked ran : ℤ) → IsTurn (turn asked ran)
turn-IsTurn asked ran = record {
  fires = λ x s v. v;
  calm = λ x s v. same ran s;
  waits = λ t s v. v;
}

-- A round that waits from 3 on, and one that runs what is due at 6.
abbrev turns : List Turn
turns = turn (pos 3) (pos 4) ∷ turn (pos 5) (pos 6) ∷ []

poll_loop-Trace_example :
    Returns (poll_loop one (rounds_of turns) (some timeouts)) (Trace turns timeouts)
poll_loop-Trace_example =
    poll_loop-Trace one 7 refl (record { slots = refl; bounded = omega arith }) turns timeouts
      (turn-IsTurn (pos 3) (pos 4), (turn-IsTurn (pos 5) (pos 6), tt)) timeouts-IsValid
