-- ===== src/Object/Tests.antt =====
-- A run of src/object.c: an object that is kept twice, asked once and dropped twice.
use mathlib.Core.Option
use xrossfire.Base.{ℕ, ◌≡◌, refl, List, [], ◌∷◌}
use xrossfire.Base.Int.{pos}
use xrossfire.Object.{Object, Args, live, new}
use xrossfire.Object.Lifetime.{Call, retain, drop, query, run, live_run, state, run-new}

-- Logs the messages.
abbrev respond : ℕ → ℕ → Args → List ℕ → ℕ × List ℕ
respond procedure message_id args log = (0, message_id ∷ log)

abbrev object : Object
object = record { procedure = 70; ref = pos 1; user_data = 0 }

abbrev calls : List Call
calls = retain ∷ query 2 ∷ drop ∷ drop ∷ []

run-new_example :
    run respond calls (live object, [])
    ≡ Option.map (state respond 70 []) (live_run calls (1, 0, []))
unfolding new
run-new_example = run-new respond 70 [] calls 8 object refl
