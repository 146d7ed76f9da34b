-- ===== src/Text/Tests.antt =====
-- Runs of src/string.c.
use mathlib.Core.Option
use xrossfire.Base.{ℕ, ◌≡◌, List, [], ◌∷◌}
use xrossfire.Base.Int.{pos}
use xrossfire.Text.{Text, initializer}
use xrossfire.Text.References.{retain, drop, run, holders, held, run-holders}

abbrev units : List ℕ
units = 42 ∷ 118 ∷ 52 ∷ []

abbrev made : Text
made = record { address = 9; ref = pos 1; length = 3; buf = 42 ∷ 118 ∷ 52 ∷ 0 ∷ [] }

abbrev constant : Text
constant = initializer 7 units

run-holders_example :
    run (retain ∷ drop ∷ drop ∷ []) (held made 1)
    ≡ Option.map (held made) (holders (retain ∷ drop ∷ drop ∷ []) 1)
run-holders_example = run-holders (retain ∷ drop ∷ drop ∷ []) made 1
