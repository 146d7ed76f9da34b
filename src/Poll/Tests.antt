-- ===== src/Poll/Tests.antt =====
-- Runs of src/poll.c: a table with two procedures, and a full one.
use xrossfire.Base.{ℕ, zero, suc, ◌≡◌, ◌<◌, ◌⊎◌, refl, none, List, [], ◌∷◌, ◌++◌, Returns, arith}
use xrossfire.Poll.{Pollings, poll_add, poll_remove}
use xrossfire.Poll.Table.{capacity, IsValid, registered, poll_add_lem}
use xrossfire.Poll.Remove.{erase_first, poll_remove_lem}

abbrev zeros : ℕ → List ℕ
zeros zero = []
zeros (suc n) = 0 ∷ zeros n

abbrev two : Pollings
two = record { n_pollings = 2; pollings = 7 ∷ 8 ∷ zeros 14 }

two-IsValid : IsValid two
two-IsValid = record { slots = refl; bounded = omega arith }

poll_add_lem_example :
    (two.n_pollings < capacity)
      × Returns
          (poll_add two 9)
          (λ out. IsValid out × (registered out ≡ registered two ++ (9 ∷ [])))
    ⊎ (two.n_pollings ≡ capacity) × (poll_add two 9 ≡ none)
poll_add_lem_example = poll_add_lem two 9 two-IsValid

poll_remove_lem_example :
    Returns
      (poll_remove two 7)
      λ out. IsValid out × (registered out ≡ erase_first 7 (registered two))
poll_remove_lem_example = poll_remove_lem two 7 two-IsValid
