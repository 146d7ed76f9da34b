-- ===== src/Text/References.antt =====
-- src/string.c: the reference count.
use mathlib.Core.Option
use xrossfire.Base.{ℕ, zero, suc, ◌≡◌, refl, Option, none, some, true, List, [], ◌∷◌, arith, ◌>>=◌}
use xrossfire.Base.Int.{ℤ, pos, ltb_ℤ, ◌<ℤ◌}
use xrossfire.Text.{Text, Cell, live, freed, release, add_ref}

pub data Call : Type 0 where
  retain drop : Call

-- The calls in turn on the string of a cell; a call on freed memory is a fault.
unfoldable pub run : List Call → Cell → Option Cell
run [] c = some c
run (k ∷ ks) freed = none
run (retain ∷ ks) (live s) = add_ref (some s) >>= λ t. run ks (live t)
run (drop ∷ ks) (live s) = release (some s) >>= run ks

-- The number of holders after the calls, none if a call comes after the last holder has gone.
unfoldable pub holders : List Call → ℕ → Option ℕ
holders [] n = some n
holders (k ∷ ks) zero = none
holders (retain ∷ ks) (suc n) = holders ks (suc (suc n))
holders (drop ∷ ks) (suc n) = holders ks n

-- What is left of a string with so many holders.
abbrev pub held : Text → ℕ → Cell
held s zero = freed
held s (suc n) = live (record s { ref = pos (suc n) })

add_ref-held :
    (s : Text) (n : ℕ)
    → add_ref (some (record s { ref = pos (suc n) })) ≡ some (record s { ref = pos (suc (suc n)) })
unfolding add_ref
add_ref-held s n = ground arith

release-held :
    (s : Text) (n : ℕ) → release (some (record s { ref = pos (suc n) })) ≡ some (held s n)
unfolding release
release-held s zero = refl
release-held s (suc n) = ground arith

-- Through any calls of `add_ref` and `release` on a string with a positive count, the count is
-- the number of holders: the string is freed when the last of them releases it and not before,
-- and the calls fault exactly when one of them comes after that.
pub run-holders :
    (ks : List Call) (s : Text) (n : ℕ) → run ks (held s n) ≡ Option.map (held s) (holders ks n)
unfolding run holders
run-holders [] s n = refl
run-holders (k ∷ ks) s zero = refl
run-holders (retain ∷ ks) s (suc n) = rw (add_ref-held s n) (run-holders ks s (suc (suc n)))
run-holders (drop ∷ ks) s (suc n) = rw (release-held s n) (run-holders ks s n)

negative : (a : ℤ) → a <ℤ pos 0 → ltb_ℤ a (pos 0) ≡ true
negative a h = ground arith

-- No calls change a static string, whose count is negative, and none of them frees it.
pub run_static : (ks : List Call) (s : Text) → s.ref <ℤ pos 0 → run ks (live s) ≡ some (live s)
unfolding run add_ref release
run_static [] s h = refl
run_static (retain ∷ ks) s h = rw (negative s.ref h) (run_static ks s h)
run_static (drop ∷ ks) s h = rw (negative s.ref h) (run_static ks s h)
