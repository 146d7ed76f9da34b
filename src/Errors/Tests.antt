-- ===== src/Errors/Tests.antt =====
-- Runs of src/error.c: an error with a cause, and then another one.
use xrossfire.Base.{◌≡◌, refl, inl, none, some, [], ◌∷◌, arith}
use xrossfire.Base.Int.{pos}
use xrossfire.Text.{Text, initializer}
use xrossfire.Errors.{
  null, at, ErrorInfo, Errors, update, error_info_get, error_info_release, error_set_info,
}
use xrossfire.Errors.Chain.{IsChain, free_all, release_chain}
use xrossfire.Errors.Current.{error_set_info_current}

abbrev name : Text
name = initializer 40 (99 ∷ [])

abbrev low : ErrorInfo
low = record {
  ref = pos 1;
  code = pos 2;
  kind = some 40;
  message = none;
  content = 0;
  cause = null;
}

-- Two holders.
abbrev high : ErrorInfo
high = record {
  ref = pos 2;
  code = pos 3;
  kind = some 40;
  message = none;
  content = 0;
  cause = at 6;
}

abbrev errors : Errors
errors = record {
  infos = update 5 (some high) (update 6 (some low) λ p. none);
  strings = update 40 (some name) λ p. none;
  current = at 5;
}

errors-IsChain : IsChain errors.infos errors.strings errors.current (5 ∷ 6 ∷ [])
unfolding initializer
errors-IsChain = (
  refl,
  ((λ h. absurd (omega arith)), tt),
  high,
  refl,
  (name, refl, omega arith),
  tt,
  (refl, tt, low, refl, (name, refl, omega arith), tt, inl refl),
)

release_chain_example :
    error_info_release 3 (at 5) errors
    ≡ some (record errors { infos = free_all (5 ∷ 6 ∷ []) errors.infos })
release_chain_example = release_chain 3 (at 5) errors (5 ∷ 6 ∷ []) errors-IsChain (omega arith)

error_set_info_current_example : error_set_info 3 (error_info_get errors) errors ≡ none
error_set_info_current_example =
    error_set_info_current 3 errors 5 (6 ∷ []) errors-IsChain (omega arith)
