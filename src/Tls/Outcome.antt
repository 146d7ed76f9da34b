-- ===== src/Tls/Outcome.antt =====
-- src/win32/ssl_socket.c: the states that the phases of the handshake leave, and the statuses.
use xrossfire.Base.{ℕ, ◌≡◌, ◌⊎◌, inl, inr, refl, Option, none, some}
use xrossfire.Base.Int.{ℤ, pos}
use xrossfire.Async.Notify.{phase_exit}
use xrossfire.Object.{xf_error}
use xrossfire.Tls.Handshake.{
  Status, refused, continue_needed, ok, other, Context, Handshake, PhaseAnswers, Turn,
  handshake_procedure,
}

-- A status with which the third phase goes on.
abbrev pub IsGood : Status → Type 0
IsGood continue_needed = Unit
IsGood ok = Unit
IsGood _ = ⊥

-- A status that the code expects.
abbrev pub IsKnown : Status → Type 0
IsKnown other = ⊥
IsKnown _ = Unit

abbrev pub IsExpected : PhaseAnswers → Type 0
IsExpected answers = IsKnown answers.status

-- The context is live, with the base socket and two references of it, and fits the phase.
pub record Ready (base n : ℕ) (s : Handshake) : Type 0 where
  pub context : Context
  pub live : s.context ≡ some context
  pub based : context.base_socket ≡ some base
  pub counted : s.references ≡ 2
  pub fits : (n ≡ 4) ⊎ (n ≡ 3) × IsGood context.status
  pub not_given : s.object ≡ none

-- The object has the base socket, with two references of it, and the context is freed.
abbrev pub Done : ℕ → Turn → Type 0
Done base (s, error, next) =
    (error ≡ 0)
    × (next ≡ some phase_exit)
    × (s.context ≡ none)
    × (s.references ≡ 2)
    × ((object : ℕ) × (s.object ≡ some (object, some base)))

-- No object has the base socket, with one reference of it, and the context is freed.
abbrev pub Failed : Turn → Type 0
Failed (s, error, next) =
    (error ≡ xf_error) × (next ≡ none) × (s.context ≡ none) × (s.references ≡ 1) × (s.object ≡ none)

abbrev pub Going : ℕ → Turn → Type 0
Going base (s, error, next) = (error ≡ 0) × ((n : ℕ) × (next ≡ some (pos n)) × Ready base n s)

abbrev pub After : ℕ → Turn → Type 0
After base turn = Going base turn ⊎ Done base turn ⊎ Failed turn

-- What the phases come to, and what is left of it under `xf_async_run_next_phase`.
abbrev pub Fate : ℕ → Turn → Option Turn → Type 0
Fate base turn out =
    (Going base turn ⊎ Done base turn) × (out ≡ some turn) ⊎ Failed turn × (out ≡ none)

-- Any use of a context that has been freed.
pub freed_faults :
    (answers : PhaseAnswers) (phase : ℤ) (error : ℕ) (s : Handshake)
    → s.context ≡ none
    → handshake_procedure answers phase error s ≡ none
unfolding handshake_procedure
freed_faults answers phase error s freed = rw freed refl

pub good_cases : (status : Status) → IsGood status → (status ≡ continue_needed) ⊎ (status ≡ ok)
good_cases refused h = absurd h
good_cases continue_needed h = inl refl
good_cases ok h = inr refl
good_cases other h = absurd h

pub expected_cases :
    (status : Status)
    → IsKnown status
    → (status ≡ refused) ⊎ (status ≡ continue_needed) ⊎ (status ≡ ok)
expected_cases refused h = inl refl
expected_cases continue_needed h = inr (inl refl)
expected_cases ok h = inr (inr refl)
expected_cases other h = absurd h
