-- ===== src/Poll.antt =====
-- src/poll.c: the table of polling procedures and the polling loop.
--
-- `pollings` is an array of 16 slots, of which the first `n_pollings` are in use. A procedure is
-- its address, and what it answers or does is an argument. `xf_poll_add` writes past the array when
-- it is full, which is a fault here. The loop runs forever, so any number of its rounds is
-- modelled. A wait returns when the monitor is notified or the time is over.
pub mod Table
pub mod Remove
pub mod Wait
pub mod Tests
use xrossfire.Base.{
  ℕ, zero, suc, ◌+◌, ◌-◌, ◌*◌, ◌≡◌, Bool, true, false, Option, none, some, List, [], ◌∷◌, ◌==◌, ltb,
  ◌>>=◌, if◌then◌else◌, get_elem?, set, length,
}
use xrossfire.Base.Int.{ℤ, pos, ltb_ℤ}

pub record Pollings : Type 0 where
  pub n_pollings : ℕ
  pub pollings : List ℕ

-- A write to a slot of the array.
unfoldable pub store : List ℕ → ℕ → ℕ → Option (List ℕ)
store slots i p = if ltb i (length slots) then some (set slots i p) else none

unfoldable pub poll_add : Pollings → ℕ → Option Pollings
unfolding store
poll_add s obj = do
  slots ← store s.pollings s.n_pollings obj
  some (record { n_pollings = s.n_pollings + 1; pollings = slots })

-- `for (j = i; j + 1 < n_pollings; j++) pollings[j] = pollings[j+1];` with the rounds left, n.
unfoldable pub shift : ℕ → ℕ → List ℕ → Option (List ℕ)
unfolding store
shift zero j slots = some slots
shift (suc n) j slots = do
  p ← get_elem? slots (j + 1)
  slots' ← store slots j p
  shift n (j + 1) slots'

-- `for (i = i; i < n_pollings; i++)`, with the rounds left, n.
unfoldable pub poll_remove_from : ℕ → ℕ → Pollings → ℕ → Option Pollings
unfolding shift
poll_remove_from zero i s obj = some s
poll_remove_from (suc n) i s obj = do
  p ← get_elem? s.pollings i
  let rest = poll_remove_from n (i + 1) s obj
  if p == obj
      then (do
        slots ← shift n i s.pollings
        some (record { n_pollings = s.n_pollings - 1; pollings = slots }))
      else rest

unfoldable pub poll_remove : Pollings → ℕ → Option Pollings
unfolding poll_remove_from
poll_remove s obj = poll_remove_from s.n_pollings 0 s obj

-- The least of the answers, from `min_timeout` on; `ask` is the answer of a procedure to
-- XF_POLLING_GET_WAIT_TIMEOUT.
unfoldable pub least_from : ℕ → ℕ → List ℕ → (ℕ → ℤ) → ℤ → Option ℤ
least_from zero i slots ask min_timeout = some min_timeout
least_from (suc n) i slots ask min_timeout = do
  p ← get_elem? slots i
  least_from n (i + 1) slots ask (if ltb_ℤ (ask p) min_timeout then ask p else min_timeout)

unfoldable pub get_wait_timeout : Pollings → (ℕ → ℤ) → Option ℤ
unfolding least_from
get_wait_timeout s ask = least_from s.n_pollings 0 s.pollings ask (pos 300_000)

-- Calls each procedure with XF_POLLING_PROCESS, in order, on the state that they share.
module _ {ℓ} {S : Type ℓ} where
  unfoldable pub process_from : ℕ → ℕ → List ℕ → (ℕ → S → S) → S → Option S
  process_from zero i slots run s = some s
  process_from (suc n) i slots run s = do
    p ← get_elem? slots i
    process_from n (i + 1) slots run (run p s)

  unfoldable pub process : Pollings → (ℕ → S → S) → S → Option S
  unfolding process_from
  process t run s = process_from t.n_pollings 0 t.pollings run s

  -- One round of `xf_poll_loop`: `wait` is what the others do to the state while it waits.
  unfoldable pub poll_round : Pollings → (S → ℕ → ℤ) → (ℕ → S → S) → (ℤ → S → S) → S → Option S
  unfolding process get_wait_timeout
  poll_round t ask run wait s = do
    timeout ← get_wait_timeout t (ask s)
    if ltb_ℤ (pos 0) timeout then some (wait timeout s) else process t run s

-- What the procedures answer and do in a round, and what the others do while it waits.
pub record Round {ℓ} (S : Type ℓ) : Type ℓ where
  pub ask : S → ℕ → ℤ
  pub run : ℕ → S → S
  pub wait : ℤ → S → S

-- `xf_poll_loop` never ends: its first rounds.
unfoldable pub poll_loop {ℓ} : {S : Type ℓ} → Pollings → List (Round S) → S → Option S
poll_loop t [] s = some s
poll_loop t (r ∷ rs) s = poll_round t r.ask r.run r.wait s >>= λ s'. poll_loop t rs s'
