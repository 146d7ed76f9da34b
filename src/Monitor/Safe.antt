-- ===== src/Monitor/Safe.antt =====
-- src/poll.c and src/timeout.c: what holds between the steps of the threads.
use xrossfire.Base.{ℕ, ◌≡◌, ◌⊎◌, refl, Bool, true, inl, inr, List, ==_iff, All, arith}
use xrossfire.Base.Int.{ℤ, pos, ◌+ℤ◌, ◌≤ℤ◌, ◌<ℤ◌}
use xrossfire.Timeout.{Timeout}
use xrossfire.Timeout.Queue.{IsValid, pending}
use xrossfire.Monitor.{
  Owner, nobody, polling, client, PollPc, waiting, sleeping, processing, calling, ClientPc,
  notifying, System, Outcome, moved, blocked, faulted, set_client, monitor_enter, after_enter,
}
use xrossfire.Monitor.Inside.{Owned}
use xrossfire.Monitor.Bound.{From}

-- A thread has scheduled what is now the first timeout, and is about to notify.
abbrev pub Notifier : (ℕ → ClientPc) → Type 0
Notifier clients = (k : ℕ) × (clients k ≡ notifying true)

-- The sleeping thread is woken, or will be, or has nothing to do before `time`.
abbrev pub Covered : (ℕ → ClientPc) → Bool → ℤ → List Timeout → Type 0
Covered clients woken time es = (woken ≡ true) ⊎ Notifier clients ⊎ All (From time) es

-- What the place of the polling thread says of the rest.
abbrev pub Expects : PollPc → ℤ → (ℕ → ClientPc) → List Timeout → Type 0
Expects (waiting asked timeout) clock clients es =
    (pos 0 <ℤ timeout) × (asked ≤ℤ clock) × All (From (asked +ℤ timeout)) es
Expects (sleeping asked timeout deadline woken) clock clients es =
    (asked +ℤ timeout ≤ℤ deadline) × Covered clients woken (asked +ℤ timeout) es
Expects (processing left ticks) clock clients es = ticks ≤ℤ clock
Expects (calling left ticks node) clock clients es =
    (node.key.timestamp ≤ℤ ticks) × (ticks ≤ℤ clock)
Expects _ clock clients es = Unit

pub record IsSafe (s : System) : Type 0 where
  pub owned : Owned s.owner s.poller s.clients
  pub valid : IsValid s.timeouts
  pub expects : Expects s.poller s.clock s.clients (pending s.timeouts)

-- A turn does not fault, and what it leads to satisfies P.
abbrev pub Allows : (System → Type 0) → Outcome → Type 0
Allows P (moved s) = P s
Allows P blocked = Unit
Allows P faulted = ⊥

pub enter-Allows :
    (P : System → Type 0) (who : Owner) (go : System → System) (s : System)
    → (s.owner ≡ nobody → P (go (record s { owner = who })))
    → Allows P (after_enter go (monitor_enter who s))
enter-Allows P who go s f = by_owner s.owner refl
  where
    by_owner :
        (owner : Owner)
        → s.owner ≡ owner
        → Allows P (
            after_enter go (elim owner as (λ _. Outcome) [
              | nobody ↦ moved (record s { owner = who })
              | polling ↦ blocked
              | client k ↦ blocked
            ]))
    by_owner nobody e = f e
    by_owner polling e = tt
    by_owner (client k) e = tt

-- Another client's notification is still due.
pub Notifier-others :
    (clients : ℕ → ClientPc) (k : ℕ) (pc : ClientPc)
    → (clients k ≡ notifying true → ⊥)
    → Notifier clients
    → Notifier (set_client k pc clients)
Notifier-others clients k pc other (j, e) = (j, ground (arith, ==_iff j k))

pub Covered-others :
    (clients : ℕ → ClientPc) (k : ℕ) (pc : ClientPc) (woken : Bool) (time : ℤ) (es : List Timeout)
    → (clients k ≡ notifying true → ⊥)
    → Covered clients woken time es
    → Covered (set_client k pc clients) woken time es
Covered-others clients k pc woken time es other (inl e) = inl e
Covered-others clients k pc woken time es other (inr (inl n)) =
    inr (inl (Notifier-others clients k pc other n))
Covered-others clients k pc woken time es other (inr (inr a)) = inr (inr a)

-- A client that does not touch the table and was not about to notify.
pub Expects-others :
    (poller : PollPc) (clock : ℤ) (clients : ℕ → ClientPc) (k : ℕ) (pc : ClientPc)
    (es : List Timeout)
    → (clients k ≡ notifying true → ⊥)
    → Expects poller clock clients es
    → Expects poller clock (set_client k pc clients) es
Expects-others (sleeping asked timeout deadline woken) clock clients k pc es other (h, c) =
    (h, Covered-others clients k pc woken (asked +ℤ timeout) es other c)
Expects-others (waiting asked timeout) clock clients k pc es other x = x
Expects-others (processing left ticks) clock clients k pc es other x = x
Expects-others (calling left ticks node) clock clients k pc es other x = x
Expects-others _ clock clients k pc es other x = x

-- The clock moves on.
pub Expects-later :
    (poller : PollPc) (clock later : ℤ) (clients : ℕ → ClientPc) (es : List Timeout)
    → clock ≤ℤ later
    → Expects poller clock clients es
    → Expects poller later clients es
Expects-later (waiting asked timeout) clock later clients es h (p, q, a) = (p, omega arith, a)
Expects-later (processing left ticks) clock later clients es h x = omega arith
Expects-later (calling left ticks node) clock later clients es h (d, x) = (d, omega arith)
Expects-later (sleeping asked timeout deadline woken) clock later clients es h x = x
Expects-later _ clock later clients es h x = x
