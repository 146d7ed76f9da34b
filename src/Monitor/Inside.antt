-- ===== src/Monitor/Inside.antt =====
-- src/poll.c and src/timeout.c: who is inside the monitor.
use xrossfire.Base.{ℕ, ◌≡◌, refl, Bool, true, false, ==_iff, arith}
use xrossfire.Monitor.{
  Owner, nobody, polling, client, PollPc, starting, asking, waiting, sleeping, waking, running,
  processing, calling, ClientPc, inserting, notifying, removing, leaving, System, set_client,
  monitor_notify,
}

abbrev pub inside_poller : PollPc → Bool
inside_poller asking = true
inside_poller (waiting asked timeout) = true
inside_poller (running left) = true
inside_poller (processing left ticks) = true
inside_poller _ = false

abbrev pub inside_client : ClientPc → Bool
inside_client (inserting self timeout callback ticks) = true
inside_client (notifying woken) = true
inside_client (removing key) = true
inside_client leaving = true
inside_client _ = false

-- The thread is between the entry and the exit.
abbrev pub is_inside : System → Owner → Bool
is_inside s nobody = false
is_inside s polling = inside_poller s.poller
is_inside s (client k) = inside_client (s.clients k)

-- The owner is inside, and nobody else.
pub record Owned (owner : Owner) (poller : PollPc) (clients : ℕ → ClientPc) : Type 0 where
  pub poller_owns : inside_poller poller ≡ true → owner ≡ polling
  pub poller_inside : owner ≡ polling → inside_poller poller ≡ true
  pub client_owns : (k : ℕ) → inside_client (clients k) ≡ true → owner ≡ client k
  pub client_inside : (k : ℕ) → owner ≡ client k → inside_client (clients k) ≡ true

module _ {owner : Owner} {poller : PollPc} {clients : ℕ → ClientPc}
    (o : Owned owner poller clients) where
  pub poller_stays :
      (pc : PollPc) → inside_poller pc ≡ inside_poller poller → Owned owner pc clients
  poller_stays pc e = record {
    poller_owns = λ h. ground (arith, o.poller_owns);
    poller_inside = λ h. ground (arith, o.poller_inside);
    client_owns = o.client_owns;
    client_inside = o.client_inside;
  }

  pub poller_enters :
      (pc : PollPc) → owner ≡ nobody → inside_poller pc ≡ true → Owned polling pc clients
  poller_enters pc e h = record {
    poller_owns = λ _. refl;
    poller_inside = λ _. h;
    client_owns = λ k i. cc (o.client_owns k i);
    client_inside = λ k i. cc;
  }

  pub poller_leaves :
      (pc : PollPc)
      → inside_poller poller ≡ true
      → inside_poller pc ≡ false
      → Owned nobody pc clients
  poller_leaves pc e h = record {
    poller_owns = λ i. cc;
    poller_inside = λ i. cc;
    client_owns = λ k i. cc (o.client_owns k i, o.poller_owns e);
    client_inside = λ k i. cc;
  }

  pub client_stays :
      (k : ℕ) (pc : ClientPc)
      → inside_client pc ≡ inside_client (clients k)
      → Owned owner poller (set_client k pc clients)
  client_stays k pc e = record {
    poller_owns = o.poller_owns;
    poller_inside = o.poller_inside;
    client_owns = λ j i. ground (arith, o.client_owns j, ==_iff j k);
    client_inside = λ j i. ground (arith, o.client_inside j, ==_iff j k);
  }

  pub client_enters :
      (k : ℕ) (pc : ClientPc)
      → owner ≡ nobody
      → inside_client pc ≡ true
      → Owned (client k) poller (set_client k pc clients)
  client_enters k pc e h = record {
    poller_owns = λ i. cc (o.poller_owns i);
    poller_inside = λ i. cc;
    client_owns = λ j i. ground (arith, o.client_owns j, ==_iff j k);
    client_inside = λ j i. ground (arith, ==_iff j k);
  }

  pub client_leaves :
      (k : ℕ) (pc : ClientPc)
      → inside_client (clients k) ≡ true
      → inside_client pc ≡ false
      → Owned nobody poller (set_client k pc clients)
  client_leaves k pc e h = record {
    poller_owns = λ i. cc (o.poller_owns i, o.client_owns k e);
    poller_inside = λ i. cc;
    client_owns = λ j i. ground (arith, o.client_owns j, o.client_owns k, ==_iff j k);
    client_inside = λ j i. cc;
  }

  -- At most one thread is inside.
  pub alone :
      (j k : ℕ) → inside_client (clients j) ≡ true → inside_client (clients k) ≡ true → j ≡ k
  alone j k h i = cc (o.client_owns j h, o.client_owns k i)

  pub apart : (k : ℕ) → inside_client (clients k) ≡ true → inside_poller poller ≡ false
  apart k h = ground (arith, o.client_owns k, o.poller_owns)

pub notify_inside : (pc : PollPc) → inside_poller (monitor_notify pc) ≡ inside_poller pc
notify_inside starting = refl
notify_inside asking = refl
notify_inside (waiting asked timeout) = refl
notify_inside (sleeping asked timeout deadline woken) = refl
notify_inside waking = refl
notify_inside (running left) = refl
notify_inside (processing left ticks) = refl
notify_inside (calling left ticks node) = refl
