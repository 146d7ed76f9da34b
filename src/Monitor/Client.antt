-- ===== src/Monitor/Client.antt =====
-- src/timeout.c: a step of a thread that schedules or cancels a timeout.
use xrossfire.Base.{
  ℕ, ◌≡◌, refl, sym, ap, ◌∙◌, Bool, true, false, inl, inr, List, head?, ==_self, Bool-cases,
}
use xrossfire.Base.Int.{ℤ, ◌+ℤ◌}
use xrossfire.Avl.Sorted.{erase_key}
use xrossfire.Avl.Cancel.{erase_key-All}
use xrossfire.Timeout.{Callback, Timeout, Timeouts, new_timeout, is_address}
use xrossfire.Timeout.Order.{Handle, handle_order}
use xrossfire.Timeout.Queue.{pending, Schedules, schedule-Schedules, cancel-Cancels}
use xrossfire.Monitor.{
  nobody, client, PollPc, starting, asking, waiting, sleeping, waking, running, processing, calling,
  ClientPc, outside, scheduling, inserting, notifying, cancelling, removing, leaving, System,
  set_client, at_client, monitor_leave, monitor_notify, move_client,
}
use xrossfire.Monitor.Inside.{
  inside_poller, inside_client, poller_stays, client_stays, client_enters, client_leaves, apart,
  notify_inside,
}
use xrossfire.Monitor.Bound.{From, insert_entry-From}
use xrossfire.Monitor.Safe.{
  Covered, Expects, IsSafe, Allows, enter-Allows, Notifier-others, Covered-others, Expects-others,
}

abbrev NotNotifying : ClientPc → Type 0
NotNotifying pc = pc ≡ notifying true → ⊥

-- The polling thread, while a client is inside, after the table has changed.
Expects-changed :
    (poller : PollPc) (clock : ℤ) (clients clients' : ℕ → ClientPc) (es es' : List Timeout)
    → inside_poller poller ≡ false
    → ((woken : Bool) (time : ℤ) → Covered clients woken time es → Covered clients' woken time es')
    → Expects poller clock clients es
    → Expects poller clock clients' es'
Expects-changed starting clock clients clients' es es' out f x = tt
Expects-changed waking clock clients clients' es es' out f x = tt
Expects-changed (calling left ticks node) clock clients clients' es es' out f x = x
Expects-changed (sleeping asked timeout deadline woken) clock clients clients' es es' out f (h, c) =
    (h, f woken (asked +ℤ timeout) c)
Expects-changed asking clock clients clients' es es' out f x = cc
Expects-changed (waiting asked timeout) clock clients clients' es es' out f x = cc
Expects-changed (running left) clock clients clients' es es' out f x = cc
Expects-changed (processing left ticks) clock clients clients' es es' out f x = cc

-- The polling thread, if it sleeps, is woken.
Expects-woken :
    (poller : PollPc) (clock : ℤ) (clients clients' : ℕ → ClientPc) (es : List Timeout)
    → Expects poller clock clients es
    → Expects (monitor_notify poller) clock clients' es
Expects-woken (sleeping asked timeout deadline woken) clock clients clients' es (h, c) =
    (h, inl refl)
Expects-woken starting clock clients clients' es x = tt
Expects-woken asking clock clients clients' es x = tt
Expects-woken (waiting asked timeout) clock clients clients' es x = x
Expects-woken waking clock clients clients' es x = tt
Expects-woken (running left) clock clients clients' es x = tt
Expects-woken (processing left ticks) clock clients clients' es x = x
Expects-woken (calling left ticks node) clock clients clients' es x = x

module _ (s : System) (k : ℕ) (i : IsSafe s) where
  -- A client enters, goes on inside, or leaves, with the table as it is.
  client_enters-IsSafe :
      (pc : ClientPc)
      → inside_client pc ≡ true
      → NotNotifying (s.clients k)
      → s.owner ≡ nobody
      → IsSafe (at_client k pc (record s { owner = client k }))
  client_enters-IsSafe pc h other e = record {
    owned = client_enters i.owned k pc e h;
    valid = i.valid;
    expects = Expects-others s.poller s.clock s.clients k pc (pending s.timeouts) other i.expects;
  }

  pub client_stays-IsSafe :
      (pc : ClientPc)
      → inside_client pc ≡ inside_client (s.clients k)
      → NotNotifying (s.clients k)
      → IsSafe (at_client k pc s)
  client_stays-IsSafe pc h other = record {
    owned = client_stays i.owned k pc h;
    valid = i.valid;
    expects = Expects-others s.poller s.clock s.clients k pc (pending s.timeouts) other i.expects;
  }

  client_leaves-IsSafe : s.clients k ≡ leaving → IsSafe (at_client k outside (monitor_leave s))
  client_leaves-IsSafe e = record {
    owned = client_leaves i.owned k outside (ap inside_client e) refl;
    valid = i.valid;
    expects =
        Expects-others s.poller s.clock s.clients k outside (pending s.timeouts) (λ h. cc (h, e))
          i.expects;
  }

  scheduled-Covered :
      (self : ℕ) (timeout : ℤ) (callback : Callback) (ticks : ℤ) (out : Timeouts × Timeout × Bool)
      → NotNotifying (s.clients k)
      → Schedules s.timeouts self timeout callback ticks out
      → (woken : Bool) (time : ℤ) → Covered s.clients woken time (pending s.timeouts)
      → Covered (set_client k (notifying out.2) s.clients) woken time (pending out.0)
  unfolding new_timeout
  scheduled-Covered self timeout callback ticks out other d woken time (inl e) = inl e
  scheduled-Covered self timeout callback ticks out other d woken time (inr (inl n)) =
      inr (inl (Notifier-others s.clients k (notifying out.2) other n))
  scheduled-Covered self timeout callback ticks out other d woken time (inr (inr a)) =
      elim (Bool-cases out.2) [
        | inl wakes ↦ inr (inl (k, rw (==_self k) (ap notifying wakes)))
        | inr quiet ↦
            let place = ap (λ (x : Timeout). x.address) d.written in
            inr (
              inr (
                rw d.contents (
                  insert_entry-From time out.1 (pending s.timeouts)
                    (ap (λ es. is_address (head? es) out.1.address) (sym d.contents)
                      ∙ ap (is_address (head? (pending out.0))) place
                      ∙ sym d.wakes
                      ∙ quiet)
                    a)))
      ]

  inserting-Allows :
      (self : ℕ) (timeout : ℤ) (callback : Callback) (ticks : ℤ)
      → s.clients k ≡ inserting self timeout callback ticks
      → Allows IsSafe (move_client k (inserting self timeout callback ticks) s)
  unfolding move_client
  inserting-Allows self timeout callback ticks e =
      let (out, ran, d) = schedule-Schedules s.timeouts self timeout callback ticks i.valid in
      let out_of = apart i.owned k (ap inside_client e) in
      simp (move_client, ran)
        (record {
          owned = client_stays i.owned k (notifying out.2) (sym (ap inside_client e));
          valid = d.valid;
          expects =
              Expects-changed s.poller s.clock s.clients _ (pending s.timeouts) (pending out.0)
                out_of (scheduled-Covered self timeout callback ticks out (λ h. cc (h, e)) d)
                i.expects;
        })

  removing-Allows :
      (key : Handle) → s.clients k ≡ removing key → Allows IsSafe (move_client k (removing key) s)
  unfolding move_client
  removing-Allows key e =
      let (out, ran, d) = cancel-Cancels s.timeouts key i.valid in
      let out_of = apart i.owned k (ap inside_client e) in
      simp (move_client, ran)
        (record {
          owned = client_stays i.owned k leaving (sym (ap inside_client e));
          valid = d.valid;
          expects =
              Expects-changed s.poller s.clock s.clients _ (pending s.timeouts) (pending out.0)
                out_of
                (λ woken time c. erased woken time out d.contents (
                  Covered-others s.clients k leaving woken time (pending s.timeouts)
                    (λ h. cc (h, e)) c))
                i.expects;
        })
    where
      erased :
          (woken : Bool) (time : ℤ) (out : Timeouts × Bool)
          → pending out.0 ≡ erase_key key (pending s.timeouts)
          → Covered (set_client k leaving s.clients) woken time (pending s.timeouts)
          → Covered (set_client k leaving s.clients) woken time (pending out.0)
      erased woken time out c (inl w) = inl w
      erased woken time out c (inr (inl n)) = inr (inl n)
      erased woken time out c (inr (inr a)) =
          inr (inr (rw c (erase_key-All (From time) key (pending s.timeouts) a)))

  notifying-Allows :
      (woken : Bool)
      → s.clients k ≡ notifying woken
      → Allows IsSafe (move_client k (notifying woken) s)
  unfolding move_client
  notifying-Allows true e = record {
    owned =
        client_stays (poller_stays i.owned (monitor_notify s.poller) (notify_inside s.poller)) k
          leaving (sym (ap inside_client e));
    valid = i.valid;
    expects = Expects-woken s.poller s.clock s.clients _ (pending s.timeouts) i.expects;
  }
  notifying-Allows false e = client_stays-IsSafe leaving (sym (ap inside_client e)) (λ h. cc (h, e))

  pub move_client-Allows : (pc : ClientPc) → s.clients k ≡ pc → Allows IsSafe (move_client k pc s)
  unfolding move_client
  move_client-Allows outside e = tt
  move_client-Allows (scheduling self timeout callback ticks) e =
      enter-Allows IsSafe (client k) (at_client k (inserting self timeout callback ticks)) s
        (client_enters-IsSafe (inserting self timeout callback ticks) refl (λ h. cc (h, e)))
  move_client-Allows (inserting self timeout callback ticks) e =
      inserting-Allows self timeout callback ticks e
  move_client-Allows (notifying woken) e = notifying-Allows woken e
  move_client-Allows (cancelling key) e =
      enter-Allows IsSafe (client k) (at_client k (removing key)) s
        (client_enters-IsSafe (removing key) refl (λ h. cc (h, e)))
  move_client-Allows (removing key) e = removing-Allows key e
  move_client-Allows leaving e = client_leaves-IsSafe e
