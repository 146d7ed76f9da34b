-- ===== src/Net/Owned.antt =====
-- src/win32/tcp_socket.c: a connection ends in a socket object, and the socket has one owner.
use xrossfire.Base.{
  ℕ, suc, ◌≡◌, refl, ap, subst, ◌∙◌, Bool, true, false, Option, none, some, ◌==◌, ◌>>=◌,
  if◌then◌else◌, Returns, Returns-bind,
}
use xrossfire.Async.{Async, connect, World}
use xrossfire.Async.Notify.{Platform, notify}
use xrossfire.Async.Counts.{Operation, Holds}
use xrossfire.Async.Once.{notify_completes}
use xrossfire.Net.{Net, set_io}
use xrossfire.Net.Started.{with_io, Bracket, bracket, set_io-Holds}
use xrossfire.Net.Finished.{rest-Holds}
use xrossfire.Net.Connect.{
  Lookup, ConnectAnswers, find_inet, own_socket, resolving, resolved, get_out, connect_phase1,
  connect_tcp, completed_connect_phase2,
}
use xrossfire.Net.Connected.{IsPrepared, in_phase2, Connecting, connect_phase1-Holds}

bind-some {ℓ} : {A : Type ℓ} (m : Option A) → (m >>= λ a. some a) ≡ m
bind-some none = refl
bind-some (some a) = refl

-- A step that is taken now or later.
once {ℓ} :
    {A : Type ℓ} (later : Bool) (a : A) (f : A → Option A)
    → ((if later then some a else f a) >>= λ b. if later then f b else some b) ≡ f a
once true a f = refl
once false a f = bind-some (f a)

module _ (platform : Platform Net) (op : Operation) (act : ℕ → Net → Net)
    (calm : (error : ℕ) (w : World Net)
      → platform.completed op.completed error op.context w
        ≡ some (record w { rest = act error w.rest })) where
  owning :
      (fuel out object : ℕ) (addrs : Option ℕ) (self : Async) (w : World Net)
      → w.asyncs op.address ≡ some self
      → self.io_async.context ≡ connect addrs out
      → completed_connect_phase2 platform fuel 0 (some object) op.address w ≡ (
          set_io op.address resolved
            (record w { rest = own_socket object out self.io_async.handle w.rest })
          >>= notify platform fuel op.address 0)
  unfolding completed_connect_phase2
  owning fuel out object addrs self w here at_connect = rw here (simp (ap get_out at_connect) refl)

  pub completed_connect_phase2-Holds :
      (fuel n out object : ℕ) (addrs : Option ℕ) (armed canceled : Bool) (r : Net) (w : World Net)
      → op.io.context ≡ connect addrs out
      → Holds platform op (suc (if armed then suc n else n)) armed canceled false r w
      → Returns (completed_connect_phase2 platform (suc fuel) 0 (some object) op.address w) (
          Holds platform
            (with_io resolved op)
            n
            false
            canceled
            true
            (act 0 (own_socket object out op.io.handle r)))
  completed_connect_phase2-Holds fuel n out object addrs armed canceled r w at_connect h =
      let k = if armed then suc n else n in
      let own = own_socket object out op.io.handle in
      let (w', ran, h') =
        set_io-Holds platform op resolved k armed canceled false (own r) _
          (rest-Holds platform op k armed canceled false r w own h) in
      rw (owning (suc fuel) out object addrs _ w h.here at_connect) (
        rw ran (
          notify_completes platform (with_io resolved op) act calm fuel n 0 armed canceled (own r)
            w' h'))

module _ (platform : Platform Net) (op : Operation) where
  -- The first phase runs at once, or when the lookup has finished.
  abbrev pub finish_lookup : ℕ → Lookup → ConnectAnswers → World Net → Option (World Net)
  finish_lookup fuel lookup answers w =
      if lookup.pending
      then connect_phase1 platform fuel answers lookup.error op.address w
      else some w

  connect_tcp-phase1 :
      (fuel n out : ℕ) (lookup : Lookup) (answers : ConnectAnswers) (armed : Bool) (r : Net)
      (w : World Net)
      → Bracket platform op (resolving lookup out) n armed r fuel w
      → (w' : World Net) × ((connect_tcp platform fuel lookup answers out op.address w
            >>= finish_lookup fuel lookup answers)
          ≡ connect_phase1 platform fuel answers lookup.error op.address w')
        × Holds platform (with_io (resolving lookup out) op) (suc n) armed false false r w'
  unfolding connect_tcp
  connect_tcp-phase1 fuel n out lookup answers armed r w b = (
    b.after,
    rw b.enters (
        rw (b.writes, b.leaves)
          (once lookup.pending b.after
            (connect_phase1 platform fuel answers lookup.error op.address))),
    b.holds,
  )

module _ (platform : Platform Net) (op : Operation) (act : ℕ → Net → Net)
    (calm : (error : ℕ) (w : World Net)
      → platform.completed op.completed error op.context w
        ≡ some (record w { rest = act error w.rest })) where
  -- Let an operation with a completion procedure, without parent or child, that is not completed,
  -- have n + 1 holders, and one more while its timeout is pending, and let its completion
  -- procedure not touch the records and the table of timeouts. Let it not be cancelled, let the
  -- lookup of the name find a list with an IPv4 address, at once or later, and let the operating
  -- system make, prepare and connect a socket. The three phases never fault, with any fuel but
  -- none: the new object has the socket and stands in the caller's variable, the completion
  -- procedure is called once with 0, n holders are left, and the I/O record has no handle any
  -- more.
  pub connect-owns :
      (fuel fuel' n handle family addrs out object : ℕ) (lookup : Lookup) (answers : ConnectAnswers)
      (armed : Bool) (r : Net) (w : World Net)
      → lookup.addrs ≡ some addrs
      → lookup.error ≡ 0
      → find_inet (r.addr_lists addrs) ≡ some family
      → IsPrepared answers handle
      → answers.connected ≡ 0
      → Holds platform op (suc (if armed then suc n else n)) armed false false r w
      → Returns
          (connect_tcp platform (suc fuel) lookup answers out op.address w
            >>= finish_lookup platform op (suc fuel) lookup answers
            >>= completed_connect_phase2 platform (suc fuel') 0 (some object) op.address)
          (Holds platform
            (with_io resolved (in_phase2 handle (with_io (resolving lookup out) op)))
            n
            false
            false
            true
            (act 0 (own_socket object out (some handle) r)))
  connect-owns fuel fuel' n handle family addrs out object lookup answers armed r w found ok inet i
        pending h =
      let k = if armed then suc n else n in
      let op' = with_io (resolving lookup out) op in
      let b = bracket platform op (resolving lookup out) (suc fuel) k armed r w h in
      let (w', e, h') =
        connect_tcp-phase1 platform op (suc fuel) k out lookup answers armed r w b in
      let first =
        connect_phase1-Holds platform op' act calm fuel n handle family addrs out answers armed r w'
          (ap (λ a. connect a out) found) inet i h' in
      let connects =
        subst
          (λ answer.
            Returns (connect_phase1 platform (suc fuel) answers 0 op.address w')
              (Connecting platform op' act handle n armed (answer == 0) r))
          pending first in
      rw (e ∙ ap (λ error. connect_phase1 platform (suc fuel) answers error op.address w') ok) (
        Returns-bind _ (connect_phase1 platform (suc fuel) answers 0 op.address w') _ connects
          λ w'' h''.
            completed_connect_phase2-Holds platform (in_phase2 handle op') act calm fuel' n out
              object lookup.addrs armed false r w'' refl h'')
