-- ===== src/Net/Connected.antt =====
-- src/win32/tcp_socket.c: a connection from the lookup of its name to the socket object.
use xrossfire.Base.{
  ℕ, suc, ◌≡◌, refl, ap, ◌∙◌, Bool, true, false, some, List, ◌==◌, if◌then◌else◌, Returns,
  Bool-cases, inl, inr,
}
use xrossfire.Async.{connect, World}
use xrossfire.Async.Notify.{Platform, notify}
use xrossfire.Async.Counts.{Operation, Holds}
use xrossfire.Async.Once.{notify_completes}
use xrossfire.Object.{xf_error}
use xrossfire.Net.{Net, closesocket}
use xrossfire.Net.Started.{with_io, bracket, set_io-Holds}
use xrossfire.Net.Clear.{get_addrs}
use xrossfire.Net.Finished.{rest-Holds}
use xrossfire.Net.Connect.{
  af_inet, ConnectAnswers, get_families, find_inet, prepare_socket, resolved, connecting,
  begin_connect, socket_connect_async, connect_phase1,
}

-- The operating system makes a socket and prepares it.
pub record IsPrepared (answers : ConnectAnswers) (handle : ℕ) : Type 0 where
  pub made : answers.socket ≡ some handle
  pub registers : answers.registered ≡ 0
  pub binds : answers.bound ≡ 0
  pub finds : answers.ioctl ≡ 0

prepared :
    (answers : ConnectAnswers) (handle family : ℕ) (net : Net)
    → IsPrepared answers handle
    → prepare_socket answers family handle net ≡ (net, 0)
unfolding prepare_socket
prepared answers handle family net i = elim (Bool-cases (family == af_inet)) [
  | inl e ↦ rw (i.registers, i.binds, i.finds) (rw e refl)
  | inr e ↦ rw (i.registers, i.binds, i.finds) (rw e refl)
]

module _ (platform : Platform Net) (op : Operation) where
  begin_connect-Holds :
      (fuel n handle answer : ℕ) (armed : Bool) (r : Net) (w : World Net)
      → Holds platform op (suc n) armed false false r w
      → Returns (begin_connect platform fuel answer handle op.address w) λ out.
        (out.1 ≡ (if answer == 0 then 0 else xf_error))
        × Holds platform
            (with_io (connecting handle) op)
            (suc n)
            armed
            false
            false
            (if answer == 0 then r else closesocket (some handle) r)
            out.0
  unfolding begin_connect
  begin_connect-Holds fuel n handle answer armed r w h =
      let b = bracket platform op (connecting handle) fuel n armed r w h in
      elim (Bool-cases (answer == 0)) [
        | inl e ↦ rw b.enters (rw (b.writes, b.leaves) (rw e (_, refl, (refl, b.holds))))
        | inr e ↦ rw b.enters (
            rw (b.writes, b.leaves)
              (rw e (
                _,
                refl,
                (
                  refl,
                  rest-Holds platform (with_io (connecting handle) op) n armed false false r b.after
                      (closesocket (some handle)) b.holds,
                ),
              )))
      ]

  socket_connect_async-Holds :
      (fuel n handle family : ℕ) (answers : ConnectAnswers) (families : List ℕ) (armed : Bool)
      (r : Net) (w : World Net)
      → find_inet families ≡ some family
      → IsPrepared answers handle
      → Holds platform op (suc n) armed false false r w
      → Returns (socket_connect_async platform fuel answers families op.address w) λ out.
        (out.1 ≡ (if answers.connected == 0 then 0 else xf_error))
        × Holds platform
            (with_io (connecting handle) op)
            (suc n)
            armed
            false
            false
            (if answers.connected == 0 then r else closesocket (some handle) r)
            out.0
  unfolding socket_connect_async
  socket_connect_async-Holds fuel n handle family answers families armed r w inet i h =
      rw (socket_connect_async, inet, i.made)
        (rw (prepared answers handle family w.rest i)
          (begin_connect-Holds fuel n handle answers.connected armed r w h))

-- The operation in the second phase.
abbrev pub in_phase2 : ℕ → Operation → Operation
in_phase2 handle op = with_io (connecting handle) (with_io resolved op)

module _ (platform : Platform Net) (op : Operation) (act : ℕ → Net → Net) where
  -- I/O is pending, or the socket is closed and the operation is notified with XF_ERROR.
  abbrev pub Connecting : ℕ → ℕ → Bool → Bool → Net → World Net → Type 0
  Connecting handle n armed true r w =
      Holds platform (in_phase2 handle op) (suc (if armed then suc n else n)) armed false false r w
  Connecting handle n armed false r w =
      Holds platform (in_phase2 handle op) n false false true
        (act xf_error (closesocket (some handle) r)) w

module _ (platform : Platform Net) (op : Operation) (act : ℕ → Net → Net)
    (calm : (error : ℕ) (w : World Net)
      → platform.completed op.completed error op.context w
        ≡ some (record w { rest = act error w.rest })) where
  after_connect :
      (fuel n handle err : ℕ) (ok armed : Bool) (r : Net) (w : World Net)
      → err ≡ (if ok then 0 else xf_error)
      → Holds platform
          (in_phase2 handle op)
          (suc (if armed then suc n else n))
          armed
          false
          false
          (if ok then r else closesocket (some handle) r)
          w
      → Returns
          (if err == 0 then some w else notify platform (suc fuel) op.address err w)
          (Connecting platform op act handle n armed ok r)
  after_connect fuel n handle err true armed r w e h = rw e (w, refl, h)
  after_connect fuel n handle err false armed r w e h = rw e (
      notify_completes platform (in_phase2 handle op) act calm fuel n xf_error armed false
        (closesocket (some handle) r) w h)

  -- Let an operation with a completion procedure, without parent or child, that is not completed,
  -- have n + 1 holders, and one more while its timeout is pending, and let its completion
  -- procedure not touch the records and the table of timeouts. Let it not be cancelled, let the
  -- lookup have found a list with an IPv4 address, and let the operating system make and prepare
  -- a socket. The first phase of a connection never faults, with any fuel but none. Its I/O is
  -- pending for the holders of before, or it fails at once: then the socket is closed, the
  -- completion procedure is called once with XF_ERROR, and n holders are left. In both cases the
  -- I/O record is of the second phase and has the socket's handle.
  pub connect_phase1-Holds :
      (fuel n handle family addrs out : ℕ) (answers : ConnectAnswers) (armed : Bool) (r : Net)
      (w : World Net)
      → op.io.context ≡ connect (some addrs) out
      → find_inet (r.addr_lists addrs) ≡ some family
      → IsPrepared answers handle
      → Holds platform op (suc (if armed then suc n else n)) armed false false r w
      → Returns
          (connect_phase1 platform (suc fuel) answers 0 op.address w)
          (Connecting platform op act handle n armed (answers.connected == 0) r)
  unfolding connect_phase1
  connect_phase1-Holds fuel n handle family addrs out answers armed r w at_connect inet i h =
      let k = if armed then suc n else n in
      let (w', ran, h') = set_io-Holds platform op resolved k armed false false r w h in
      let (w'', ran', (e, h'')) =
        socket_connect_async-Holds platform (with_io resolved op) (suc fuel) k handle family answers
          (get_families (some addrs) w'.rest) armed r w'
          (ap (λ (net : Net). find_inet (net.addr_lists addrs)) h'.rest_is ∙ inet) i h' in
      rw ran (
        rw h'.here (
          rw (ap get_addrs at_connect) (
            rw ran'
              (after_connect fuel n handle w''.1 (answers.connected == 0) armed r w''.0 e h''))))
