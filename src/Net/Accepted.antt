-- ===== src/Net/Accepted.antt =====
-- src/win32/tcp_server.c: a socket that listens, and the sockets that it accepts, have one owner.
use xrossfire.Base.{
  ℕ, suc, ◌≡◌, ◌≢◌, ◌⊎◌, inl, inr, refl, ap, ◌∙◌, Bool, true, false, Option, none, some, ◌==◌,
  ◌>>=◌, if◌then◌else◌, Returns, Bool-cases, Option-cases, arith,
}
use xrossfire.Async.{Async, World}
use xrossfire.Async.Notify.{Platform, notify}
use xrossfire.Async.Counts.{Operation, Holds}
use xrossfire.Async.Once.{notify_completes}
use xrossfire.Object.{xf_error}
use xrossfire.Net.{tcp_server_socket, Net, closesocket, free_buffer, set_io}
use xrossfire.Net.Clear.{io_async_clear}
use xrossfire.Net.Connect.{own_socket}
use xrossfire.Net.Started.{with_io, set_io-Holds}
use xrossfire.Net.Finished.{rest-Holds}
use xrossfire.Net.Server.{
  ListenAnswers, get_family, bind_error, find_error, own_server, listen_with, server_socket_new,
  new_with_handle, accepting, buffered, handed_over, get_accept, server_socket_accept,
  completed_accept,
}

-- Either the new object has the socket, or there is an error and the socket is closed.
abbrev pub Listens : ListenAnswers → ℕ → Net → Net × ℕ → Type 0
Listens answers out net result =
    ((object : ℕ) × (handle : ℕ) × (family : ℕ) × (answers.object ≡ some object)
      × (answers.socket ≡ some handle)
      × (result ≡ (own_server object out handle family net, 0)))
    ⊎ (result.1 ≢ 0) × (result.0 ≡ closesocket answers.socket net)

not_zero : (n : ℕ) → (n == 0) ≡ false → n ≢ 0
not_zero n h = λ e. ground arith

nonzero : (n : ℕ) → n ≢ 0 → (n == 0) ≡ false
nonzero n h = ground arith

one_not_zero : xf_error ≢ 0
one_not_zero = λ e. omega arith

module _ (answers : ListenAnswers) (out handle family : ℕ) (net : Net)
    (made : answers.socket ≡ some handle) where
  fails :
      (err : ℕ) (result : Net × ℕ)
      → err ≢ 0
      → result ≡ (closesocket (some handle) net, err)
      → Listens answers out net result
  fails err result wrong e = rw (e, made) (inr (wrong, refl))

  listens :
      (object : ℕ) (result : Net × ℕ)
      → answers.object ≡ some object
      → result ≡ (own_server object out handle family net, 0)
      → Listens answers out net result
  listens object result new e = inl (object, handle, family, new, made, e)

  with_object :
      (object : ℕ)
      → (bind_error answers == 0) ≡ true
      → answers.object ≡ some object
      → Listens answers out net (listen_with answers out handle family net)
  unfolding listen_with
  with_object object bound new = elim (Bool-cases (find_error answers == 0)) [
    | inl e ↦ listens object _ new (simp (listen_with, bound, new, e) refl)
    | inr e ↦ fails (find_error answers) _ (not_zero _ e) (simp (listen_with, bound, new, e) refl)
  ]

  listen_with-Listens : Listens answers out net (listen_with answers out handle family net)
  unfolding listen_with
  listen_with-Listens = elim (Bool-cases (bind_error answers == 0)) [
    | inl bound ↦ elim (Option-cases answers.object) [
      | inl e ↦ fails xf_error _ one_not_zero (simp (listen_with, bound, e) refl)
      | inr (object, new) ↦ with_object object bound new
    ]
    | inr e ↦ fails (bind_error answers) _ (not_zero _ e) (simp (listen_with, e) refl)
  ]

-- For a host that parses as an address, `xf_server_socket_new` returns 0 with a new object that
-- has the socket and stands in the caller's variable, or returns an error, closes the socket if
-- one was made, and changes nothing else.
pub server_socket_new-Listens :
    (answers : ListenAnswers) (out ip_type family : ℕ) (net : Net)
    → answers.ip_type ≡ some ip_type
    → get_family ip_type ≡ some family
    → Returns (server_socket_new answers out net) (Listens answers out net)
unfolding server_socket_new
server_socket_new-Listens answers out ip_type family net parsed known =
    elim (Option-cases answers.socket) [
      | inl e ↦ rw (server_socket_new, parsed, known, e) (_, refl, inr (one_not_zero, refl))
      | inr (handle, made) ↦ (
        _,
        simp (server_socket_new, parsed, known, made) refl,
        listen_with-Listens answers out handle family net made,
      )
    ]

-- The operation while the operating system accepts, and when the socket has been handed over.
abbrev pub in_accept : ℕ → ℕ → Option ℕ → ℕ → ℕ → Operation → Operation
in_accept out self listening accepted buf op =
    with_io (buffered buf) (with_io (accepting out self listening accepted) op)

module _ (platform : Platform Net) (op : Operation) where
  -- The two writes to the I/O record.
  accept_writes :
      (fuel n self out accepted buf answer family : ℕ) (listening : Option ℕ)
      (armed canceled : Bool) (r : Net) (w : World Net)
      → r.bodies self ≡ some (tcp_server_socket listening family)
      → Holds platform op (suc n) armed canceled false r w
      → (w' : World Net) × (server_socket_accept platform fuel self out
            (some accepted)
            (some buf)
            answer
            op.address
            w
          ≡ (if answer == 0 then some w' else notify platform fuel op.address xf_error w'))
        × Holds platform
            (in_accept out self listening accepted buf op)
            (suc n)
            armed
            canceled
            false
            r
            w'
  unfolding server_socket_accept
  accept_writes fuel n self out accepted buf answer family listening armed canceled r w body h =
      let (w', ran, h') =
        set_io-Holds platform op (accepting out self listening accepted) n armed canceled false r w
          h in
      let (w'', ran', h'') =
        set_io-Holds platform (with_io (accepting out self listening accepted) op) (buffered buf) n
          armed canceled false r w' h' in
      (w'', rw (ap (λ (net : Net). net.bodies self) h.rest_is ∙ body) (rw (ran, ran') refl), h'')

  handing_over :
      (fuel out self object family : ℕ) (listening accepted : Option ℕ) (stored : Async)
      (w : World Net)
      → w.asyncs op.address ≡ some stored
      → get_accept stored.io_async.context ≡ some (out, self, accepted)
      → w.rest.bodies self ≡ some (tcp_server_socket listening family)
      → completed_accept platform fuel 0 0 (some object) op.address w ≡ (
          set_io op.address handed_over (record w { rest = own_socket object out accepted w.rest })
          >>= notify platform fuel op.address 0)
  unfolding completed_accept new_with_handle
  handing_over fuel out self object family listening accepted stored w here at_accept body =
      rw here (simp (at_accept, body) refl)

module _ (platform : Platform Net) (op : Operation) (act : ℕ → Net → Net)
    (calm : (error : ℕ) (w : World Net)
      → platform.completed op.completed error op.context w
        ≡ some (record w { rest = act error w.rest })) where
  -- Let an operation with a completion procedure, without parent or child, that is not completed,
  -- have n + 1 holders, and one more while its timeout is pending, and let its completion
  -- procedure not touch the records and the table of timeouts. Let a server accept for it, with a
  -- new socket, a buffer and I/O that is pending. The accept and its completion without an error,
  -- with memory for the object, never fault, with any fuel but none in the completion: the new
  -- object has the accepted socket and stands in the caller's variable, the I/O record does not
  -- have it any more, the completion procedure is called once with 0, and n holders are left.
  pub accept-owns :
      (fuel fuel' n self out accepted buf object family : ℕ) (listening : Option ℕ)
      (armed canceled : Bool) (r : Net) (w : World Net)
      → r.bodies self ≡ some (tcp_server_socket listening family)
      → Holds platform op (suc (if armed then suc n else n)) armed canceled false r w
      → Returns
          (server_socket_accept platform fuel self out (some accepted) (some buf) 0 op.address w
            >>= completed_accept platform (suc fuel') 0 0 (some object) op.address)
          (Holds platform
            (with_io handed_over (in_accept out self listening accepted buf op))
            n
            false
            canceled
            true
            (act 0 (own_socket object out (some accepted) r)))
  accept-owns fuel fuel' n self out accepted buf object family listening armed canceled r w body h =
      let k = if armed then suc n else n in
      let op' = in_accept out self listening accepted buf op in
      let own = own_socket object out (some accepted) in
      let (w', e, h') =
        accept_writes platform op fuel k self out accepted buf 0 family listening armed canceled r w
          body h in
      let (w'', ran, h'') =
        set_io-Holds platform op' handed_over k armed canceled false (own r) _
          (rest-Holds platform op' k armed canceled false r w' own h') in
      rw e (
        rw
          (handing_over platform op (suc fuel') out self object family listening (some accepted) _
            w' h'.here refl (ap (λ (net : Net). net.bodies self) h'.rest_is ∙ body))
          (rw ran (
            notify_completes platform (with_io handed_over op') act calm fuel' n 0 armed canceled
              (own r) w'' h'')))

  -- Let an operation with a completion procedure, without parent or child, that is not completed,
  -- have n + 1 holders, and one more while its timeout is pending, and let its completion
  -- procedure not touch the records and the table of timeouts. Let a server accept for it, with a
  -- new socket, a buffer and I/O that is pending. The accept and its completion with an error
  -- never fault, with any fuel but none in the completion: the completion procedure is called
  -- once with XF_ERROR, n holders are left, and the I/O record keeps the socket and the buffer,
  -- so that clearing it closes the one and frees the other.
  pub accept-fails :
      (fuel fuel' n self out accepted buf error family : ℕ) (listening : Option ℕ)
      (armed canceled : Bool) (r : Net) (w : World Net)
      → error ≢ 0
      → r.bodies self ≡ some (tcp_server_socket listening family)
      → Holds platform op (suc (if armed then suc n else n)) armed canceled false r w
      → Returns
          (server_socket_accept platform fuel self out (some accepted) (some buf) 0 op.address w
            >>= completed_accept platform (suc fuel') error 0 none op.address)
          (Holds platform
            (in_accept out self listening accepted buf op)
            n
            false
            canceled
            true
            (act xf_error r))
        × ((net : Net)
            → (io_async_clear (in_accept out self listening accepted buf op).io net).1
              ≡ closesocket (some accepted) (free_buffer (some buf) net))
  unfolding completed_accept io_async_clear
  accept-fails fuel fuel' n self out accepted buf error family listening armed canceled r w wrong
        body h =
      let k = if armed then suc n else n in
      let op' = in_accept out self listening accepted buf op in
      let (w', e, h') =
        accept_writes platform op fuel k self out accepted buf 0 family listening armed canceled r w
          body h in
      (
        rw e (
            rw (nonzero error wrong)
              (notify_completes platform op' act calm fuel' n xf_error armed canceled r w' h')),
        λ net. refl,
      )
