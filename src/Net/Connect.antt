-- ===== src/Net/Connect.antt =====
-- src/win32/tcp_socket.c: the phases of a connection.
--
-- The name is resolved first, then a socket is made and connected. What the operating system answers
-- are the records `Lookup` and `ConnectAnswers`, with the error, or 0; `connected` is 0 for I/O that
-- is pending too. The list of addresses is written by the time the lookup has finished, and is not
-- read before.
use xrossfire.Base.{
  ℕ, Bool, Option, none, some, List, [], ◌∷◌, not, ◌&&◌, ◌==◌, if◌then◌else◌, ◌>>=◌,
}
use xrossfire.Async.{IoContext, connect, IoAsync, World}
use xrossfire.Async.Notify.{Platform, notify}
use xrossfire.Async.Create.{enter, leave}
use xrossfire.Object.{xf_error}
use xrossfire.Net.{tcp_socket, Net, put, closesocket, io_connect_phase1, io_connect_phase2, set_io}
use xrossfire.Net.Clear.{get_addrs}

pub record Lookup : Type 0 where
  pub pending : Bool
  pub error : ℕ
  pub addrs : Option ℕ
  pub handle : Option ℕ

pub record ConnectAnswers : Type 0 where
  pub socket : Option ℕ
  pub registered : ℕ
  pub bound : ℕ
  pub ioctl : ℕ
  pub connected : ℕ

abbrev pub af_inet : ℕ
af_inet = 2

abbrev pub get_families : Option ℕ → Net → List ℕ
get_families none net = []
get_families (some addrs) net = net.addr_lists addrs

unfoldable pub find_inet : List ℕ → Option ℕ
find_inet [] = none
find_inet (family ∷ families) = if family == af_inet then some family else find_inet families

-- `*io_async->context.connect.self`.
abbrev pub get_out : IoContext → Option ℕ
get_out (connect addrs out) = some out
get_out _ = none

-- From the socket to the bracket: the error, with the socket closed, or 0.
unfoldable pub prepare_socket : ConnectAnswers → ℕ → ℕ → Net → Net × ℕ
prepare_socket answers family handle net =
    if answers.registered == 0
    then (if family == af_inet && not (answers.bound == 0)
        then (closesocket (some handle) net, xf_error)
        else (if answers.ioctl == 0 then (net, 0) else (closesocket (some handle) net, xf_error)))
    else (closesocket (some handle) net, answers.registered)

-- A new socket object, in the variable of the caller.
abbrev pub own_socket : ℕ → ℕ → Option ℕ → Net → Net
own_socket object out handle net = record net {
  bodies = put object (some (tcp_socket handle)) net.bodies;
  sockets = put out (some object) net.sockets;
}

abbrev pub resolving : Lookup → ℕ → IoAsync → IoAsync
resolving lookup out io = record {
  handle = lookup.handle;
  io_type = io_connect_phase1;
  context = connect lookup.addrs out;
}

abbrev pub resolved : IoAsync → IoAsync
resolved io = record io { handle = none }

abbrev pub connecting : ℕ → IoAsync → IoAsync
connecting handle io = record io { io_type = io_connect_phase2; handle = some handle }

module _ (platform : Platform Net) where
  unfoldable pub begin_connect : ℕ → ℕ → ℕ → ℕ → World Net → Option (World Net × ℕ)
  begin_connect fuel answer handle p w = do
    (w', entered) ← enter platform fuel p w
    if entered
        then (do
          w'' ← set_io p (connecting handle) w'
          left ← leave platform p w''
          some (
              if answer == 0
              then (left, 0)
              else (record left { rest = closesocket (some handle) left.rest }, xf_error)))
        else some (w', 0)

  unfoldable pub socket_connect_async :
      ℕ → ConnectAnswers → List ℕ → ℕ → World Net → Option (World Net × ℕ)
  socket_connect_async fuel answers families p w = elim (find_inet families) [
    | none ↦ some (w, xf_error)
    | some family ↦ elim answers.socket [
      | none ↦ some (w, xf_error)
      | some handle ↦
          (let (net, err) = prepare_socket answers family handle w.rest in
            if err == 0
            then begin_connect fuel answers.connected handle p w
            else some (record w { rest = net }, err))
    ]
  ]

  unfoldable pub connect_phase1 : ℕ → ConnectAnswers → ℕ → ℕ → World Net → Option (World Net)
  connect_phase1 fuel answers error p w = do
    w' ← set_io p resolved w
    self ← w'.asyncs p
    if error == 0
        then (do
          let families = get_families (get_addrs self.io_async.context) w'.rest
          (w'', err) ← socket_connect_async fuel answers families p w'
          if err == 0 then some w'' else notify platform fuel p err w'')
        else notify platform fuel p xf_error w'

  unfoldable pub connect_tcp : ℕ → Lookup → ConnectAnswers → ℕ → ℕ → World Net → Option (World Net)
  connect_tcp fuel lookup answers out p w = do
    (w', entered) ← enter platform fuel p w
    if entered
        then (do
          w'' ← set_io p (resolving lookup out) w'
          left ← leave platform p w''
          if lookup.pending then some left else connect_phase1 fuel answers lookup.error p left)
        else some w'

  -- `malloc` gives the address of the new object.
  unfoldable pub completed_connect_phase2 : ℕ → ℕ → Option ℕ → ℕ → World Net → Option (World Net)
  completed_connect_phase2 fuel error malloc p w =
      if error == 0
      then (do
        self ← w.asyncs p
        out ← get_out self.io_async.context
        elim malloc [
          | none ↦ notify platform fuel p xf_error w
          | some object ↦
              (set_io p resolved
                  (record w { rest = own_socket object out self.io_async.handle w.rest })
                >>= notify platform fuel p 0)
        ])
      else notify platform fuel p xf_error w
