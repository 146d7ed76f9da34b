-- ===== src/Net/Socket.antt =====
-- src/win32/tcp_socket.c: close, receive and send, and what the completion port calls when they are done.
use xrossfire.Base.{ℕ, Option, none, some, ◌==◌, if◌then◌else◌, ◌>>=◌}
use xrossfire.Async.{IoContext, disconnect, receive, World}
use xrossfire.Async.Notify.{Platform, notify}
use xrossfire.Object.{xf_error}
use xrossfire.Net.{
  tcp_socket, tcp_server_socket, Net, put, closesocket, io_disconnect, io_receive, io_send, set_io,
  start_io,
}

-- GET_HANDLE.
unfoldable pub get_handle : ℕ → Net → Option (Option ℕ)
get_handle self net = net.bodies self >>= λ body. elim body [
  | tcp_socket handle ↦ some handle
  | tcp_server_socket socket address_family ↦ none
]

-- The socket of a disconnection, and where a receive writes its length.
abbrev pub get_socket : IoContext → Option ℕ
get_socket (disconnect socket) = some socket
get_socket _ = none

abbrev pub get_transfered : IoContext → Option (Option ℕ)
get_transfered (receive transfered) = some transfered
get_transfered _ = none

-- `if (io_async->context.receive.transfered != NULL) { ... }`
abbrev pub store_transfered : Option ℕ → ℕ → Net → Net
store_transfered none transfered net = net
store_transfered (some p) transfered net = record net { lengths = put p transfered net.lengths }

-- `closesocket(body->handle); body->handle = INVALID_SOCKET;`
abbrev pub drop_handle : ℕ → Option ℕ → Net → Net
drop_handle socket handle net =
    let closed = closesocket handle net in
    record closed { bodies = put socket (some (tcp_socket none)) closed.bodies }

module _ (platform : Platform Net) where
  -- `ioctl` is what `WSAIoctl` returns for the address of `DisconnectEx`.
  unfoldable pub close : ℕ → ℕ → ℕ → ℕ → ℕ → World Net → Option (World Net)
  close fuel self ioctl answer p w = do
    handle ← get_handle self w.rest
    if ioctl == 0
        then start_io platform fuel p
            (λ io. record io { io_type = io_disconnect; context = disconnect self }) answer w
        else notify platform fuel p xf_error w

  unfoldable pub completed_disconnect : ℕ → ℕ → ℕ → World Net → Option (World Net)
  completed_disconnect fuel error p w = do
    self ← w.asyncs p
    socket ← get_socket self.io_async.context
    handle ← get_handle socket w.rest
    let w' = record w { rest = drop_handle socket handle w.rest }
    if error == 0 then notify platform fuel p 0 w' else notify platform fuel p xf_error w'

  unfoldable pub receive_ : ℕ → ℕ → Option ℕ → ℕ → ℕ → World Net → Option (World Net)
  receive_ fuel self receive_length answer p w = do
    handle ← get_handle self w.rest
    start_io platform fuel p
        (λ io. record { handle = handle; io_type = io_receive; context = receive receive_length })
        answer w

  unfoldable pub completed_receive : ℕ → ℕ → ℕ → ℕ → World Net → Option (World Net)
  completed_receive fuel error transfered p w =
      if error == 0
      then (do
        self ← w.asyncs p
        out ← get_transfered self.io_async.context
        notify platform fuel p 0 (record w { rest = store_transfered out transfered w.rest }))
      else notify platform fuel p xf_error w

  -- The I/O record is written before the bracket.
  unfoldable pub send : ℕ → ℕ → ℕ → ℕ → World Net → Option (World Net)
  send fuel self answer p w = do
    handle ← get_handle self w.rest
    w' ← set_io p (λ io. record io { handle = handle; io_type = io_send }) w
    start_io platform fuel p (λ io. io) answer w'

  unfoldable pub completed_send : ℕ → ℕ → ℕ → ℕ → World Net → Option (World Net)
  completed_send fuel error transfered p w =
      if error == 0 then notify platform fuel p 0 w else notify platform fuel p xf_error w
