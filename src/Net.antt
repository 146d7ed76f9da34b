-- ===== src/Net.antt =====
-- src/win32/tcp_socket.c, src/win32/tcp_server.c, and `xf_io_async_clear` of
-- src/win32/io_completion_port.c: sockets, and the bracket round a call that starts I/O.
--
-- The rest of the world is `Net`: the bodies of the socket objects, the variables of the program that
-- an operation writes to, the address lists, and a log of what has been given back to the operating
-- system. What the operating system answers is an argument, 0 for success or for I/O that is pending.
-- A member of the union `context` is only read for the type that is written with it.
pub mod Clear
pub mod Socket
pub mod Started
pub mod Finished
pub mod Cycle
pub mod Connect
pub mod Connected
pub mod Owned
pub mod Server
pub mod Accepted
pub mod Dispatch
pub mod Messages
pub mod Answers
pub mod Typed
pub mod Tests
use xrossfire.Base.{
  ℕ, Bool, true, false, Option, none, some, List, [], ◌∷◌, ◌==◌, if◌then◌else◌, ◌>>=◌,
}
use xrossfire.Async.{IoContext, no_context, connect, IoAsync, Async, World, write}
use xrossfire.Async.Notify.{Platform, notify}
use xrossfire.Async.Create.{enter, leave}
use xrossfire.Object.{xf_error}

-- The body of an object: xf_tcp_socket_data_t or xf_tcp_server_socket_data_t, whose two functions
-- are the operating system's.
pub data SocketData : Type 0 where
  tcp_socket : (handle : Option ℕ) → SocketData
  tcp_server_socket : (socket : Option ℕ) (address_family : ℕ) → SocketData

pub data Event : Type 0 where
  closed_socket freed_addrs freed_buffer : ℕ → Event

-- `addr_lists` has the families of the addresses of a list, in order.
pub record Net : Type 0 where
  pub bodies : ℕ → Option SocketData
  pub sockets : ℕ → Option ℕ
  pub lengths : ℕ → ℕ
  pub addr_lists : ℕ → List ℕ
  pub log : List Event

abbrev pub io_connect_phase1 : ℕ
io_connect_phase1 = 0

abbrev pub io_connect_phase2 : ℕ
io_connect_phase2 = 1

abbrev pub io_disconnect : ℕ
io_disconnect = 2

abbrev pub io_receive : ℕ
io_receive = 3

abbrev pub io_send : ℕ
io_send = 4

abbrev pub io_accept : ℕ
io_accept = 5

abbrev pub put {ℓ} : {A : Type ℓ} → ℕ → A → (ℕ → A) → ℕ → A
put p v store k = if k == p then v else store k

-- Without a socket, and without memory, these calls do nothing.
abbrev pub closesocket : Option ℕ → Net → Net
closesocket none net = net
closesocket (some handle) net = record net { log = closed_socket handle ∷ net.log }

abbrev pub free_addrs : Option ℕ → Net → Net
free_addrs none net = net
free_addrs (some addrs) net = record net { log = freed_addrs addrs ∷ net.log }

abbrev pub free_buffer : Option ℕ → Net → Net
free_buffer none net = net
free_buffer (some buf) net = record net { log = freed_buffer buf ∷ net.log }

module _ {ℓ} {W : Type ℓ} where
  -- Writes to the I/O record of an operation.
  unfoldable pub set_io : ℕ → (IoAsync → IoAsync) → World W → Option (World W)
  set_io p f w =
      w.asyncs p >>= λ self. some (write p (record self { io_async = f self.io_async }) w)

module _ {ℓ} {W : Type ℓ} (platform : Platform W) where
  -- `if (xf_async_enter(async)) { ... }`: writes to the I/O record, starts the I/O, and leaves;
  -- `answer` is the error that is not WSA_IO_PENDING.
  unfoldable pub start_io : ℕ → ℕ → (IoAsync → IoAsync) → ℕ → World W → Option (World W)
  start_io fuel p f answer w = do
    (w', entered) ← enter platform fuel p w
    if entered
        then (do
          w'' ← set_io p f w'
          w''' ← leave platform p w''
          if answer == 0 then some w''' else notify platform fuel p xf_error w''')
        else some w'
