-- ===== src/Net/Server.antt =====
-- src/win32/tcp_server.c, and `xf_tcp_socket_new_with_handle` of src/win32/tcp_socket.c: a socket that
-- listens, and what it accepts.
--
-- The answers of the operating system are errors, or 0. An object whose body is written and that is
-- freed before its address is handed out leaves nothing behind.
use xrossfire.Base.{ℕ, Option, none, some, ◌==◌, if◌then◌else◌, ◌>>=◌}
use xrossfire.Async.{IoContext, accept, IoAsync, World}
use xrossfire.Async.Notify.{Platform, notify}
use xrossfire.Object.{xf_error}
use xrossfire.Net.{tcp_socket, tcp_server_socket, Net, put, closesocket, io_accept, set_io}
use xrossfire.Net.Clear.{get_buf}
use xrossfire.Net.Connect.{af_inet, own_socket}

abbrev pub af_inet6 : ℕ
af_inet6 = 23

-- `ip_type` is what `xf_inet_parse` finds in the host, none if it does not parse; `accept_found` and
-- `addresses_found` are for the two functions that `WSAIoctl` looks up, and `object` is the new object.
pub record ListenAnswers : Type 0 where
  pub ip_type : Option ℕ
  pub socket : Option ℕ
  pub reused : ℕ
  pub bound : ℕ
  pub listened : ℕ
  pub object : Option ℕ
  pub accept_found : ℕ
  pub addresses_found : ℕ
  pub registered : ℕ

-- XF_IPV4 and XF_IPV6; any other type aborts.
unfoldable pub get_family : ℕ → Option ℕ
get_family ip_type =
    if ip_type == 1 then some af_inet else (if ip_type == 2 then some af_inet6 else none)

-- The first error of `setsockopt`, `bind` and `listen`.
unfoldable pub bind_error : ListenAnswers → ℕ
bind_error answers =
    if answers.reused == 0
    then (if answers.bound == 0 then (if answers.listened == 0 then 0 else xf_error) else xf_error)
    else xf_error

-- The first error after the object has been made.
unfoldable pub find_error : ListenAnswers → ℕ
find_error answers =
    if answers.accept_found == 0
    then (if answers.addresses_found == 0 then answers.registered else xf_error)
    else xf_error

abbrev pub own_server : ℕ → ℕ → ℕ → ℕ → Net → Net
own_server object out handle family net = record net {
  bodies = put object (some (tcp_server_socket (some handle) family)) net.bodies;
  sockets = put out (some object) net.sockets;
}

-- With a socket, of a family.
unfoldable pub listen_with : ListenAnswers → ℕ → ℕ → ℕ → Net → Net × ℕ
listen_with answers out handle family net =
    let err = bind_error answers in
    let closed = closesocket (some handle) net in
    if err == 0
    then elim answers.object [
      | none ↦ (closed, xf_error)
      | some object ↦
          (let err' = find_error answers in
            if err' == 0 then (own_server object out handle family net, 0) else (closed, err'))
    ]
    else (closed, err)

unfoldable pub server_socket_new : ListenAnswers → ℕ → Net → Option (Net × ℕ)
server_socket_new answers out net = elim answers.ip_type [
  | none ↦ some (net, xf_error)
  | some ip_type ↦
      (get_family ip_type >>= λ family. elim answers.socket [
        | none ↦ some (net, xf_error)
        | some handle ↦ some (listen_with answers out handle family net)
      ])
]

-- `malloc` gives the address of the object.
unfoldable pub new_with_handle : ℕ → Option ℕ → Option ℕ → ℕ → Net → Net × ℕ
new_with_handle registered malloc handle out net =
    if registered == 0
    then elim malloc [
      | none ↦ (net, xf_error)
      | some object ↦ (own_socket object out handle net, 0)
    ]
    else (net, registered)

-- The body of a server socket.
abbrev pub get_server : ℕ → Net → Option (Option ℕ × ℕ)
get_server self net = net.bodies self >>= λ body. elim body [
  | tcp_socket handle ↦ none
  | tcp_server_socket socket address_family ↦ some (socket, address_family)
]

-- What stands in `buf` before it is written is left as it is.
abbrev pub accepting : ℕ → ℕ → Option ℕ → ℕ → IoAsync → IoAsync
accepting out self socket accepted io = record {
  handle = socket;
  io_type = io_accept;
  context = accept out self (some accepted) (get_buf io.context);
}

abbrev pub with_buf : IoContext → ℕ → IoContext
with_buf (accept out server accepted_socket buf) new_buf =
    accept out server accepted_socket (some new_buf)
with_buf other new_buf = other

abbrev pub buffered : ℕ → IoAsync → IoAsync
buffered buf io = record io { context = with_buf io.context buf }

abbrev pub without_accepted : IoContext → IoContext
without_accepted (accept out server accepted_socket buf) = accept out server none buf
without_accepted other = other

abbrev pub handed_over : IoAsync → IoAsync
handed_over io = record io { context = without_accepted io.context }

-- The variable of the caller, the server, and the socket that has been accepted.
abbrev pub get_accept : IoContext → Option (ℕ × ℕ × Option ℕ)
get_accept (accept out server accepted_socket buf) = some (out, server, accepted_socket)
get_accept _ = none

module _ (platform : Platform Net) where
  -- `socket` and `malloc` are the new socket and the new buffer; `answer` is the error that is not
  -- WSA_IO_PENDING.
  unfoldable pub server_socket_accept :
      ℕ → ℕ → ℕ → Option ℕ → Option ℕ → ℕ → ℕ → World Net → Option (World Net)
  server_socket_accept fuel self out socket malloc answer p w = do
    (listening, address_family) ← get_server self w.rest
    elim socket [
      | none ↦ notify platform fuel p xf_error w
      | some accepted ↦ (do
        w' ← set_io p (accepting out self listening accepted) w
        elim malloc [
          | none ↦ notify platform fuel p xf_error w'
          | some buf ↦ (do
            w'' ← set_io p (buffered buf) w'
            if answer == 0 then some w'' else notify platform fuel p xf_error w'')
        ])
    ]

  unfoldable pub completed_accept : ℕ → ℕ → ℕ → Option ℕ → ℕ → World Net → Option (World Net)
  completed_accept fuel error registered malloc p w =
      if error == 0
      then (do
        self ← w.asyncs p
        (out, server, accepted_socket) ← get_accept self.io_async.context
        body ← get_server server w.rest
        let (net, err) = new_with_handle registered malloc accepted_socket out w.rest
        let w' = record w { rest = net }
        if err == 0
            then (set_io p handed_over w' >>= notify platform fuel p 0)
            else notify platform fuel p err w')
      else notify platform fuel p xf_error w
