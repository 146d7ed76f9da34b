-- ===== src/Tls/Typed/Tests.antt =====
-- A receive that is asked of a TCP socket, of a server and of a TLS socket.
use xrossfire.Base.{ℕ, false, none, some, List, [], ◌∷◌, ◌==◌, if◌then◌else◌}
use xrossfire.Base.Int.{pos}
use xrossfire.Timeout.{init}
use xrossfire.Async.{World, async}
use xrossfire.Async.Notify.{Platform}
use xrossfire.Async.Create.{cleared}
use xrossfire.Net.{tcp_socket, Net, put}
use xrossfire.Net.Messages.{interface_socket, socket_receive, receive_args, Answers}
use xrossfire.Net.Answers.{tcp, server}
use xrossfire.Net.Typed.{receives, tcp_operation, server_operation, Agrees}
use xrossfire.Tls.Messages.{Base, SslSocket, ssl_socket_procedure}
use xrossfire.Tls.Typed.{tls_operation, sockets-Agrees}

abbrev platform : Platform Net
platform = record {
  completed = λ procedure error context w. some w;
  procedure = λ procedure self phase error context w. some (w, 0, none);
  cancel_io = λ handle r. (false, r);
  clear_io = λ io r. r;
}

-- An operation at address 3, and a TCP socket at address 20.
abbrev world : World Net
world = record {
  asyncs = λ p. if p == 3 then some (cleared (async false 70 80)) else none;
  timeouts = init;
  rest = record {
    bodies = put 20 (some (tcp_socket (some 8))) (λ k. none);
    sockets = λ k. none;
    lengths = λ k. 0;
    addr_lists = λ k. [];
    log = [];
  };
}

abbrev answers : Answers
answers = record {
  ioctl = 0;
  answer = 0;
  socket = none;
  malloc = none;
  garbage = cleared (async false 0 0);
  ticks = pos 0;
}

-- The base socket logs what it is asked.
abbrev base : Base (List ℕ)
base = record {
  close_base = λ socket operation r. some (1 ∷ r);
  release_base = λ socket r. some (2 ∷ r);
  notify = λ operation error r. some (3 ∷ r);
  call_handshake = λ operation r. some (4 ∷ r);
  receive_record = λ receive_length operation r. some (5 ∷ r);
  send_record = λ operation r. some (6 ∷ r);
}

abbrev tls : SslSocket (List ℕ)
tls = record { base_socket = some 20; rest = [] }

sockets-Agrees_example :
    Agrees
      (tcp_operation platform 60 (λ p w. some w) 1 61 answers 20 (receives (some 40) 3))
      (tcp platform 60 (λ p w. some w) 1 61 answers 20)
      interface_socket
      socket_receive
      (receive_args (some 40) 3)
      world
    × Agrees
        (server_operation platform 60 (λ p w. some w) 1 61 answers 20 (receives (some 40) 3))
        (server platform 60 (λ p w. some w) 1 61 answers 20)
        interface_socket
        socket_receive
        (receive_args (some 40) 3)
        world
    × Agrees
        (tls_operation base (receives (some 40) 3))
        (ssl_socket_procedure base 61)
        interface_socket
        socket_receive
        (receive_args (some 40) 3)
        tls
sockets-Agrees_example =
    sockets-Agrees base platform 60 (λ p w. some w) 1 61 20 answers interface_socket socket_receive
      (receive_args (some 40) 3) world tls (receives (some 40) 3)
