-- ===== src/Net/Tests.antt =====
-- Runs of the sockets: an operation at address 3 without a timeout, whose procedure stores its error.
use xrossfire.Base.{
  ℕ, ◌≡◌, refl, true, false, Option, none, some, [], ◌∷◌, ◌==◌, ◌>>=◌, if◌then◌else◌, Returns,
}
use xrossfire.Base.Int.{pos}
use xrossfire.Avl.Sorted.{find_key}
use xrossfire.Timeout.{init}
use xrossfire.Timeout.Order.{handle_order}
use xrossfire.Timeout.Queue.{init-IsValid_lem}
use xrossfire.Async.{IoAsync, World}
use xrossfire.Async.Notify.{Platform, cancel}
use xrossfire.Async.Counts.{Operation, no_io, stored, Holds}
use xrossfire.Async.Pending.{detached}
use xrossfire.Port.{handle, System, serve}
use xrossfire.Net.{tcp_socket, tcp_server_socket, Net, put}
use xrossfire.Net.Clear.{io_async_clear}
use xrossfire.Net.Socket.{receive_, completed_receive}
use xrossfire.Net.Started.{with_io}
use xrossfire.Net.Finished.{reported, received}
use xrossfire.Net.Cycle.{receiving, receive-cancel}
use xrossfire.Net.Connect.{
  Lookup, ConnectAnswers, find_inet, own_socket, resolving, resolved, connect_phase1, connect_tcp,
  completed_connect_phase2,
}
use xrossfire.Net.Connected.{IsPrepared, in_phase2, Connecting, connect_phase1-Holds}
use xrossfire.Net.Owned.{finish_lookup, connect-owns}
use xrossfire.Net.Server.{server_socket_accept, completed_accept, handed_over}
use xrossfire.Net.Accepted.{in_accept, accept-owns}
use xrossfire.Net.Dispatch.{complete, serve-receive}

abbrev act : ℕ → Net → Net
act error net = record net { lengths = put 99 error net.lengths }

abbrev platform : Platform Net
platform = record {
  completed = λ procedure error context w. some (record w { rest = act error w.rest });
  procedure = λ procedure self phase error context w. some (w, 0, none);
  cancel_io = λ handle r. (true, r);
  clear_io = λ io r. (io_async_clear io r).1;
}

calm :
    (error : ℕ) (w : World Net)
    → platform.completed 70 error 80 w ≡ some (record w { rest = act error w.rest })
calm error w = refl

-- A TCP socket at address 20 with handle 8, and a server at address 21 with handle 9.
abbrev net : Net
net = record {
  bodies =
      put 20 (some (tcp_socket (some 8)))
        (put 21 (some (tcp_server_socket (some 9) 2)) (λ k. none));
  sockets = λ k. none;
  lengths = λ k. 0;
  addr_lists = put 30 (23 ∷ 2 ∷ []) (λ k. []);
  log = [];
}

abbrev operation_with : IoAsync → Operation
operation_with io = record {
  address = 3;
  io = io;
  key = record { id = 0; timestamp = pos 9 };
  completed = 70;
  context = 80;
}

abbrev operation : Operation
operation = operation_with no_io

abbrev world_of : Operation → World Net
world_of op = record {
  asyncs = λ p. if p == 3 then stored op 1 false false else none;
  timeouts = init;
  rest = net;
}

world-Holds :
    (io : IoAsync)
    → Holds platform (operation_with io) 1 false false false net (world_of (operation_with io))
unfolding find_key init xrossfire.Avl.Root.init
world-Holds io = record { here = refl; rest_is = refl; valid = init-IsValid_lem; armed_is = refl }

abbrev world : World Net
world = world_of operation

receive-cancel_example :
    Returns
      (receive_ platform 1 20 (some 40) 0 3 world
        >>= cancel platform 1 3
        >>= completed_receive platform 1 995 0 3)
      (Holds platform
        (detached (with_io (receiving (some 8) (some 40)) operation))
        0
        false
        true
        true
        (act (reported 995) (received 995 (some 40) 0 net)))
receive-cancel_example =
    receive-cancel platform operation act calm 20 (some 8) net refl 0 0 0 0 8 995 0 false (some 40)
      net world refl refl (world-Holds no_io)

abbrev lookup : Lookup
lookup = record { pending = true; error = 0; addrs = some 30; handle = some 7 }

abbrev answers : ConnectAnswers
answers = record { socket = some 10; registered = 0; bound = 0; ioctl = 0; connected = 0 }

answers-IsPrepared : IsPrepared answers 10
answers-IsPrepared = record { made = refl; registers = refl; binds = refl; finds = refl }

inet_found : find_inet (net.addr_lists 30) ≡ some 2
unfolding find_inet
inet_found = refl

connect-owns_example :
    Returns
      (connect_tcp platform 1 lookup answers 50 3 world
        >>= finish_lookup platform operation 1 lookup answers
        >>= completed_connect_phase2 platform 1 0 (some 22) 3)
      (Holds platform
        (with_io resolved (in_phase2 10 (with_io (resolving lookup 50) operation)))
        0
        false
        false
        true
        (act 0 (own_socket 22 50 (some 10) net)))
connect-owns_example =
    connect-owns platform operation act calm 0 0 0 10 2 30 50 22 lookup answers false net world refl
      refl inet_found answers-IsPrepared refl (world-Holds no_io)

abbrev in_lookup : IoAsync
in_lookup = resolving lookup 50 no_io

abbrev refusing : ConnectAnswers
refusing = record answers { connected = 61 }

connect_phase1-Holds_example :
    Returns
      (connect_phase1 platform 1 refusing 0 3 (world_of (operation_with in_lookup)))
      (Connecting platform (operation_with in_lookup) act 10 0 false false net)
connect_phase1-Holds_example =
    connect_phase1-Holds platform (operation_with in_lookup) act calm 0 0 10 2 30 50 refusing false
      net (world_of (operation_with in_lookup)) refl inet_found
      (record { made = refl; registers = refl; binds = refl; finds = refl }) (world-Holds in_lookup)

accept-owns_example :
    Returns
      (server_socket_accept platform 1 21 52 (some 12) (some 60) 0 3 world
        >>= completed_accept platform 1 0 0 (some 24) 3)
      (Holds platform
        (with_io handed_over (in_accept 52 21 (some 9) 12 60 operation))
        0
        false
        false
        true
        (act 0 (own_socket 24 52 (some 12) net)))
accept-owns_example =
    accept-owns platform operation act calm 1 0 0 21 52 12 60 24 2 (some 9) false false net world
      refl (world-Holds no_io)

abbrev in_receive : IoAsync
in_receive = receiving (some 8) (some 40) no_io

abbrev system : System (Option (World Net))
system = record {
  max_workers = pos 2;
  current_workers = pos 1;
  exited = false;
  port = 5;
  starting = 0;
  running = 1;
  queue = [];
  rest = some (world_of (operation_with in_receive));
}

serve-receive_example :
    Returns ((serve (complete platform 1 none 0) (handle none 17 3) system).rest) (
      Holds platform
        (operation_with in_receive)
        0
        false
        false
        true
        (act (reported 0) (received 0 (some 40) 17 net)))
serve-receive_example =
    serve-receive platform (operation_with in_receive) act calm 0 0 0 17 none none (some 40) false
      false net (world_of (operation_with in_receive)) system refl refl refl
      (world-Holds in_receive)
