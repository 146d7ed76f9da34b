-- ===== src/Net/Messages.antt =====
-- src/win32/tcp_socket.c, src/win32/tcp_server.c and src/netobj.c: the messages of sockets, the
-- procedures that answer them, and the functions that send them.
--
-- Buffers are the program's own. `class_id` is the address of CLASS_ID. What the operating system
-- answers to the operation that a message starts is `Answers`. A message whose argument record is
-- another message's would be misread: a fault.
use xrossfire.Base.{ℕ, Bool, ◌||◌, Option, none, some, ◌==◌, if◌then◌else◌, ◌>>=◌}
use xrossfire.Base.Int.{ℤ, pos}
use xrossfire.Async.{Async, World}
use xrossfire.Async.Notify.{Platform}
use xrossfire.Async.Create.{wait_new}
use xrossfire.Object.{
  message, interface_unknown, object_query_interface, object_get_class_id, object_destroy, xf_error,
}
use xrossfire.Net.{tcp_server_socket, Net, put, closesocket}
use xrossfire.Net.Socket.{get_handle, close, receive_, send}
use xrossfire.Net.Server.{get_server, server_socket_accept}

abbrev pub interface_socket : ℕ
interface_socket = 2

abbrev pub interface_server_socket : ℕ
interface_server_socket = 3

abbrev pub socket_close : ℕ
socket_close = message interface_socket 1

abbrev pub socket_receive : ℕ
socket_receive = message interface_socket 2

abbrev pub socket_send : ℕ
socket_send = message interface_socket 3

abbrev pub server_accept : ℕ
server_accept = message interface_server_socket 1

pub data NetArgs : Type 0 where
  no_args get_class_id_args : NetArgs
  query_interface_args : (interface_type : ℕ) → NetArgs
  close_args : (operation : ℕ) → NetArgs
  receive_args : (receive_length : Option ℕ) (operation : ℕ) → NetArgs
  send_args : (operation : ℕ) → NetArgs
  accept_args : (out operation : ℕ) → NetArgs

-- What is answered: an error, and what is written to the argument record.
pub data Reply : Type 0 where
  replied : (error : ℕ) → Reply
  provides : Bool → Reply
  class_id_of : ℕ → Reply

pub record Answers : Type 0 where
  pub ioctl : ℕ
  pub answer : ℕ
  pub socket : Option ℕ
  pub malloc : Option ℕ
  pub garbage : Async
  pub ticks : ℤ

-- A reply with an unchanged or a new state.
abbrev pub reply_with : Reply → World Net → Option (World Net × Reply)
reply_with reply w = some (w, reply)

abbrev pub done : Option (World Net) → Option (World Net × Reply)
done m = m >>= reply_with (replied 0)

abbrev pub query : ℕ → NetArgs → World Net → Option (World Net × Reply)
query provided (query_interface_args interface_type) w =
    some (w, provides (interface_type == interface_unknown || interface_type == provided))
query provided _ w = none

abbrev pub close_with :
    (ℕ → World Net → Option (World Net)) → NetArgs → World Net → Option (World Net)
close_with f (close_args operation) w = f operation w
close_with f _ w = none

abbrev pub receive_with :
    (Option ℕ → ℕ → World Net → Option (World Net)) → NetArgs → World Net → Option (World Net)
receive_with f (receive_args receive_length operation) w = f receive_length operation w
receive_with f _ w = none

abbrev pub send_with :
    (ℕ → World Net → Option (World Net)) → NetArgs → World Net → Option (World Net)
send_with f (send_args operation) w = f operation w
send_with f _ w = none

abbrev pub accept_with :
    (ℕ → ℕ → World Net → Option (World Net)) → NetArgs → World Net → Option (World Net)
accept_with f (accept_args out operation) w = f out operation w
accept_with f _ w = none

-- `until_notified` is what the other threads do until the operation that is waited for is notified,
-- and `timeout_address` is the address of the procedure of timeouts.
module _ (platform : Platform Net) (timeout_address : ℕ)
    (until_notified : ℕ → World Net → Option (World Net)) where
  unfoldable pub destroy_socket : ℕ → ℕ → Answers → World Net → Option (World Net)
  destroy_socket fuel self answers w = get_handle self w.rest >>= λ handle. elim handle [
    | none ↦ some w
    | some _ ↦ (do
      (w', created) ←
          wait_new timeout_address answers.malloc answers.garbage (pos 10000) answers.ticks w
      elim created [
        | none ↦ some w'
        | some operation ↦
            (close platform fuel self answers.ioctl answers.answer operation w'
              >>= until_notified operation)
      ])
  ]

  unfoldable pub tcp_socket_procedure :
      ℕ → ℕ → Answers → ℕ → ℕ → NetArgs → World Net → Option (World Net × Reply)
  tcp_socket_procedure fuel class_id answers self message_id args w =
      if message_id == object_query_interface
      then query interface_socket args w
      else (if message_id == object_get_class_id
          then some (w, class_id_of class_id)
          else (if message_id == object_destroy
              then done (destroy_socket fuel self answers w)
              else (if message_id == socket_close
                  then done
                      (close_with (close platform fuel self answers.ioctl answers.answer) args w)
                  else (if message_id == socket_receive
                      then done (
                          receive_with (λ out p. receive_ platform fuel self out answers.answer p)
                            args w)
                      else (if message_id == socket_send
                          then done (send_with (send platform fuel self answers.answer) args w)
                          else some (w, replied xf_error))))))

-- The body is written only if there is a socket to close.
unfoldable pub destroy_server : ℕ → Net → Option Net
destroy_server self net = get_server self net >>= λ server. elim server.0 [
  | none ↦ some net
  | some socket ↦
      (let closed = closesocket (some socket) net in
        some (record closed {
          bodies = put self (some (tcp_server_socket none server.1)) closed.bodies;
        }))
]

module _ (platform : Platform Net) where
  unfoldable pub tcp_server_socket_procedure :
      ℕ → ℕ → Answers → ℕ → ℕ → NetArgs → World Net → Option (World Net × Reply)
  tcp_server_socket_procedure fuel class_id answers self message_id args w =
      if message_id == object_query_interface
      then query interface_server_socket args w
      else (if message_id == object_get_class_id
          then some (w, class_id_of class_id)
          else (if message_id == object_destroy
              then done (destroy_server self w.rest >>= λ net. some (record w { rest = net }))
              else (if message_id == server_accept
                  then done (
                      accept_with
                        (λ out p.
                          server_socket_accept platform fuel self out answers.socket answers.malloc
                            answers.answer p)
                        args w)
                  else some (w, replied xf_error))))

abbrev pub dropped : Option (World Net × Reply) → Option (World Net)
dropped m = m >>= λ out. some out.0

-- The functions of src/netobj.c: `call` is the procedure of an object; what it answers is dropped.
module _ (call : ℕ → ℕ → NetArgs → World Net → Option (World Net × Reply)) where
  unfoldable pub socket_close_ : ℕ → ℕ → World Net → Option (World Net)
  socket_close_ self operation w = dropped (call self socket_close (close_args operation) w)

  unfoldable pub socket_receive_ : ℕ → Option ℕ → ℕ → World Net → Option (World Net)
  socket_receive_ self receive_length operation w =
      dropped (call self socket_receive (receive_args receive_length operation) w)

  unfoldable pub socket_send_ : ℕ → ℕ → World Net → Option (World Net)
  socket_send_ self operation w = dropped (call self socket_send (send_args operation) w)

  unfoldable pub server_socket_accept_ : ℕ → ℕ → ℕ → World Net → Option (World Net)
  server_socket_accept_ self out operation w =
      dropped (call self server_accept (accept_args out operation) w)
