-- ===== src/Net/Typed.antt =====
-- src/netobj.c and the procedures of the sockets: the messages of the interfaces that an object says it
-- provides are the ones that it answers.
use xrossfire.Base.{ℕ, ◌≡◌, refl, Bool, true, false, Option, none, some, ◌>>=◌}
use xrossfire.Async.{World}
use xrossfire.Async.Notify.{Platform}
use xrossfire.Object.{object_query_interface, object_get_class_id, object_destroy, xf_error}
use xrossfire.Net.{Net}
use xrossfire.Net.Socket.{close, receive_, send}
use xrossfire.Net.Server.{server_socket_accept}
use xrossfire.Net.Messages.{
  interface_socket, interface_server_socket, socket_close, socket_receive, socket_send,
  server_accept, NetArgs, query_interface_args, close_args, receive_args, send_args, accept_args,
  Reply, replied, provides, Answers, tcp_socket_procedure, tcp_server_socket_procedure,
}
use xrossfire.Net.Answers.{tcp, server}

-- A message of an interface, with its own argument record.
pub data IsTyped : ℕ → ℕ → NetArgs → Type 0 where
  closes : (operation : ℕ) → IsTyped interface_socket socket_close (close_args operation)
  receives :
      (receive_length : Option ℕ) (operation : ℕ)
      → IsTyped interface_socket socket_receive (receive_args receive_length operation)
  sends : (operation : ℕ) → IsTyped interface_socket socket_send (send_args operation)
  accepts :
      (out operation : ℕ)
      → IsTyped interface_server_socket server_accept (accept_args out operation)

abbrev pub provided {ℓ} : {A : Type ℓ} → Option A → Bool
provided none = false
provided (some _) = true

-- With an operation for the message, that is what is done and 0 is answered, and it faults if that
-- does; without one the message is refused with XF_ERROR, and nothing changes.
abbrev pub Follows {ℓ} : {S : Type ℓ} → Option (S → Option S) → S → Option (S × Reply) → Type ℓ
Follows (some operation) s out = out ≡ (operation s >>= λ s'. some (s', replied 0))
Follows none s out = out ≡ some (s, replied xf_error)

-- What an object says to the query is whether it has an operation for a message of the interface,
-- and it does that operation.
pub record Agrees {ℓ} {S : Type ℓ} (operation : Option (S → Option S))
    (call : ℕ → NetArgs → S → Option (S × Reply)) (interface_type message_id : ℕ) (args : NetArgs)
    (s : S) : Type ℓ where
  pub says :
      call object_query_interface (query_interface_args interface_type) s
      ≡ some (s, provides (provided operation))
  pub follows : Follows operation s (call message_id args s)

module _ (platform : Platform Net) (timeout_address : ℕ)
    (until_notified : ℕ → World Net → Option (World Net)) (fuel class_id : ℕ) (answers : Answers)
    (self : ℕ) where
  -- The operation of a TCP socket and of a server for each message.
  abbrev pub tcp_operation :
      {interface_type message_id : ℕ} {args : NetArgs}
      → IsTyped interface_type message_id args
      → Option (World Net → Option (World Net))
  tcp_operation (closes operation) =
      some (close platform fuel self answers.ioctl answers.answer operation)
  tcp_operation (receives receive_length operation) =
      some (receive_ platform fuel self receive_length answers.answer operation)
  tcp_operation (sends operation) = some (send platform fuel self answers.answer operation)
  tcp_operation (accepts out operation) = none

  abbrev pub server_operation :
      {interface_type message_id : ℕ} {args : NetArgs}
      → IsTyped interface_type message_id args
      → Option (World Net → Option (World Net))
  server_operation (accepts out operation) = some (
      server_socket_accept platform fuel self out answers.socket answers.malloc answers.answer
        operation)
  server_operation _ = none

  pub tcp-Agrees :
      (interface_type message_id : ℕ) (args : NetArgs) (w : World Net)
      (h : IsTyped interface_type message_id args)
      → Agrees
          (tcp_operation h)
          (tcp platform timeout_address until_notified fuel class_id answers self)
          interface_type
          message_id
          args
          w
  unfolding tcp_socket_procedure object_query_interface object_get_class_id object_destroy
  tcp-Agrees _ _ _ w (closes operation) = record { says = refl; follows = refl }
  tcp-Agrees _ _ _ w (receives receive_length operation) = record { says = refl; follows = refl }
  tcp-Agrees _ _ _ w (sends operation) = record { says = refl; follows = refl }
  tcp-Agrees _ _ _ w (accepts out operation) = record { says = refl; follows = refl }

  pub server-Agrees :
      (interface_type message_id : ℕ) (args : NetArgs) (w : World Net)
      (h : IsTyped interface_type message_id args)
      → Agrees
          (server_operation h)
          (server platform timeout_address until_notified fuel class_id answers self)
          interface_type
          message_id
          args
          w
  unfolding tcp_server_socket_procedure object_query_interface object_get_class_id object_destroy
  server-Agrees _ _ _ w (closes operation) = record { says = refl; follows = refl }
  server-Agrees _ _ _ w (receives receive_length operation) = record { says = refl; follows = refl }
  server-Agrees _ _ _ w (sends operation) = record { says = refl; follows = refl }
  server-Agrees _ _ _ w (accepts out operation) = record { says = refl; follows = refl }
