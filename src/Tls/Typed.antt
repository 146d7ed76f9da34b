-- ===== src/Tls/Typed.antt =====
-- The procedures of the TCP, the server and the TLS socket: what each says it provides, and what it
-- answers.
pub mod Tests
use xrossfire.Base.{ℕ, ◌≡◌, refl, Option, none, some}
use xrossfire.Async.{World}
use xrossfire.Async.Notify.{Platform}
use xrossfire.Object.{object_query_interface, object_get_class_id, object_destroy}
use xrossfire.Net.{Net}
use xrossfire.Net.Messages.{NetArgs, Answers}
use xrossfire.Net.Answers.{tcp, server}
use xrossfire.Net.Typed.{
  IsTyped, closes, receives, sends, accepts, tcp_operation, server_operation, Agrees, tcp-Agrees,
  server-Agrees,
}
use xrossfire.Tls.Messages.{Base, SslSocket, close, on_rest, ssl_socket_procedure}

module _ {ℓ} {W : Type ℓ} (base : Base W) where
  abbrev pub tls_operation :
      {interface_type message_id : ℕ} {args : NetArgs}
      → IsTyped interface_type message_id args
      → Option (SslSocket W → Option (SslSocket W))
  tls_operation (closes operation) = some (close base operation)
  tls_operation (receives receive_length operation) =
      some (on_rest base (base.receive_record receive_length operation))
  tls_operation (sends operation) = some (on_rest base (base.send_record operation))
  tls_operation (accepts out operation) = none

  tls-Agrees :
      (class_id interface_type message_id : ℕ) (args : NetArgs) (s : SslSocket W)
      (h : IsTyped interface_type message_id args)
      → Agrees
          (tls_operation h)
          (ssl_socket_procedure base class_id)
          interface_type
          message_id
          args
          s
  unfolding ssl_socket_procedure object_query_interface object_get_class_id object_destroy
  tls-Agrees class_id _ _ _ s (closes operation) = record { says = refl; follows = refl }
  tls-Agrees class_id _ _ _ s (receives receive_length operation) = record {
    says = refl;
    follows = refl;
  }
  tls-Agrees class_id _ _ _ s (sends operation) = record { says = refl; follows = refl }
  tls-Agrees class_id _ _ _ s (accepts out operation) = record { says = refl; follows = refl }

  -- For each message of the two interfaces of sockets, with its own argument record, a TCP
  -- socket, a server and a TLS socket answer the query for that interface, and do what they say.
  -- If they provide it, the message runs the operation of its name with the members of the
  -- record, answers 0, and faults only if the operation does; if they do not, it is refused with
  -- XF_ERROR and nothing changes.
  pub sockets-Agrees :
      (platform : Platform Net) (timeout_address : ℕ)
      (until_notified : ℕ → World Net → Option (World Net)) (fuel class_id self : ℕ)
      (answers : Answers) (interface_type message_id : ℕ) (args : NetArgs) (w : World Net)
      (s : SslSocket W) (h : IsTyped interface_type message_id args)
      → Agrees
          (tcp_operation platform timeout_address until_notified fuel class_id answers self h)
          (tcp platform timeout_address until_notified fuel class_id answers self)
          interface_type
          message_id
          args
          w
        × Agrees
            (server_operation platform timeout_address until_notified fuel class_id answers self h)
            (server platform timeout_address until_notified fuel class_id answers self)
            interface_type
            message_id
            args
            w
        × Agrees
            (tls_operation h)
            (ssl_socket_procedure base class_id)
            interface_type
            message_id
            args
            s
  sockets-Agrees platform timeout_address until_notified fuel class_id self answers i m args w s h =
      (
        tcp-Agrees platform timeout_address until_notified fuel class_id answers self i m args w h,
        server-Agrees platform timeout_address until_notified fuel class_id answers self i m args w
            h,
        tls-Agrees class_id i m args s h,
      )
