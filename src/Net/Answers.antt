-- ===== src/Net/Answers.antt =====
-- src/netobj.c over the procedures of the sockets: what a call of each function does.
use xrossfire.Base.{ℕ, ◌≡◌, refl, Option, none, some}
use xrossfire.Async.{World}
use xrossfire.Async.Notify.{Platform}
use xrossfire.Object.{object_query_interface, object_get_class_id, object_destroy}
use xrossfire.Net.{Net}
use xrossfire.Net.Socket.{close, receive_, send}
use xrossfire.Net.Server.{server_socket_accept}
use xrossfire.Net.Messages.{
  Answers, NetArgs, Reply, done, dropped, tcp_socket_procedure, tcp_server_socket_procedure,
  socket_close_, socket_receive_, socket_send_, server_socket_accept_,
}

dropped-done : (m : Option (World Net)) → dropped (done m) ≡ m
dropped-done none = refl
dropped-done (some w) = refl

module _ (platform : Platform Net) (timeout_address : ℕ)
    (until_notified : ℕ → World Net → Option (World Net)) (fuel class_id : ℕ)
    (answers : Answers) where
  abbrev pub tcp : ℕ → ℕ → NetArgs → World Net → Option (World Net × Reply)
  tcp = tcp_socket_procedure platform timeout_address until_notified fuel class_id answers

  abbrev pub server : ℕ → ℕ → NetArgs → World Net → Option (World Net × Reply)
  server = tcp_server_socket_procedure platform fuel class_id answers

  pub calls_reach :
      (self out operation : ℕ) (receive_length : Option ℕ) (w : World Net)
      → (socket_close_ tcp self operation w
          ≡ close platform fuel self answers.ioctl answers.answer operation w)
        × (socket_receive_ tcp self receive_length operation w
            ≡ receive_ platform fuel self receive_length answers.answer operation w)
        × (socket_send_ tcp self operation w ≡ send platform fuel self answers.answer operation w)
        × (server_socket_accept_ server self out operation w
            ≡ server_socket_accept platform fuel self out answers.socket answers.malloc
                answers.answer operation w)
  unfolding socket_close_ socket_receive_ socket_send_ server_socket_accept_ tcp_socket_procedure
      tcp_server_socket_procedure object_query_interface object_get_class_id object_destroy
  calls_reach self out operation receive_length w =
      (dropped-done _, dropped-done _, dropped-done _, dropped-done _)
