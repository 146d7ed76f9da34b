-- ===== src/Tls/Messages.antt =====
-- src/win32/ssl_socket.c: the start of a handshake, and the messages of a TLS socket.
--
-- `base_socket` is the member of the body, none if it is NULL. What the base socket and the rest of
-- the program do is `Base`; a call on an object that is NULL is a fault.
use xrossfire.Base.{
  ℕ, Bool, Option, none, some, ◌==◌, if◌then◌else◌, ◌>>=◌, ◌||◌, ◌≡◌, refl, >>=-eq-some, ap, sym,
}
use xrossfire.Object.{
  interface_unknown, object_query_interface, object_get_class_id, object_destroy, xf_error,
}
use xrossfire.Net.Messages.{
  interface_socket, socket_close, socket_receive, socket_send, NetArgs, query_interface_args,
  close_args, receive_args, send_args, Reply, replied, provides, class_id_of,
}

-- `xf_socket_close` and `xf_socket_release` of the base socket, `xf_async_notify`, `xf_async_call` for
-- the handshake, and the two operations on records, which work on the socket's buffers.
pub record Base {ℓ} (W : Type ℓ) : Type ℓ where
  pub close_base : ℕ → ℕ → W → Option W
  pub release_base : ℕ → W → Option W
  pub notify : ℕ → ℕ → W → Option W
  pub call_handshake : ℕ → W → Option W
  pub receive_record : Option ℕ → ℕ → W → Option W
  pub send_record : ℕ → W → Option W

pub record SslSocket {ℓ} (W : Type ℓ) : Type ℓ where
  pub base_socket : Option ℕ
  pub rest : W

module _ {ℓ} {W : Type ℓ} (base : Base W) where
  -- Without memory for the context the operation is notified.
  unfoldable pub ssl_socket_new : Bool → ℕ → W → Option W
  ssl_socket_new malloc operation w =
      if malloc then base.call_handshake operation w else base.notify operation xf_error w

  unfoldable pub close : ℕ → SslSocket W → Option (SslSocket W)
  close operation s = do
    socket ← s.base_socket
    rest ← base.close_base socket operation s.rest
    some (record { base_socket = none; rest = rest })

  unfoldable pub destroy : SslSocket W → Option (SslSocket W)
  destroy s = elim s.base_socket [
    | none ↦ some s
    | some socket ↦
        (base.release_base socket s.rest >>= λ rest.
        some (record { base_socket = none; rest = rest }))
  ]

  abbrev pub on_rest : (W → Option W) → SslSocket W → Option (SslSocket W)
  on_rest f s = f s.rest >>= λ rest. some (record s { rest = rest })

  abbrev pub answer : Reply → Option (SslSocket W) → Option (SslSocket W × Reply)
  answer reply m = m >>= λ s. some (s, reply)

  abbrev pub query : NetArgs → SslSocket W → Option (SslSocket W × Reply)
  query (query_interface_args interface_type) s =
      some (s, provides (interface_type == interface_unknown || interface_type == interface_socket))
  query _ s = none

  abbrev pub run_close : NetArgs → SslSocket W → Option (SslSocket W)
  run_close (close_args operation) s = close operation s
  run_close _ s = none

  abbrev pub run_receive : NetArgs → SslSocket W → Option (SslSocket W)
  run_receive (receive_args receive_length operation) s =
      on_rest (base.receive_record receive_length operation) s
  run_receive _ s = none

  abbrev pub run_send : NetArgs → SslSocket W → Option (SslSocket W)
  run_send (send_args operation) s = on_rest (base.send_record operation) s
  run_send _ s = none

  unfoldable pub ssl_socket_procedure : ℕ → ℕ → NetArgs → SslSocket W → Option (SslSocket W × Reply)
  ssl_socket_procedure class_id message_id args s =
      if message_id == object_query_interface
      then query args s
      else (if message_id == object_get_class_id
          then some (s, class_id_of class_id)
          else (if message_id == object_destroy
              then answer (replied 0) (destroy s)
              else (if message_id == socket_close
                  then answer (replied 0) (run_close args s)
                  else (if message_id == socket_receive
                      then answer (replied 0) (run_receive args s)
                      else (if message_id == socket_send
                          then answer (replied 0) (run_send args s)
                          else some (s, replied xf_error))))))

  -- After a close, no message touches the base socket: a destruction does not release it, and a
  -- second close is a fault.
  close_keeps :
      (operation : ℕ) (s s' : SslSocket W)
      → close operation s ≡ some s'
      → (s'.base_socket ≡ none) × (destroy s' ≡ some s') × (close operation s' ≡ none)
  unfolding close destroy
  close_keeps operation s s' h =
      let (socket, e, h') = >>=-eq-some s.base_socket _ h in
      let (rest, e', h'') = >>=-eq-some (base.close_base socket operation s.rest) _ h' in
      let gone : s'.base_socket ≡ none =
        sym (ap (λ (o : Option (SslSocket W)). o >>= λ t. t.base_socket) h'') in
      (gone, simp (destroy, gone) refl, rw (close, gone) refl)
