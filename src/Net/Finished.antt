-- ===== src/Net/Finished.antt =====
-- src/win32/tcp_socket.c: an operation from its start to the notification of its caller.
use xrossfire.Base.{
  ℕ, suc, ◌≡◌, refl, ap, ◌∙◌, Bool, true, false, Option, some, ◌==◌, if◌then◌else◌, Returns,
  Bool-cases, inl, inr,
}
use xrossfire.Async.{Async, disconnect, receive, World}
use xrossfire.Async.Notify.{Platform, notify}
use xrossfire.Async.Counts.{Operation, Holds}
use xrossfire.Async.Once.{notify_completes}
use xrossfire.Object.{xf_error}
use xrossfire.Net.{tcp_socket, Net}
use xrossfire.Net.Socket.{
  get_handle, completed_disconnect, completed_receive, completed_send, store_transfered,
  drop_handle,
}

-- The error that a notification reports for an error of Windows.
abbrev pub reported : ℕ → ℕ
reported error = if error == 0 then 0 else xf_error

-- A length is only written without an error.
abbrev pub received : ℕ → Option ℕ → ℕ → Net → Net
received error out transfered r = if error == 0 then store_transfered out transfered r else r

module _ (platform : Platform Net) (op : Operation) where
  -- A change of the rest of the world, with an operation that has holders.
  pub rest-Holds :
      (n : ℕ) (armed canceled called : Bool) (r : Net) (w : World Net) (g : Net → Net)
      → Holds platform op (suc n) armed canceled called r w
      → Holds platform op (suc n) armed canceled called (g r) (record w { rest = g w.rest })
  rest-Holds n armed canceled called r w g h = record {
    here = h.here;
    rest_is = ap g h.rest_is;
    valid = h.valid;
    armed_is = h.armed_is;
  }

module _ (platform : Platform Net) (op : Operation) (act : ℕ → Net → Net)
    (calm : (error : ℕ) (w : World Net)
      → platform.completed op.completed error op.context w
        ≡ some (record w { rest = act error w.rest })) where
  -- The notification after I/O, with the error of the I/O.
  reports :
      (fuel n error : ℕ) (armed canceled : Bool) (r : Net) (w : World Net)
      → Holds platform op (suc (if armed then suc n else n)) armed canceled false r w
      → Returns
          (if error == 0
            then notify platform (suc fuel) op.address 0 w
            else notify platform (suc fuel) op.address xf_error w)
          (Holds platform op n false canceled true (act (reported error) r))
  reports fuel n error armed canceled r w h = elim (Bool-cases (error == 0)) [
    | inl e ↦ rw e (notify_completes platform op act calm fuel n 0 armed canceled r w h)
    | inr e ↦ rw e (notify_completes platform op act calm fuel n xf_error armed canceled r w h)
  ]

  pub completed_send-Holds :
      (fuel n error transfered : ℕ) (armed canceled : Bool) (r : Net) (w : World Net)
      → Holds platform op (suc (if armed then suc n else n)) armed canceled false r w
      → Returns
          (completed_send platform (suc fuel) error transfered op.address w)
          (Holds platform op n false canceled true (act (reported error) r))
  unfolding completed_send
  completed_send-Holds fuel n error transfered armed canceled r w h =
      reports fuel n error armed canceled r w h

  receive_stores :
      (fuel error transfered : ℕ) (out : Option ℕ) (self : Async) (w : World Net)
      → (error == 0) ≡ true
      → w.asyncs op.address ≡ some self
      → self.io_async.context ≡ receive out
      → completed_receive platform fuel error transfered op.address w
        ≡ notify platform fuel op.address 0
            (record w { rest = store_transfered out transfered w.rest })
  unfolding completed_receive
  receive_stores fuel error transfered out self w e here at_receive =
      rw (e, here) (simp at_receive refl)

  receive_fails :
      (fuel error transfered : ℕ) (w : World Net)
      → (error == 0) ≡ false
      → completed_receive platform fuel error transfered op.address w
        ≡ notify platform fuel op.address xf_error w
  unfolding completed_receive
  receive_fails fuel error transfered w e = rw e refl

  pub completed_receive-Holds :
      (fuel n error transfered : ℕ) (armed canceled : Bool) (out : Option ℕ) (r : Net)
      (w : World Net)
      → op.io.context ≡ receive out
      → Holds platform op (suc (if armed then suc n else n)) armed canceled false r w
      → Returns (completed_receive platform (suc fuel) error transfered op.address w) (
          Holds platform op n false canceled true
            (act (reported error) (received error out transfered r)))
  completed_receive-Holds fuel n error transfered armed canceled out r w at_receive h =
      elim (Bool-cases (error == 0)) [
        | inl e ↦ rw (receive_stores (suc fuel) error transfered out _ w e h.here at_receive) (
            rw e (
              notify_completes platform op act calm fuel n 0 armed canceled _ _ (
                rest-Holds platform op (if armed then suc n else n) armed canceled false r w
                  (store_transfered out transfered) h)))
        | inr e ↦
            rw (receive_fails (suc fuel) error transfered w e)
              (rw e (notify_completes platform op act calm fuel n xf_error armed canceled r w h))
      ]

  disconnect_closes :
      (fuel error self : ℕ) (handle : Option ℕ) (record_ : Async) (w : World Net)
      → w.asyncs op.address ≡ some record_
      → record_.io_async.context ≡ disconnect self
      → w.rest.bodies self ≡ some (tcp_socket handle)
      → completed_disconnect platform fuel error op.address w ≡ (
          if error == 0
          then notify platform fuel op.address 0
              (record w { rest = drop_handle self handle w.rest })
          else notify platform fuel op.address xf_error
              (record w { rest = drop_handle self handle w.rest }))
  unfolding completed_disconnect get_handle
  disconnect_closes fuel error self handle record_ w here at_disconnect body =
      rw here (simp (at_disconnect, body) refl)

  pub completed_disconnect-Holds :
      (fuel n error self : ℕ) (armed canceled : Bool) (handle : Option ℕ) (r : Net) (w : World Net)
      → op.io.context ≡ disconnect self
      → r.bodies self ≡ some (tcp_socket handle)
      → Holds platform op (suc (if armed then suc n else n)) armed canceled false r w
      → Returns (completed_disconnect platform (suc fuel) error op.address w) (
          Holds platform op n false canceled true
            (act (reported error) (drop_handle self handle r)))
  completed_disconnect-Holds fuel n error self armed canceled handle r w at_disconnect body h =
      rw
        (disconnect_closes (suc fuel) error self handle _ w h.here at_disconnect
          (ap (λ (net : Net). net.bodies self) h.rest_is ∙ body))
        (reports fuel n error armed canceled (drop_handle self handle r) _ (
          rest-Holds platform op (if armed then suc n else n) armed canceled false r w
            (drop_handle self handle) h))
